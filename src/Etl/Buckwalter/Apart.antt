-- ===== src/Etl/Buckwalter/Apart.antt =====
-- The tables tell every two letters apart, so a root and a lemma are known from their Arabic.
use wird.Prelude.{
  ◌≡◌, refl, ap, ◌∙◌, ℕ, Bool, true, not, ◌&&◌, Option, none, some, List, [], ◌∷◌, contains, nat_eq,
  arith,
}
use wird.Prelude.Map.{Map, get}
use wird.Text.{Word}
use wird.Etl.Buckwalter.{
  buckwalter_arabic, quran_buckwalter, onto_text, decode, or_empty, arabic_root, trim_digits,
  lemma_arabic,
}

abbrev letters_of : Map ℕ ℕ → List ℕ
letters_of [] = []
letters_of ((r, a) ∷ table) = a ∷ letters_of table

-- No two codes have the same letter.
abbrev is_apart : Map ℕ ℕ → Bool
is_apart [] = true
is_apart ((r, a) ∷ table) = not (contains (letters_of table) a) && is_apart table

get-letters :
    (table : Map ℕ ℕ) (r a : ℕ) → get table r ≡ some a → contains (letters_of table) a ≡ true
unfolding get
get-letters [] r a h = cc
get-letters ((s, b) ∷ table) r a h = ground (arith, get-letters table r a)

get_apart :
    (table : Map ℕ ℕ) (r s a : ℕ)
    → is_apart table ≡ true
    → get table r ≡ some a
    → get table s ≡ some a
    → r ≡ s
unfolding get
get_apart [] r s a h k l = cc
get_apart ((t, b) ∷ table) r s a h k l =
    ground (arith, get-letters table r a, get-letters table s a, get_apart table r s a)

onto_text_inv :
    (o : Option ℕ) (p : Option Word) (a : ℕ) (w : Word)
    → onto_text o p ≡ some (a ∷ w)
    → (o ≡ some a) × (p ≡ some w)
onto_text_inv none p a w h = cc
onto_text_inv (some b) none a w h = cc
onto_text_inv (some b) (some v) a w h = (cc, cc)

onto_text_cons :
    (o : Option ℕ) (p : Option Word) (w : Word)
    → onto_text o p ≡ some w
    → (a : ℕ) × (v : Word) × (w ≡ a ∷ v)
onto_text_cons none p w h = cc
onto_text_cons (some b) none w h = cc
onto_text_cons (some b) (some v) w h = (b, v, cc)

decode_apart :
    (table : Map ℕ ℕ) (v w x : Word)
    → is_apart table ≡ true
    → decode table v ≡ some x
    → decode table w ≡ some x
    → v ≡ w
unfolding decode
decode_apart table [] [] x t h k = refl
decode_apart table [] (s ∷ w) x t h k =
    let (a, y, e) = onto_text_cons (get table s) (decode table w) x k in cc
decode_apart table (r ∷ v) [] x t h k =
    let (a, y, e) = onto_text_cons (get table r) (decode table v) x h in cc
decode_apart table (r ∷ v) (s ∷ w) x t h k =
    let (a, y, e) = onto_text_cons (get table r) (decode table v) x h in
    let (ra, vy) = onto_text_inv (get table r) (decode table v) a y (h ∙ ap some e) in
    let (sa, wy) = onto_text_inv (get table s) (decode table w) a y (k ∙ ap some e) in
    let first = get_apart table r s a t ra sa in let rest = decode_apart table v w y t vy wy in cc

or_empty_inv : (o : Option Word) (a : ℕ) (x : Word) → or_empty o ≡ a ∷ x → o ≡ some (a ∷ x)
or_empty_inv none a x h = cc
or_empty_inv (some w) a x h = ap some h

-- Two codes that are shown as the same root are the same, and two lemmas that are shown alike differ
-- in the digits at their end alone.
pub decoded_apart :
    (v w : Word) (a : ℕ) (x y : Word) (v' w' : Word)
    → arabic_root v ≡ a ∷ x
    → arabic_root w ≡ a ∷ x
    → lemma_arabic v' ≡ some y
    → lemma_arabic w' ≡ some y
    → (v ≡ w) × (trim_digits v' ≡ trim_digits w')
unfolding arabic_root lemma_arabic
decoded_apart v w a x y v' w' h k l m = (
  decode_apart buckwalter_arabic v w (a ∷ x) refl (or_empty_inv (decode buckwalter_arabic v) a x h)
      (or_empty_inv (decode buckwalter_arabic w) a x k),
  decode_apart quran_buckwalter (trim_digits v') (trim_digits w') y refl l m,
)
