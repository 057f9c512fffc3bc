-- ===== src/Root/Pattern.antt =====
-- jidhr/pkg/root/pattern.go: the readings of a stem by the templates.
pub mod Letters
pub mod ReadBack
use wird.Prelude.{
  ℕ, leb, Option, none, some, zero, suc, ◌+◌, ◌-◌, Bool, true, false, not, ◌&&◌, ◌||◌, List, [],
  ◌∷◌, ◌++◌, map, ◌==◌, nat_eq, list_eq, contains, length, get_or, ltb, nat_beq, any, if◌then◌else◌,
}
use wird.Prelude.Sort.{sort}
use wird.Text.{Word}
use wird.Text.Letters.{hamza, alef, teh, seen, ain, feh, lam, meem, noon, heh, waw, yeh}
use wird.Text.Unicode.{Unicode}
use wird.Root.Wazn.{Template, templates}
use wird.Root.Strip.{ends_in_unpeelable_suffix}

abbrev pub weak_letters : List ℕ
weak_letters = waw ∷ yeh ∷ []

abbrev pub long_vowels : List ℕ
long_vowels = alef ∷ waw ∷ yeh ∷ []

unfoldable pub radical_readings : ℕ → Bool → List ℕ
radical_readings c final =
    if nat_beq c waw || nat_beq c yeh
    then c ∷ hamza ∷ alef ∷ (if nat_beq c yeh then waw ∷ [] else if not final then yeh ∷ [] else [])
    else if nat_beq c heh
    then c ∷ (if final then weak_letters else [])
    else c ∷ []

-- The positions that a shape reads radicals from, and those of its own letters; `none` where the
-- stem has another letter than the shape's own.
pub record Slots : Type 0 where
  pub radicals : List ℕ
  pub fixed : List ℕ

abbrev pub is_radical : ℕ → Bool
is_radical s = contains (feh ∷ ain ∷ lam ∷ []) s

abbrev at_radical : ℕ → Option Slots → Option Slots
at_radical i none = none
at_radical i (some s) = some (record s { radicals = i ∷ s.radicals })

abbrev at_fixed : ℕ → Option Slots → Option Slots
at_fixed i none = none
at_fixed i (some s) = some (record s { fixed = i ∷ s.fixed })

-- The loop of `apply` over a shape and a stem of its length, from position `i` on.
unfoldable pub read_slots : Word → Word → ℕ → Option Slots
read_slots [] stem i = some (record { radicals = []; fixed = [] })
read_slots (s ∷ shape) [] i = none
read_slots (s ∷ shape) (c ∷ stem) i =
    let rest = read_slots shape stem (i + 1) in
    let radical = at_radical i rest in
    let own = at_fixed i rest in if is_radical s then radical else if nat_beq c s then own else none

-- Three positions of a stem.
pub record Triple : Type 0 where
  pub first : ℕ
  pub second : ℕ
  pub third : ℕ

-- slots[0], slots[1], slots[2]
abbrev pub triple : List ℕ → Triple
triple slots = record {
  first = get_or slots 0 0;
  second = get_or slots 1 0;
  third = get_or slots 2 0;
}

abbrev pub delete_at : ℕ → List ℕ → List ℕ
delete_at k [] = []
delete_at zero (x ∷ xs) = xs
delete_at (suc k) (x ∷ xs) = x ∷ delete_at k xs

-- The inner loop of `readings`, for the fixed letter at `f`, from the k-th slot on.
unfoldable pub swap_readings : Word → List ℕ → ℕ → ℕ → List ℕ → List Triple
swap_readings stem slots f k [] = []
swap_readings stem slots f k (slot ∷ rest) =
    let later = swap_readings stem slots f (k + 1) rest in
    if not (contains long_vowels (get_or stem slot 0))
    then later
    else triple (sort leb (delete_at k slots ++ f ∷ [])) ∷ later

unfoldable pub fixed_readings : Word → List ℕ → List ℕ → List Triple
fixed_readings stem slots [] = []
fixed_readings stem slots (f ∷ fixed) =
    swap_readings stem slots f 0 slots ++ fixed_readings stem slots fixed

unfoldable pub readings : Template → Word → List ℕ → List ℕ → List Triple
readings t stem slots fixed =
    triple slots ∷ (if t.doubled then [] else fixed_readings stem slots fixed)

unfoldable pub third_is_one_among_several : Word → ℕ → Bool
third_is_one_among_several stem at =
    if nat_beq (get_or stem at 0) hamza && ltb 0 at && nat_beq (get_or stem (at - 1) 0) alef
    then true
    else ends_in_unpeelable_suffix stem

abbrev pub spell_thirds : ℕ → ℕ → List ℕ → List Word
spell_thirds f s [] = []
spell_thirds f s (l ∷ thirds) = (f ∷ s ∷ l ∷ []) ∷ spell_thirds f s thirds

abbrev pub spell_seconds : ℕ → List ℕ → List ℕ → List Word
spell_seconds f [] thirds = []
spell_seconds f (s ∷ seconds) thirds = spell_thirds f s thirds ++ spell_seconds f seconds thirds

-- The three nested loops of `rootsAt`.
abbrev pub spell : List ℕ → List ℕ → List ℕ → List Word
spell [] seconds thirds = []
spell (f ∷ firsts) seconds thirds = spell_seconds f seconds thirds ++ spell firsts seconds thirds

abbrev pub is_final : Word → Triple → Bool
is_final stem at = nat_beq at.third (length stem - 1) && not (nat_beq at.third at.second)

unfoldable pub third_readings : Word → Triple → List ℕ
third_readings stem at =
    radical_readings (get_or stem at.third 0) (is_final stem at)
    ++ (if is_final stem at && third_is_one_among_several stem at.third then weak_letters else [])

unfoldable pub second_readings : ℕ → List ℕ
second_readings second = if nat_beq second alef then weak_letters else radical_readings second false

unfoldable pub roots_at : Word → Triple → List Word
roots_at stem at =
    let first = get_or stem at.first 0 in
    if nat_beq first alef || nat_beq (get_or stem at.third 0) alef
    then []
    else spell (radical_readings first false) (second_readings (get_or stem at.second 0))
        (third_readings stem at)

unfoldable pub roots_of : Word → List Triple → List Word
roots_of stem [] = []
roots_of stem (at ∷ rest) = roots_at stem at ++ roots_of stem rest

-- A doubled shape reads its second radical once more.
abbrev pub slots_of : Template → Slots → List ℕ
slots_of t s =
    if t.doubled then s.radicals ++ get_or s.radicals (length s.radicals - 1) 0 ∷ [] else s.radicals

abbrev pub roots_in : Template → Word → Option Slots → List Word
roots_in t stem none = []
roots_in t stem (some s) = roots_of stem (readings t stem (slots_of t s) s.fixed)

unfoldable pub apply : Template → Word → List Word
apply t stem =
    if not (nat_beq (length t.shape) (length stem))
    then []
    else roots_in t stem (read_slots t.shape stem 0)

-- The loop over the readings of one template.
unfoldable pub add_new : List Word → List Word → List Word
add_new out [] = out
add_new out (r ∷ readings) = add_new (if contains out r then out else out ++ r ∷ []) readings

unfoldable pub match_templates : List Template → Word → List Word → List Word
match_templates [] letters out = out
match_templates (t ∷ ts) letters out = match_templates ts letters (add_new out (apply t letters))

-- A medial alef in three letters stands in for a weak radical.
unfoldable pub hollow : Word → List Word
hollow letters =
    if nat_beq (length letters) 3 && nat_beq (get_or letters 1 0) alef
    then roots_at letters (record { first = 0; second = 1; third = 2 })
    else []

module _ (u : Unicode) where
  open u use {is_letter, is_arabic}

  unfoldable pub match_pattern : Word → List Word
  match_pattern letters =
      if any (λ r. not (is_letter r) || not (is_arabic r)) letters
      then []
      else match_templates templates letters (hollow letters)
