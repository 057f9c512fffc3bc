-- ===== src/Root/Strip/Slice.antt =====
-- Spans of a word: a span cut in two, and how long a span is.
use Prim.Native.Nat.add
use native.Mathlib.Nat.{zero-add}
use wird.Prelude.{
  ℕ, zero, suc, ◌+◌, ◌-◌, ◌≤◌, ◌≡◌, refl, sym, ap, ◌∙◌, [], ◌∷◌, ◌++◌, arith, length, take, drop,
  length-take, length-drop,
}
use wird.Text.{Word}
use wird.Root.Strip.{slice}

pub length-slice : (w : Word) (i j : ℕ) → i ≤ j → j ≤ length w → length (slice w i j) ≡ j - i
unfolding slice
length-slice w i j h k = omega (arith, length-take (j - i) (drop i w), length-drop i w)

take-nil : (n : ℕ) → take {A = ℕ} n [] ≡ []
take-nil zero = refl
take-nil (suc n) = refl

drop-nil : (n : ℕ) → drop {A = ℕ} n [] ≡ []
drop-nil zero = refl
drop-nil (suc n) = refl

take-add : (a b : ℕ) (w : Word) → take (a + b) w ≡ take a w ++ take b (drop a w)
take-add zero b w = rw zero-add
take-add (suc a) b [] = rw add.suc (sym (take-nil b))
take-add (suc a) b (r ∷ w) = rw add.suc (ap (λ v. r ∷ v) (take-add a b w))

drop-add : (a b : ℕ) (w : Word) → drop (a + b) w ≡ drop b (drop a w)
drop-add zero b w = rw zero-add
drop-add (suc a) b [] = rw add.suc (sym (drop-nil b))
drop-add (suc a) b (r ∷ w) = rw add.suc (drop-add a b w)

-- A span is what stands before a position in it, and what stands after.
pub slice-split : (w : Word) (i m j : ℕ) → i ≤ m → m ≤ j → slice w i j ≡ slice w i m ++ slice w m j
unfolding slice
slice-split w i m j h k =
    let whole_len : j - i ≡ (m - i) + (j - m) = omega arith in
    let back : i + (m - i) ≡ m = omega arith in
    rw whole_len (
      take-add (m - i) (j - m) (drop i w)
      ∙ ap (λ v. take (m - i) (drop i w) ++ take (j - m) v)
          (sym (drop-add i (m - i) w) ∙ ap (λ (n : ℕ). drop n w) back))

pub append-inj : (a b c d : Word) → length a ≡ length b → a ++ c ≡ b ++ d → (a ≡ b) × (c ≡ d)
append-inj [] [] c d h e = (refl, e)
append-inj [] (y ∷ b) c d h e = absurd (omega arith)
append-inj (x ∷ a) [] c d h e = absurd (omega arith)
append-inj (x ∷ a) (y ∷ b) c d h e = ground (arith, append-inj a b c d)

take-length : (w : Word) → take (length w) w ≡ w
take-length [] = refl
take-length (r ∷ w) = ap (λ v. r ∷ v) (take-length w)

pub slice-whole : (w : Word) → slice w 0 (length w) ≡ w
unfolding slice
slice-whole w = let e : length w - 0 ≡ length w = omega arith in rw e (take-length w)
