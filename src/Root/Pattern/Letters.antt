-- ===== src/Root/Pattern/Letters.antt =====
-- Every reading is a root of three letters, and stems that no template has the length of have none.
use wird.Prelude.{
  ℕ, ◌≤◌, ◌<◌, ◌≡◌, ◌≢◌, refl, false, not, ◌&&◌, ◌||◌, List, [], ◌∷◌, ◌++◌, Option, none, some,
  nat_eq, list_eq, contains, length, get_or, any, nat_beq, All, All-append, All-imp, ◌⊎◌, ◌∙◌,
  arith, Bool-cases, inl, inr,
}
use wird.Text.{Word}
use wird.Text.Letters.{alef}
use wird.Text.Unicode.{Unicode}
use wird.Root.Wazn.{Template, templates}
use wird.Root.Pattern.{
  Slots, Triple, spell, spell_seconds, spell_thirds, radical_readings, second_readings,
  third_readings, roots_at, roots_of, roots_in, slots_of, readings, read_slots, apply, add_new,
  match_templates, hollow, match_pattern,
}

abbrev IsTriliteral : Word → Type 0
IsTriliteral w = length w ≡ 3

spell_thirds-IsTriliteral : (f s : ℕ) (thirds : List ℕ) → All IsTriliteral (spell_thirds f s thirds)
spell_thirds-IsTriliteral f s [] = tt
spell_thirds-IsTriliteral f s (l ∷ thirds) = (refl, spell_thirds-IsTriliteral f s thirds)

spell_seconds-IsTriliteral :
    (f : ℕ) (seconds thirds : List ℕ) → All IsTriliteral (spell_seconds f seconds thirds)
spell_seconds-IsTriliteral f [] thirds = tt
spell_seconds-IsTriliteral f (s ∷ seconds) thirds =
    All-append IsTriliteral (spell_thirds f s thirds) _ (spell_thirds-IsTriliteral f s thirds)
      (spell_seconds-IsTriliteral f seconds thirds)

spell-IsTriliteral :
    (firsts seconds thirds : List ℕ) → All IsTriliteral (spell firsts seconds thirds)
spell-IsTriliteral [] seconds thirds = tt
spell-IsTriliteral (f ∷ firsts) seconds thirds =
    All-append IsTriliteral (spell_seconds f seconds thirds) _
      (spell_seconds-IsTriliteral f seconds thirds) (spell-IsTriliteral firsts seconds thirds)

roots_at-IsTriliteral : (stem : Word) (at : Triple) → All IsTriliteral (roots_at stem at)
unfolding roots_at
roots_at-IsTriliteral stem at =
    elim (Bool-cases
      (nat_beq (get_or stem at.first 0) alef || nat_beq (get_or stem at.third 0) alef)) [
        | inl e ↦ rw e tt
        | inr e ↦ rw e (
            spell-IsTriliteral (radical_readings (get_or stem at.first 0) false)
              (second_readings (get_or stem at.second 0)) (third_readings stem at))
      ]

roots_of-IsTriliteral : (stem : Word) (ats : List Triple) → All IsTriliteral (roots_of stem ats)
unfolding roots_of
roots_of-IsTriliteral stem [] = tt
roots_of-IsTriliteral stem (at ∷ rest) =
    All-append IsTriliteral (roots_at stem at) _ (roots_at-IsTriliteral stem at)
      (roots_of-IsTriliteral stem rest)

roots_in-IsTriliteral :
    (t : Template) (stem : Word) (o : Option Slots) → All IsTriliteral (roots_in t stem o)
roots_in-IsTriliteral t stem none = tt
roots_in-IsTriliteral t stem (some s) =
    roots_of-IsTriliteral stem (readings t stem (slots_of t s) s.fixed)

apply-IsTriliteral : (t : Template) (stem : Word) → All IsTriliteral (apply t stem)
unfolding apply
apply-IsTriliteral t stem = elim (Bool-cases (not (nat_beq (length t.shape) (length stem)))) [
  | inl e ↦ rw e tt
  | inr e ↦ rw e (roots_in-IsTriliteral t stem (read_slots t.shape stem 0))
]

add_new-All :
    (P : Word → Type 0) (out rs : List Word) → All P out → All P rs → All P (add_new out rs)
unfolding add_new
add_new-All P out [] h k = h
add_new-All P out (r ∷ rs) h k = elim (Bool-cases (contains out r)) [
  | inl e ↦ rw e (add_new-All P out rs h k.1)
  | inr e ↦ rw e (add_new-All P (out ++ r ∷ []) rs (All-append P out (r ∷ []) h (k.0, tt)) k.1)
]

match_templates-IsTriliteral :
    (ts : List Template) (letters : Word) (out : List Word)
    → All IsTriliteral out
    → All IsTriliteral (match_templates ts letters out)
unfolding match_templates
match_templates-IsTriliteral [] letters out h = h
match_templates-IsTriliteral (t ∷ ts) letters out h =
    match_templates-IsTriliteral ts letters (add_new out (apply t letters))
      (add_new-All IsTriliteral out (apply t letters) h (apply-IsTriliteral t letters))

hollow-IsTriliteral : (letters : Word) → All IsTriliteral (hollow letters)
unfolding hollow
hollow-IsTriliteral letters =
    elim (Bool-cases (nat_beq (length letters) 3 && nat_beq (get_or letters 1 0) alef)) [
      | inl e ↦ rw e (roots_at-IsTriliteral letters _)
      | inr e ↦ rw e tt
    ]

-- A template that has another length than the stem reads nothing from it.
apply_other_length : (t : Template) (stem : Word) → length t.shape ≢ length stem → apply t stem ≡ []
unfolding apply
apply_other_length t stem h = ground arith

match_templates_other_length :
    (ts : List Template) (letters : Word) (out : List Word)
    → All (λ (t : Template). length t.shape ≢ length letters) ts
    → match_templates ts letters out ≡ out
unfolding match_templates add_new
match_templates_other_length [] letters out h = refl
match_templates_other_length (t ∷ ts) letters out h =
    rw (apply_other_length t letters h.0) (match_templates_other_length ts letters out h.1)

-- The lengths of the shapes, from four letters to seven.
abbrev HasLength : Template → Type 0
HasLength t = (4 ≤ length t.shape) × (length t.shape ≤ 7)

templates-HasLength : All HasLength templates
unfolding templates
templates-HasLength = omega arith

not_hollow :
    (letters : Word) → (length letters ≡ 3 → get_or letters 1 0 ≢ alef) → hollow letters ≡ []
unfolding hollow
not_hollow letters h = ground arith

module _ (u : Unicode) (letters : Word) where
  -- A reading is a root of three letters, whatever the stem.
  pub match_pattern-IsTriliteral : All IsTriliteral (match_pattern u letters)
  unfolding match_pattern
  match_pattern-IsTriliteral =
      elim (Bool-cases (any (λ r. not (u.is_letter r) || not (u.is_arabic r)) letters)) [
        | inl e ↦ rw e tt
        | inr e ↦ rw e (
            match_templates-IsTriliteral templates letters (hollow letters)
              (hollow-IsTriliteral letters))
      ]

  -- A stem of fewer than four letters or more than seven has no reading, unless it has three letters
  -- and the middle one is an alef.
  pub match_pattern_short :
      (length letters ≤ 3) ⊎ (7 < length letters)
      → (length letters ≡ 3 → get_or letters 1 0 ≢ alef)
      → match_pattern u letters ≡ []
  unfolding match_pattern
  match_pattern_short lengths outer =
      elim (Bool-cases (any (λ r. not (u.is_letter r) || not (u.is_arabic r)) letters)) [
        | inl e ↦ rw e refl
        | inr e ↦ rw e (
            match_templates_other_length templates letters (hollow letters) (
              All-imp HasLength (λ t. length t.shape ≢ length letters)
                (λ t h. other_length t h lengths) templates templates-HasLength)
            ∙ not_hollow letters outer)
      ]
    where
      other_length :
          (t : Template)
          → HasLength t
          → (length letters ≤ 3) ⊎ (7 < length letters)
          → length t.shape ≢ length letters
      other_length t h (inl short) e = omega arith
      other_length t h (inr long) e = omega arith
