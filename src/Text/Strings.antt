-- ===== src/Text/Strings.antt =====
-- The functions of Go's `strings` that the corpus build calls, on code points.
use wird.Prelude.{
  ℕ, Bool, true, false, Option, none, some, not, ◌&&◌, ◌||◌, List, [], ◌∷◌, ◌++◌, nat_beq, keep,
  if◌then◌else◌,
}
use wird.Text.{Word, is_empty, is_space}

-- strings.HasPrefix
unfoldable pub starts_with : Word → Word → Bool
starts_with text [] = true
starts_with [] (p ∷ part) = false
starts_with (c ∷ text) (p ∷ part) = nat_beq c p && starts_with text part

-- strings.Contains
unfoldable pub holds : Word → Word → Bool
unfolding starts_with
holds [] part = is_empty part
holds (c ∷ text) part = starts_with (c ∷ text) part || holds text part

abbrev pub onto_head : ℕ → List Word → List Word
onto_head c [] = (c ∷ []) ∷ []
onto_head c (piece ∷ pieces) = (c ∷ piece) ∷ pieces

-- The pieces between the code points that pass a test.
unfoldable pub split_by : (ℕ → Bool) → Word → List Word
split_by at [] = [] ∷ []
split_by at (c ∷ text) = let rest = split_by at text in if at c then [] ∷ rest else onto_head c rest

-- strings.Split on a separator of one code point
abbrev pub split_on : ℕ → Word → List Word
split_on sep text = split_by (λ c. nat_beq c sep) text

-- strings.Fields
abbrev pub fields : Word → List Word
fields text = keep (λ piece. not (is_empty piece)) (split_by is_space text)

-- strings.Join
unfoldable pub join : Word → List Word → Word
join sep [] = []
join sep (w ∷ []) = w
join sep (w ∷ v ∷ words) = w ++ sep ++ join sep (v ∷ words)

-- strings.CutPrefix
unfoldable pub after_prefix : Word → Word → Option Word
after_prefix text [] = some text
after_prefix [] (p ∷ prefix) = none
after_prefix (c ∷ text) (p ∷ prefix) =
    let rest = after_prefix text prefix in if nat_beq c p then rest else none

abbrev pub drop_last : (ℕ → Bool) → ℕ → Word → Word
drop_last at c rest = if is_empty rest && at c then [] else c ∷ rest

-- strings.TrimRight and strings.Trim on a set of code points
unfoldable pub trim_right_of : (ℕ → Bool) → Word → Word
trim_right_of at [] = []
trim_right_of at (c ∷ text) = drop_last at c (trim_right_of at text)

unfoldable pub trim_of : (ℕ → Bool) → Word → Word
unfolding trim_right_of
trim_of at [] = []
trim_of at (c ∷ text) =
    let rest = trim_of at text in if at c then rest else trim_right_of at (c ∷ text)
