-- ===== src/Etl/Gate/Parsing/Exact.antt =====
-- When a parsing passes.
use wird.Prelude.{
  ◌≡◌, refl, ℕ, zero, suc, ◌+◌, ◌≤◌, ◌<◌, ◌↔◌, true, false, Option, none, some, List, [], ◌∷◌, ◌++◌,
  map, contains, length, nat_beq, nat_eq, list_eq, All, append-eq-nil, Bool-cases, inl, inr, arith,
}
use wird.Text.{Word}
use wird.Etl.Corpus.{CorpusWord, MorphSegment, IrabRow, IrabRole}
use wird.Etl.Gate.Parsing.{
  ParsingError, is_half, role_errors, codes_of, first_unnamed, unnamed_loop, unnamed_errors,
  rows_at, places, first_missing, Checked, count_segments, count_decoded, place_of, segments_of,
  check_word, words_loop, check_irab, or_first, onto, passes, ends, goes_on, rows_short, half_named,
}

-- There is a segment at least, a row for each, and among the rows each place from 1 on.
abbrev pub IsPlaced : List IrabRow → List MorphSegment → Type 0
IsPlaced rows segs =
    (1 ≤ length segs)
    × (length rows ≡ length segs)
    × ((k : ℕ) → 1 ≤ k → k ≤ length segs → contains (places rows) k ≡ true)

-- A word's morphology decodes to segments that its rows match.
abbrev pub IsParsed : (Word → Option (List MorphSegment)) → List IrabRow → CorpusWord → Type 0
IsParsed decode rows w =
    (segs : List MorphSegment) × (segments_of decode w ≡ some segs)
    × IsPlaced (rows_at rows w.id) segs

role_errors-nil :
    (roles : List IrabRole) → (role_errors roles ≡ []) ↔ All (λ r. is_half r ≡ false) roles
unfolding role_errors
role_errors-nil [] = (λ h. tt, λ h. refl)
role_errors-nil (r ∷ roles) = elim (Bool-cases (is_half r)) [
  | inl e ↦ (λ h. let bad : half_named r.code ∷ role_errors roles ≡ [] = (rw e at h) in cc, λ h. cc)
  | inr e ↦
      (λ h. (e, (role_errors-nil roles).0 (rw e at h)), λ h. rw e ((role_errors-nil roles).1 h.1))
]

first_unnamed-none :
    (named codes : List Word)
    → (first_unnamed named codes ≡ none) ↔ All (λ c. contains named c ≡ true) codes
first_unnamed-none named [] = (λ h. tt, λ h. refl)
first_unnamed-none named (c ∷ codes) = ground (arith, first_unnamed-none named codes)

or_first-none : {A : Type 0} (a b : Option A) → (or_first a b ≡ none) ↔ ((a ≡ none) × (b ≡ none))
or_first-none none b = (λ h. (refl, h), λ h. h.1)
or_first-none (some a) b = (λ h. cc, λ h. cc)

unnamed_loop-none :
    (named : List Word) (rows : List IrabRow)
    → (unnamed_loop named rows ≡ none)
      ↔ All (λ s. All (λ c. contains named c ≡ true) (codes_of s)) rows
unfolding unnamed_loop
unnamed_loop-none named [] = (λ h. tt, λ h. refl)
unnamed_loop-none named (s ∷ rows) =
    let split = or_first-none (first_unnamed named (codes_of s)) (unnamed_loop named rows) in
    let here = first_unnamed-none named (codes_of s) in
    let later = unnamed_loop-none named rows in
    (λ h. (here.0 (split.0 h).0, later.0 (split.0 h).1), λ h. split.1 (here.1 h.0, later.1 h.1))

unnamed_errors-nil : (o : Option Word) → (unnamed_errors o ≡ []) ↔ (o ≡ none)
unnamed_errors-nil none = (λ h. refl, λ h. refl)
unnamed_errors-nil (some c) = (λ h. cc, λ h. cc)

first_missing-none :
    (place : List ℕ) (k n : ℕ)
    → (first_missing place k n ≡ none) ↔ ((j : ℕ) → k ≤ j → j < k + n → contains place j ≡ true)
unfolding first_missing
first_missing-none place k zero = (λ h j a b. absurd (omega arith), λ h. refl)
first_missing-none place k (suc n) = elim (Bool-cases (contains place k)) [
  | inl e ↦
      let later = first_missing-none place (suc k) n in
      (
        λ h j a b. elim (Bool-cases (nat_beq k j)) [
          | inl same ↦ let here : k ≡ j = ground (arith, same) in rw (← here) e
          | inr other ↦ later.0 (rw e at h) j (ground (arith, other)) (omega arith)
        ],
        λ h. rw e (later.1 (λ j a b. h j (omega arith) (omega arith))),
      )
  | inr e ↦ (
    λ h. let bad : some k ≡ none = (rw e at h) in cc,
    λ h. let good = h k (omega arith) (omega arith) in cc,
  )
]

place_of-passes : (word : ℕ) (o : Option ℕ) → (place_of word o ≡ passes) ↔ (o ≡ none)
place_of-passes word none = (λ h. refl, λ h. refl)
place_of-passes word (some c) = (λ h. cc, λ h. cc)

onto-nil :
    (c : Checked) (rest : List ParsingError) → (onto c rest ≡ []) ↔ ((c ≡ passes) × (rest ≡ []))
onto-nil passes rest = (λ h. (refl, h), λ h. h.1)
onto-nil (ends e) rest = (λ h. cc, λ h. cc)
onto-nil (goes_on e) rest = (λ h. cc, λ h. cc)

count_segments-passes :
    (rows : List IrabRow) (word : ℕ) (segs : List MorphSegment)
    → (count_segments rows word segs ≡ passes) ↔ IsPlaced rows segs
count_segments-passes rows word [] = (λ h. cc, λ h. absurd (omega (arith, h.0)))
count_segments-passes rows word (seg ∷ segs) =
    elim (Bool-cases (nat_beq (length rows) (length (seg ∷ segs)))) [
      | inl e ↦
          let placed = place_of-passes word (first_missing (places rows) 1 (length (seg ∷ segs))) in
          let missing = first_missing-none (places rows) 1 (length (seg ∷ segs)) in
          (
            λ h. (
              omega arith,
              ground (arith, e),
              λ k a b. missing.0 (placed.0 (rw e at h)) k a (omega arith),
            ),
            λ h. rw e (placed.1 (missing.1 (λ j a b. h.2 j a (omega arith)))),
          )
      | inr e ↦ (
        λ h.
            let bad : ends (rows_short word (length (seg ∷ segs)) (length rows)) ≡ passes =
              (rw e at h) in
            cc,
        λ h. absurd (ground (arith, e, h.1)),
      )
    ]

count_decoded-passes :
    (rows : List IrabRow) (word : ℕ) (o : Option (List MorphSegment))
    → (count_decoded rows word o ≡ passes)
      ↔ ((segs : List MorphSegment) × (o ≡ some segs) × IsPlaced rows segs)
count_decoded-passes rows word none = (λ h. cc, λ (segs, e, p). cc)
count_decoded-passes rows word (some segs) = (
  λ h. (segs, refl, (count_segments-passes rows word segs).0 h),
  λ (segs', e, p).
      let same : segs' ≡ segs = cc in (count_segments-passes rows word segs).1 (rw (← same) p),
)

words_loop-nil :
    (decode : Word → Option (List MorphSegment)) (rows : List IrabRow) (words : List CorpusWord)
    → (words_loop decode rows words ≡ []) ↔ All (IsParsed decode rows) words
unfolding words_loop check_word
words_loop-nil decode rows [] = (λ h. tt, λ h. refl)
words_loop-nil decode rows (w ∷ words) =
    let split = onto-nil (check_word decode rows w) (words_loop decode rows words) in
    let here = count_decoded-passes (rows_at rows w.id) w.id (segments_of decode w) in
    let later = words_loop-nil decode rows words in
    (λ h. (here.0 (split.0 h).0, later.0 (split.0 h).1), λ h. split.1 (here.1 h.0, later.1 h.1))

-- The parsing passes exactly if each role is named in both languages, each code of each row is a
-- role's, and each word's morphology decodes to segments that its rows match one by one.
pub check_irab_exact :
    (decode : Word → Option (List MorphSegment)) (roles : List IrabRole) (rows : List IrabRow)
    (words : List CorpusWord)
    → (check_irab decode roles rows words ≡ []) ↔ (
        All (λ r. is_half r ≡ false) roles
        × All
            (λ s. All (λ c. contains (map (λ (r : IrabRole). r.code) roles) c ≡ true) (codes_of s))
            rows
        × All (IsParsed decode rows) words)
unfolding check_irab
check_irab_exact decode roles rows words =
    let named = map (λ (r : IrabRole). r.code) roles in
    let whole =
      append-eq-nil (role_errors roles ++ unnamed_errors (unnamed_loop named rows))
        (words_loop decode rows words) in
    let start = append-eq-nil (role_errors roles) (unnamed_errors (unnamed_loop named rows)) in
    let first = role_errors-nil roles in
    let codes = unnamed_errors-nil (unnamed_loop named rows) in
    let none_unnamed = unnamed_loop-none named rows in
    let last = words_loop-nil decode rows words in
    (
      λ h.
          let front = start.0 (whole.0 h).0 in
          (first.0 front.0, none_unnamed.0 (codes.0 front.1), last.0 (whole.0 h).1),
      λ h. whole.1 (start.1 (first.1 h.0, codes.1 (none_unnamed.1 h.1)), last.1 h.2),
    )
