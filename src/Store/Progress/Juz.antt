-- ===== src/Store/Progress/Juz.antt =====
-- The juz of an aya, and the figures by juz.
use wird.Prelude.{
  ◌≡◌, refl, ap, ◌∙◌, ℕ, zero, suc, ◌+◌, ◌-◌, ◌≤◌, ◌<◌, Bool, true, false, ◌&&◌, ◌||◌, ◌⊎◌, inl,
  inr, Option, none, Option-cases, get_elem?, some, List, [], ◌∷◌, keep, length, length-keep-le,
  get_or, nat_beq, ltb, leb, arith, if◌then◌else◌,
}
use Prim.Native.String.{String}
use wird.Prelude.Attempt.{done, fail}
use wird.Sync.Tables.{Tables, DbError}
use wird.Store.Progress.{
  juz_starts, juz_loop, later_starts, juz_of, bump, Counts, no_counts, zeroes, Progress,
  understood_loop, understood_by, progress, shown, unanswered,
}

-- How many of the starts are no later than the aya.
unfoldable pub begun : ℕ → List ℕ → ℕ
begun ayah starts = length (keep (λ s. leb s ayah) starts)

abbrev ascends : ℕ → List ℕ → Bool
ascends low [] = true
ascends low (s ∷ starts) = ltb low s && ascends s starts

begun_none :
    (ayah low : ℕ) (starts : List ℕ)
    → ascends low starts ≡ true
    → ayah ≤ low
    → begun ayah starts ≡ 0
unfolding begun
begun_none ayah low [] h k = refl
begun_none ayah low (s ∷ starts) h k = ground (arith, begun_none ayah s starts)

juz_loop-begun :
    (ayah juz i low : ℕ) (starts : List ℕ)
    → ascends low starts ≡ true
    → juz_loop ayah juz i starts
      ≡ (if nat_beq (begun ayah starts) 0 then juz else i + begun ayah starts)
unfolding juz_loop begun
juz_loop-begun ayah juz i low [] h = refl
juz_loop-begun ayah juz i low (s ∷ starts) h = ground (
  arith,
  begun_none ayah s starts,
  juz_loop-begun ayah (suc i) (suc i) s starts,
  juz_loop-begun ayah juz (suc i) s starts,
)

begun-le : (ayah : ℕ) (starts : List ℕ) → begun ayah starts ≤ length starts
unfolding begun
begun-le ayah starts = length-keep-le (λ s. leb s ayah) starts

-- The juz of an aya is the number of those that have begun by then, of which the first is always one;
-- so it is one of the thirty.
pub juz_of_exact :
    (ayah : ℕ)
    → (juz_of ayah ≡ 1 + begun ayah (later_starts juz_starts))
      × (1 ≤ juz_of ayah)
      × (juz_of ayah ≤ 30)
unfolding juz_of
juz_of_exact ayah =
    let loop = juz_loop-begun ayah 1 1 0 (later_starts juz_starts) refl in
    let few = begun-le ayah (later_starts juz_starts) in
    (ground (arith, loop), ground (arith, loop), ground (arith, loop, few))

head_at :
    (n : ℕ) (counts : List ℕ) (j : ℕ)
    → get_or (suc n ∷ counts) j 0
      ≡ (if nat_beq 0 j then get_or (n ∷ counts) j 0 + 1 else get_or (n ∷ counts) j 0)
head_at n counts zero = omega arith
head_at n counts (suc j) = ground arith

tail_at :
    (n i : ℕ) (counts out : List ℕ)
    → ((j : ℕ)
        → get_or out j 0 ≡ (if nat_beq i j then get_or counts j 0 + 1 else get_or counts j 0))
    → (j : ℕ)
    → get_or (n ∷ out) j 0
      ≡ (if nat_beq (suc i) j then get_or (n ∷ counts) j 0 + 1 else get_or (n ∷ counts) j 0)
tail_at n i counts out h zero = ground arith
tail_at n i counts out h (suc j) = ground (arith, h j)

bump_at :
    (i : ℕ) (counts : List ℕ)
    → i < length counts
    → (out : List ℕ) × (bump i counts ≡ some out)
      × (length out ≡ length counts)
      × ((j : ℕ)
          → get_or out j 0 ≡ (if nat_beq i j then get_or counts j 0 + 1 else get_or counts j 0))
unfolding bump
bump_at i [] h = absurd (omega arith)
bump_at zero (n ∷ counts) h = (suc n ∷ counts, refl, refl, head_at n counts)
bump_at (suc i) (n ∷ counts) h =
    let (out, made, long, at) = bump_at i counts (omega arith) in
    (n ∷ out, rw made refl, ap suc long, tail_at n i counts out at)

abbrev has_begun : ℕ → Option ℕ → Bool
has_begun ayah none = false
has_begun ayah (some s) = leb s ayah

abbrev is_before : ℕ → Option ℕ → Bool
is_before ayah none = true
is_before ayah (some s) = ltb ayah s

-- The aya is in the juz of this index of `juz_starts`: no earlier than its start, if it is not the
-- first, and before the start of the next, if it is not the last.
abbrev pub is_in_juz : ℕ → ℕ → Bool
is_in_juz i ayah =
    (nat_beq i 0 || has_begun ayah (get_elem? juz_starts i))
    && is_before ayah (get_elem? juz_starts (suc i))

begun_zero :
    (ayah low : ℕ) (starts : List ℕ)
    → ascends low starts ≡ true
    → nat_beq (begun ayah starts) 0 ≡ is_before ayah (get_elem? starts 0)
unfolding begun
begun_zero ayah low [] h = refl
begun_zero ayah low (s ∷ starts) h = ground (arith, begun_none ayah s starts)

not_begun :
    (ayah low i : ℕ) (starts : List ℕ)
    → ascends low starts ≡ true
    → ayah ≤ low
    → has_begun ayah (get_elem? starts i) ≡ false
not_begun ayah low i [] h k = refl
not_begun ayah low zero (s ∷ starts) h k = ground arith
not_begun ayah low (suc i) (s ∷ starts) h k =
    not_begun ayah s i starts (ground (arith, h)) (ground (arith, h, k))

begun-suc :
    (ayah low i : ℕ) (starts : List ℕ)
    → ascends low starts ≡ true
    → nat_beq (begun ayah starts) (suc i)
      ≡ (has_begun ayah (get_elem? starts i) && is_before ayah (get_elem? starts (suc i)))
unfolding begun
begun-suc ayah low i [] h = ground arith
begun-suc ayah low zero (s ∷ starts) h =
    ground (arith, begun_none ayah s starts, begun_zero ayah s starts)
begun-suc ayah low (suc i) (s ∷ starts) h =
    ground (arith, begun_none ayah s starts, not_begun ayah s i starts, begun-suc ayah s i starts)

juz_of-is_in_juz : (ayah i : ℕ) → nat_beq (juz_of ayah - 1) i ≡ is_in_juz i ayah
juz_of-is_in_juz ayah zero =
    let (exact, low, high) = juz_of_exact ayah in
    ground (arith, exact, begun_zero ayah 0 (later_starts juz_starts) refl)
juz_of-is_in_juz ayah (suc i) =
    let (exact, low, high) = juz_of_exact ayah in
    ground (arith, exact, begun-suc ayah 0 i (later_starts juz_starts) refl)

-- How many of the ayas are in the juz of this index.
abbrev pub in_juz : List ℕ → ℕ → ℕ
in_juz ayahs i = length (keep (is_in_juz i) ayahs)

understood_loop_counts :
    (c : Counts) (ayahs : List ℕ)
    → length c.1 ≡ 30
    → (c' : Counts) × (understood_loop c ayahs ≡ some c')
      × (c'.0 ≡ c.0 + length ayahs)
      × ((i : ℕ) → get_or c'.1 i 0 ≡ get_or c.1 i 0 + in_juz ayahs i)
unfolding understood_loop
understood_loop_counts c [] h = (c, refl, omega arith, λ i. omega arith)
understood_loop_counts c (ayah ∷ ayahs) h =
    let (exact, low, high) = juz_of_exact ayah in
    let (juz, bumped, long, at) = bump_at (juz_of ayah - 1) c.1 (omega (arith, low, high, h)) in
    let (c', looped, total, each) = understood_loop_counts (c.0 + 1, juz) ayahs (long ∙ h) in
    (
      c',
      rw (bumped, understood_loop) looped,
      omega (arith, total),
      λ i. ground (arith, each i, at i, juz_of-is_in_juz ayah i),
    )

zero_at : (starts : List ℕ) (i : ℕ) → get_or (zeroes starts) i 0 ≡ 0
zero_at [] i = refl
zero_at (s ∷ starts) zero = refl
zero_at (s ∷ starts) (suc i) = zero_at starts i

-- The answer where no statement fails.
progress_answers :
    (fails : ℕ → Option DbError) (user : String) (t : Tables) (roots : List String) (c : Counts)
    → understood_loop no_counts (understood_by user t.understood) ≡ some c
    → ((e : DbError) × (n : ℕ) × (fails n ≡ some e)
        × (progress fails user t roots ≡ fail (unanswered e)))
      ⊎ (progress fails user t roots ≡ done (shown user t roots c))
unfolding progress
progress_answers fails user t roots c h = elim (Option-cases (fails 0)) [
  | inr (e, f) ↦ inl (e, 0, f, rw f refl)
  | inl f0 ↦ elim (Option-cases (fails 1)) [
    | inr (e, f) ↦ inl (e, 1, f, rw (f0, h, f) refl)
    | inl f1 ↦ elim (Option-cases (fails 2)) [
      | inr (e, f) ↦ inl (e, 2, f, rw (f0, h, f1, f) refl)
      | inl f2 ↦ elim (Option-cases (fails 3)) [
        | inr (e, f) ↦ inl (e, 3, f, rw (f0, h, f1, f2, f) refl)
        | inl f3 ↦ elim (Option-cases (fails 4)) [
          | inr (e, f) ↦ inl (e, 4, f, rw (f0, h, f1, f2, f3, f) refl)
          | inl f4 ↦ inr (rw (f0, h, f1, f2, f3, f4) refl)
        ]
      ]
    ]
  ]
]

-- The progress of a reader fails only with an error of the database. Otherwise it counts each aya that
-- they have understood once, and in the juz whose start is no later than the aya, before the start of
-- the next.
pub progress_exact :
    (fails : ℕ → Option DbError) (user : String) (t : Tables) (roots : List String)
    → ((e : DbError) × (n : ℕ) × (fails n ≡ some e)
        × (progress fails user t roots ≡ fail (unanswered e)))
      ⊎ ((p : Progress) × (progress fails user t roots ≡ done p)
          × (p.understood ≡ length (understood_by user t.understood))
          × ((i : ℕ) → get_or p.juz_understood i 0 ≡ in_juz (understood_by user t.understood) i))
progress_exact fails user t roots =
    let ayahs = understood_by user t.understood in
    let (c, looped, total, each) = understood_loop_counts no_counts ayahs refl in
    elim (progress_answers fails user t roots c looped) [
      | inl failed ↦ inl failed
      | inr made ↦ inr (
        shown user t roots c,
        made,
        omega (arith, total),
        λ i. omega (arith, each i, zero_at juz_starts i),
      )
    ]
