-- ===== src/Root/Strip/Ranking.antt =====
-- The order of the stems: the least peeled first, each once.
use wird.Prelude.{
  ◌≡◌, inl, inr, Bool, true, List, [], ◌∷◌, arith, length, contains, IsNodup, nat_eq, list_eq,
  pair_eq, All, All-imp, leb, Bool-cases,
}
use wird.Prelude.Sort.{sort, IsSorted, IsTotalOrder, sort-IsSorted, All-sort}
use wird.Text.{Word}
use wird.Root.Strip.{Span, walk, span_leb, distinct_stems, ranked, strip_affixes}
use wird.Root.Strip.Slice.{length-slice}
use wird.Root.Strip.Peels.{IsWithin, part}
use wird.Root.Strip.Stems.{listed, stems, distinct_stems-IsNodup}
use wird.Root.Strip.Exact.{IsFound, walk-IsFound}

span_leb-IsTotalOrder : IsTotalOrder span_leb
unfolding span_leb
span_leb-IsTotalOrder = record { total = λ a b. ground arith; trans = λ a b c h k. ground arith }

-- `w` has no more letters than `v`.
abbrev pub longer : Word → Word → Bool
longer v w = leb (length w) (length v)

shorter-span :
    (rs : Word) (s t : Span)
    → IsWithin (length rs) s
    → IsWithin (length rs) t
    → span_leb s t ≡ true
    → longer (part rs s) (part rs t) ≡ true
unfolding span_leb
shorter-span rs s t h k e =
    ground (arith, length-slice rs s.i s.j h.0 h.1, length-slice rs t.i t.j k.0 k.1)

module _ (rs : Word) where
  below-distinct_stems :
      (s : Span) (taken : List Word) (spans : List Span)
      → IsWithin (length rs) s
      → All (IsWithin (length rs)) spans
      → All (λ t. span_leb s t ≡ true) spans
      → All (λ w. longer (part rs s) w ≡ true) (distinct_stems rs taken spans)
  unfolding distinct_stems
  below-distinct_stems s taken [] h k e = tt
  below-distinct_stems s taken (t ∷ spans) h k e = elim (Bool-cases (contains taken (part rs t))) [
    | inl old ↦ rw old (below-distinct_stems s taken spans h k.1 e.1)
    | inr new ↦
        rw new (
          shorter-span rs s t h k.0 e.0,
          below-distinct_stems s (part rs t ∷ taken) spans h k.1 e.1,
        )
  ]

  distinct_stems-IsSorted :
      (taken : List Word) (spans : List Span)
      → All (IsWithin (length rs)) spans
      → IsSorted span_leb spans
      → IsSorted longer (distinct_stems rs taken spans)
  unfolding distinct_stems
  distinct_stems-IsSorted taken [] k e = tt
  distinct_stems-IsSorted taken (t ∷ spans) k e = elim (Bool-cases (contains taken (part rs t))) [
    | inl old ↦ rw old (distinct_stems-IsSorted taken spans k.1 e.1)
    | inr new ↦ rw new (
      below-distinct_stems t (part rs t ∷ taken) spans k.0 k.1 e.0,
      distinct_stems-IsSorted (part rs t ∷ taken) spans k.1 e.1,
    )
  ]

ranked-IsRanked :
    (word : Word) (found : List Span)
    → All (IsWithin (length word)) found
    → IsSorted longer (listed (ranked word found)) × IsNodup (listed (ranked word found))
unfolding ranked
ranked-IsRanked word [] h = (tt, tt)
ranked-IsRanked word (s ∷ rest) h = (
  distinct_stems-IsSorted word [] (sort span_leb (s ∷ rest))
      (All-sort span_leb (IsWithin (length word)) (s ∷ rest) h)
      (sort-IsSorted span_leb span_leb-IsTotalOrder (s ∷ rest)),
  distinct_stems-IsNodup word [] (sort span_leb (s ∷ rest)),
)

-- The stems come out the longest first, and none twice.
pub stems_ranked : (word : Word) → IsSorted longer (stems word) × IsNodup (stems word)
unfolding strip_affixes
stems_ranked word = ranked-IsRanked word (walk word).found (
    All-imp (IsFound word) (IsWithin (length word)) (λ s h. h.1) (walk word).found
      (walk-IsFound word))
