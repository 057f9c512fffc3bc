-- ===== src/Root/Strip.antt =====
-- jidhr/pkg/root/strip.go: peeling clitics and inflection off a normalised word.
pub mod Spec
pub mod Slice
pub mod Ends
pub mod Peels
pub mod Offers
pub mod Exact
pub mod Stems
pub mod Ranking
use wird.Prelude.{
  ℕ, zero, suc, ◌+◌, ◌-◌, ◌*◌, Bool, true, false, not, ◌&&◌, ◌||◌, ◌==◌, List, [], ◌∷◌, ◌++◌, map,
  Option, none, some, ltb, leb, nat_beq, nat_eq, list_eq, pair_eq, contains, length, take, drop,
  get_or, any, if◌then◌else◌,
}
use wird.Prelude.Sort.{sort}
use wird.Text.{Word, is_empty}
use wird.Text.Letters.{alef, beh, teh, seen, feh, kaf, lam, meem, noon, heh, waw, yeh}

abbrev pub min_stem : ℕ
min_stem = 3

-- A clitic, and the letters that it may sit on: all of them, if `before` is empty.
pub record Prefix : Type 0 where
  pub text : Word
  pub before : Word

abbrev pub anywhere : Word → Prefix
anywhere text = record { text = text; before = [] }

abbrev pub strip_prefixes : List Prefix
strip_prefixes =
    anywhere (alef ∷ lam ∷ [])
    ∷ anywhere (waw ∷ [])
    ∷ anywhere (feh ∷ [])
    ∷ anywhere (beh ∷ [])
    ∷ anywhere (kaf ∷ [])
    ∷ anywhere (lam ∷ [])
    ∷ record { text = seen ∷ []; before = yeh ∷ teh ∷ noon ∷ alef ∷ [] }
    ∷ anywhere (yeh ∷ [])
    ∷ anywhere (teh ∷ [])
    ∷ anywhere (noon ∷ [])
    ∷ anywhere (alef ∷ [])
    ∷ []

abbrev pub strip_suffixes : List Word
strip_suffixes =
    (heh ∷ meem ∷ alef ∷ [])
    ∷ (kaf ∷ meem ∷ alef ∷ [])
    ∷ (teh ∷ meem ∷ alef ∷ [])
    ∷ (heh ∷ alef ∷ [])
    ∷ (heh ∷ meem ∷ [])
    ∷ (heh ∷ noon ∷ [])
    ∷ (kaf ∷ meem ∷ [])
    ∷ (kaf ∷ noon ∷ [])
    ∷ (noon ∷ alef ∷ [])
    ∷ (noon ∷ yeh ∷ [])
    ∷ (teh ∷ meem ∷ [])
    ∷ (teh ∷ noon ∷ [])
    ∷ (waw ∷ alef ∷ [])
    ∷ (waw ∷ noon ∷ [])
    ∷ (yeh ∷ noon ∷ [])
    ∷ (alef ∷ noon ∷ [])
    ∷ (alef ∷ teh ∷ [])
    ∷ (heh ∷ [])
    ∷ (kaf ∷ [])
    ∷ (yeh ∷ [])
    ∷ (teh ∷ [])
    ∷ (alef ∷ [])
    ∷ []

-- rs[i:j]
unfoldable pub slice : Word → ℕ → ℕ → Word
slice rs i j = take (j - i) (drop i rs)

-- The body of the loop: `continue` reads false.
unpeelable : Word → Word → Bool
unfolding slice
unpeelable rs q =
    let n = length q in
    if ltb n 2 || ltb (length rs) n || leb min_stem (length rs - n)
    then false
    else slice rs (length rs - n) (length rs) == q

unfoldable pub ends_in_unpeelable_suffix : Word → Bool
unfolding unpeelable
ends_in_unpeelable_suffix word = any (unpeelable word) strip_suffixes

pub record Span : Type 0 where
  pub i : ℕ
  pub j : ℕ
  pub steps : ℕ

abbrev pub bounds : Span → ℕ × ℕ
bounds s = (s.i, s.j)

-- The variables of the walk. `seen` lists the keys of the map in the order they were set.
pub record Walk : Type 0 where
  pub visited : List (ℕ × ℕ)
  pub queue : List Span
  pub found : List Span

unfoldable pub push : Span → Walk → Walk
push s w = if contains w.visited (bounds s) then w else record {
  visited = w.visited ++ bounds s ∷ [];
  queue = w.queue ++ s ∷ [];
  found = w.found ++ s ∷ [];
}

-- One round of the loop on prefixes: the span that it pushes, or `none` for `continue`.
unfoldable pub prefix_peel : Word → Span → Prefix → Option Span
prefix_peel rs s p =
    let n = length p.text in
    if ltb (s.j - s.i - n) min_stem || not (slice rs s.i (s.i + n) == p.text)
    then none
    else if not (is_empty p.before) && not (contains p.before (get_or rs (s.i + n) 0))
    then none
    else some (record { i = s.i + n; j = s.j; steps = s.steps + 1 })

-- One round of the loop on suffixes.
unfoldable pub suffix_peel : Word → Span → Word → Option Span
suffix_peel rs s q =
    let n = length q in
    if ltb (s.j - s.i - n) min_stem || not (slice rs (s.j - n) s.j == q)
    then none
    else some (record { i = s.i; j = s.j - n; steps = s.steps + 1 })

unfoldable pub offer : Option Span → Walk → Walk
offer none w = w
offer (some s) w = push s w

unfoldable pub offer_all : List (Option Span) → Walk → Walk
offer_all [] w = w
offer_all (o ∷ os) w = offer_all os (offer o w)

unfoldable pub expand : Word → Span → Walk → Walk
expand rs s w =
    offer_all (map (suffix_peel rs s) strip_suffixes)
      (offer_all (map (prefix_peel rs s) strip_prefixes) w)

unfoldable pub loop : Word → ℕ → Walk → Walk
loop rs zero w = w
loop rs (suc fuel) w = elim w.queue [
  | [] ↦ w
  | s ∷ rest ↦ loop rs fuel (expand rs s (record w { queue = rest }))
]

abbrev pub whole : Word → Span
whole rs = record { i = 0; j = length rs; steps = 0 }

abbrev pub start : Word → Walk
start rs = record { visited = bounds (whole rs) ∷ []; queue = whole rs ∷ []; found = [] }

-- There are at most (n + 1)² spans, so that many rounds and one for the whole word suffice.
abbrev pub enough : Word → ℕ
enough rs = (length rs + 1) * (length rs + 1) + 1

unfoldable pub walk : Word → Walk
unfolding loop expand offer_all offer push prefix_peel suffix_peel slice
walk rs = loop rs (enough rs) (start rs)

-- The comparison of the sort: fewest letters peeled first, then the end before the front.
unfoldable pub span_leb : Span → Span → Bool
span_leb a b =
    if not (nat_beq (b.j - b.i) (a.j - a.i))
    then ltb (b.j - b.i) (a.j - a.i)
    else if not (nat_beq a.i b.i)
    then ltb a.i b.i
    else leb a.steps b.steps

-- The last loop; `taken` holds the stems that are out already.
unfoldable pub distinct_stems : Word → List Word → List Span → List Word
distinct_stems rs taken [] = []
distinct_stems rs taken (s ∷ spans) =
    let stem = slice rs s.i s.j in
    let skipped = distinct_stems rs taken spans in
    let kept = stem ∷ distinct_stems rs (stem ∷ taken) spans in
    if contains taken stem then skipped else kept

-- What follows the walk; `none` is ErrNotFound.
unfoldable pub ranked : Word → List Span → Option (List Word)
ranked rs [] = none
ranked rs (s ∷ rest) = some (distinct_stems rs [] (sort span_leb (s ∷ rest)))

-- The candidate stems of a normalised word, most likely first.
unfoldable pub strip_affixes : Word → Option (List Word)
strip_affixes rs = ranked rs (walk rs).found
