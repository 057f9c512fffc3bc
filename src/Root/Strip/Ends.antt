-- ===== src/Root/Strip/Ends.antt =====
-- The walk ends by its own test: within `enough` rounds its queue is empty.
use wird.Prelude.{
  ℕ, zero, suc, ◌+◌, ◌*◌, ◌≤◌, ◌<◌, ◌≡◌, refl, ap, false, not, List, [], ◌∷◌, ◌++◌, map, Option,
  none, some, inl, inr, arith, length, length-append, keep, contains, Has, pair_eq, pair_beq,
  pair_beq_iff, nat_eq, All-append, length-keep-le, contains-append, Bool-cases, List-cases,
  nat_beq, All,
}
use wird.Text.{Word}
use wird.Root.Strip.{
  Span, Walk, Prefix, bounds, push, prefix_peel, suffix_peel, offer, offer_all, expand, loop, whole,
  start, enough, walk, strip_prefixes, strip_suffixes,
}

-- All pairs of numbers up to `n`.
row : ℕ → ℕ → List (ℕ × ℕ)
row i zero = (i, zero) ∷ []
row i (suc j) = (i, suc j) ∷ row i j

square : ℕ → ℕ → List (ℕ × ℕ)
square zero n = row zero n
square (suc i) n = row (suc i) n ++ square i n

length-row : (i j : ℕ) → length (row i j) ≡ j + 1
unfolding row
length-row i zero = refl
length-row i (suc j) = omega (arith, length-row i j)

length-square : (i n : ℕ) → length (square i n) ≡ (i + 1) * (n + 1)
unfolding square
length-square zero n = omega (arith, length-row zero n)
length-square (suc i) n =
    omega
      (arith, length-append (row (suc i) n) (square i n), length-row (suc i) n, length-square i n)

Has-row : (i j n : ℕ) → j ≤ n → Has (row i n) (i, j)
unfolding row
Has-row i j zero h = ground arith
Has-row i j (suc n) h = ground (arith, Has-row i j n)

Has-square : (i j m n : ℕ) → i ≤ m → j ≤ n → Has (square m n) (i, j)
unfolding square
Has-square i j zero n h k = ground (arith, Has-row zero j n k)
Has-square i j (suc m) n h k = elim (Bool-cases (nat_beq i (suc m))) [
  | inl e ↦
      ground (arith, contains-append (row (suc m) n) (square m n) (i, j), Has-row (suc m) j n k)
  | inr e ↦ ground (
    arith,
    contains-append (row (suc m) n) (square m n) (i, j),
    Has-square i j m n (ground arith) k,
  )
]

-- How many of the pairs in `us` the walk has not visited.
abbrev unvisited : List (ℕ × ℕ) → List (ℕ × ℕ) → ℕ
unvisited us seen = length (keep (λ p. not (contains seen p)) us)

unvisited-snoc_le :
    (us seen : List (ℕ × ℕ)) (p : ℕ × ℕ) → unvisited us (seen ++ p ∷ []) ≤ unvisited us seen
unvisited-snoc_le [] seen p = omega arith
unvisited-snoc_le (u ∷ us) seen p =
    ground (arith, contains-append seen (p ∷ []) u, unvisited-snoc_le us seen p)

unvisited-snoc_lt :
    (us seen : List (ℕ × ℕ)) (p : ℕ × ℕ)
    → contains seen p ≡ false
    → Has us p
    → unvisited us (seen ++ p ∷ []) < unvisited us seen
unvisited-snoc_lt [] seen p new m = cc
unvisited-snoc_lt (u ∷ us) seen p new m = elim (Bool-cases (pair_beq p u)) [
  | inl here ↦
      let same : p ≡ u = (pair_beq_iff p u).0 here in
      ground (
        arith,
        contains-append seen (p ∷ []) u,
        unvisited-snoc_le us seen p,
        same,
        pair_beq_iff u p,
      )
  | inr later ↦ ground (arith, contains-append seen (p ∷ []) u, unvisited-snoc_lt us seen p)
]

module _ (n : ℕ) where
  abbrev IsWithin : Span → Type 0
  IsWithin s = (s.i ≤ s.j) × (s.j ≤ n)

  abbrev OfferIsWithin : Option Span → Type 0
  OfferIsWithin none = Unit {0}
  OfferIsWithin (some s) = IsWithin s

  -- Rounds that the walk can still make: spans that wait, and spans that may yet be pushed.
  abbrev work : Walk → ℕ
  work w = unvisited (square n n) w.visited + length w.queue

  record Falls (v w : Walk) : Type 0 where
    less : work w ≤ work v
    within : All IsWithin w.queue

  push-Falls : (s : Span) (w : Walk) → IsWithin s → All IsWithin w.queue → Falls w (push s w)
  unfolding push
  push-Falls s w h k = elim (Bool-cases (contains w.visited (bounds s))) [
    | inl e ↦ record { less = rw e (omega arith); within = rw e k }
    | inr e ↦ record {
      less = rw e (
          omega (
            arith,
            unvisited-snoc_lt (square n n) w.visited (bounds s) e
                (Has-square s.i s.j n n (omega arith) h.1),
            length-append w.queue (s ∷ []),
          ));
      within = rw e (All-append IsWithin w.queue (s ∷ []) k (h, tt));
    }
  ]

  offer_all-Falls :
      (os : List (Option Span)) (w : Walk)
      → All OfferIsWithin os
      → All IsWithin w.queue
      → Falls w (offer_all os w)
  unfolding offer_all offer
  offer_all-Falls [] w h k = record { less = omega arith; within = k }
  offer_all-Falls (none ∷ os) w h k = offer_all-Falls os w h.1 k
  offer_all-Falls (some s ∷ os) w h k =
      let first = push-Falls s w h.0 k in
      let rest = offer_all-Falls os (push s w) h.1 first.within in
      record { less = omega arith; within = rest.within }

module _ (rs : Word) (s : Span) (h : IsWithin (length rs) s) where
  prefix-IsWithin : (ps : List Prefix) → All (OfferIsWithin (length rs)) (map (prefix_peel rs s) ps)
  unfolding prefix_peel
  prefix-IsWithin [] = tt
  prefix-IsWithin (p ∷ ps) = (ground arith, prefix-IsWithin ps)

  suffix-IsWithin : (qs : List Word) → All (OfferIsWithin (length rs)) (map (suffix_peel rs s) qs)
  unfolding suffix_peel
  suffix-IsWithin [] = tt
  suffix-IsWithin (q ∷ qs) = (ground arith, suffix-IsWithin qs)

  expand-Falls :
      (w : Walk) → All (IsWithin (length rs)) w.queue → Falls (length rs) w (expand rs s w)
  unfolding expand
  expand-Falls w k =
      let fronts = map (prefix_peel rs s) strip_prefixes in
      let backs = map (suffix_peel rs s) strip_suffixes in
      let first = offer_all-Falls (length rs) fronts w (prefix-IsWithin strip_prefixes) k in
      let rest =
        offer_all-Falls (length rs) backs (offer_all fronts w) (suffix-IsWithin strip_suffixes)
          first.within in
      record { less = omega arith; within = rest.within }

loop_ends :
    (rs : Word) (fuel : ℕ) (w : Walk)
    → work (length rs) w ≤ fuel
    → All (IsWithin (length rs)) w.queue
    → (loop rs fuel w).queue ≡ []
unfolding loop
loop_ends rs zero w h k = elim (List-cases w.queue) [
  | inl e ↦ e
  | inr (s, rest, e) ↦ absurd (omega (arith, ap length e))
]
loop_ends rs (suc fuel) w h k = elim (List-cases w.queue) [
  | inl e ↦ rw (e, loop) e
  | inr (s, rest, e) ↦
      let within : All (IsWithin (length rs)) (s ∷ rest) = rw e at k in
      let falls = expand-Falls rs s within.0 (record w { queue = rest }) within.1 in
      rw (e, loop)
        (loop_ends rs fuel (expand rs s (record w { queue = rest })) (omega (arith, ap length e))
          falls.within)
]

length-unvisited-le : (us seen : List (ℕ × ℕ)) → unvisited us seen ≤ length us
length-unvisited-le us seen = length-keep-le (λ p. not (contains seen p)) us

-- However long the word, the walk stops because nothing is left to peel.
pub walk_ends : (rs : Word) → (walk rs).queue ≡ []
unfolding walk
walk_ends rs =
    let n = length rs in
    loop_ends rs (enough rs) (start rs)
      (omega (arith, length-unvisited-le (square n n) (bounds (whole rs) ∷ []), length-square n n))
      ((omega arith, omega arith), tt)
