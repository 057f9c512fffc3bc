-- ===== src/Root/Strip/Exact.antt =====
-- The stems that come out are exactly the words that peeling reaches.
use mathlib.Core.List.{Memᴰ}
use mathlib.Core.List.Memᴰ
use wird.Prelude.{
  ℕ, zero, suc, ◌≡◌, refl, sym, subst, ◌⊎◌, inl, inr, List, [], ◌∷◌, map, Option, none, some, arith,
  length, contains, Has, nat_eq, list_eq, pair_eq, pair_beq, eqb_refl, pair_beq_iff, All,
  List-cases, ||-eq-true,
}
use wird.Text.{Word}
use wird.Root.Strip.{
  Span, Walk, Prefix, bounds, slice, prefix_peel, suffix_peel, offer_all, expand, loop, whole,
  start, enough, walk, strip_prefixes, strip_suffixes,
}
use wird.Root.Strip.Slice.{slice-whole}
use wird.Root.Strip.Spec.{Peel, Peeled, front, back, once, more}
use wird.Root.Strip.Ends.{walk_ends}
use wird.Root.Strip.Peels.{
  IsWithin, part, prefix_peel_sound, suffix_peel_sound, prefix_peel_complete, suffix_peel_complete,
}
use wird.Root.Strip.Offers.{
  waiting, Grows, Grows-trans, offer_all-Grows, offer_all-visited, OfferAll, WalkAll,
  offer_all-WalkAll, IsRecorded, offer_all-IsRecorded,
}

module _ (rs : Word) where
  abbrev pub IsFound : Span → Type 0
  IsFound s = Peeled rs (part rs s) × IsWithin (length rs) s

  abbrev IsReached : Span → Type 0
  IsReached s = ((part rs s ≡ rs) ⊎ Peeled rs (part rs s)) × IsWithin (length rs) s

  found-IsReached : (s : Span) → IsFound s → IsReached s
  found-IsReached s h = (inr h.0, h.1)

  -- A peel of a span that was reached is found.
  Peel-IsFound :
      (s t : Span) → IsReached s → Peel (part rs s) (part rs t) × IsWithin (length rs) t → IsFound t
  Peel-IsFound s t h k = elim h.0 [
    | inl e ↦ (once (subst (λ v. Peel v (part rs t)) e k.0), k.1)
    | inr p ↦ (more p k.0, k.1)
  ]

  prefix-offers :
      (s : Span)
      → IsReached s
      → (ps : List Prefix) → ((p : Prefix) → Memᴰ p ps → Memᴰ p strip_prefixes)
      → All (OfferAll IsFound) (map (prefix_peel rs s) ps)
  prefix-offers s h [] table = tt
  prefix-offers s h (p ∷ ps) table = (
    offered (prefix_peel rs s p)
        (λ t e. Peel-IsFound s t h (prefix_peel_sound rs s h.1 p t (table p (Memᴰ.head refl)) e)),
    prefix-offers s h ps (λ q m. table q (Memᴰ.tail m)),
  )
    where
      offered : (o : Option Span) → ((t : Span) → o ≡ some t → IsFound t) → OfferAll IsFound o
      offered none f = tt
      offered (some t) f = f t refl

  suffix-offers :
      (s : Span)
      → IsReached s
      → (qs : List Word) → ((q : Word) → Memᴰ q qs → Memᴰ q strip_suffixes)
      → All (OfferAll IsFound) (map (suffix_peel rs s) qs)
  suffix-offers s h [] table = tt
  suffix-offers s h (q ∷ qs) table = (
    offered (suffix_peel rs s q)
        (λ t e. Peel-IsFound s t h (suffix_peel_sound rs s h.1 q t (table q (Memᴰ.head refl)) e)),
    suffix-offers s h qs (λ p m. table p (Memᴰ.tail m)),
  )
    where
      offered : (o : Option Span) → ((t : Span) → o ≡ some t → IsFound t) → OfferAll IsFound o
      offered none f = tt
      offered (some t) f = f t refl

  -- All peels of the span at these bounds have been visited.
  abbrev IsClosedAt : List (ℕ × ℕ) → ℕ × ℕ → Type 0
  IsClosedAt seen p =
      (stem : Word)
      → Peel (slice rs p.0 p.1) stem
      → (q : ℕ × ℕ) × Has seen q × (slice rs q.0 q.1 ≡ stem)

  record Inv (w : Walk) : Type 0 where
    reached : WalkAll IsReached IsFound w
    recorded : IsRecorded (bounds (whole rs)) w
    closed : (p : ℕ × ℕ) → Has w.visited p → Has (waiting w) p ⊎ IsClosedAt w.visited p

  expand-closed :
      (s : Span) (w : Walk) → IsWithin (length rs) s → IsClosedAt (expand rs s w).visited (bounds s)
  unfolding expand
  expand-closed s w h stem (front p m sit e long) =
      let fronts = map (prefix_peel rs s) strip_prefixes in
      let backs = map (suffix_peel rs s) strip_suffixes in
      let (t, made, cut) = prefix_peel_complete rs s h p stem sit e long in
      let offered : Memᴰ (some t) fronts =
        subst (λ o. Memᴰ o fronts) made (Memᴰ.map (prefix_peel rs s) m) in
      (
        bounds t,
        (offer_all-Grows backs (offer_all fronts w)).visited (bounds t)
            (offer_all-visited fronts w t offered),
        cut,
      )
  expand-closed s w h stem (back q m e long) =
      let fronts = map (prefix_peel rs s) strip_prefixes in
      let backs = map (suffix_peel rs s) strip_suffixes in
      let (t, made, cut) = suffix_peel_complete rs s h q stem e long in
      let offered : Memᴰ (some t) backs =
        subst (λ o. Memᴰ o backs) made (Memᴰ.map (suffix_peel rs s) m) in
      (bounds t, offer_all-visited backs (offer_all fronts w) t offered, cut)

  expand-Grows : (s : Span) (w : Walk) → Grows w (expand rs s w)
  unfolding expand
  expand-Grows s w = Grows-trans (offer_all-Grows _ w) (offer_all-Grows _ _)

  expand-WalkAll :
      (s : Span) (w : Walk)
      → IsReached s
      → WalkAll IsReached IsFound w
      → WalkAll IsReached IsFound (expand rs s w)
  unfolding expand
  expand-WalkAll s w h k =
      let all = offer_all-WalkAll IsReached IsFound found-IsReached in
      all _ _ (suffix-offers s h strip_suffixes (λ q m. m))
        (all _ w (prefix-offers s h strip_prefixes (λ p m. m)) k)

  expand-IsRecorded :
      (f : ℕ × ℕ) (s : Span) (w : Walk) → IsRecorded f w → IsRecorded f (expand rs s w)
  unfolding expand
  expand-IsRecorded f s w h = offer_all-IsRecorded f _ _ (offer_all-IsRecorded f _ w h)

  IsClosedAt-grows :
      (seen seen' : List (ℕ × ℕ)) (p : ℕ × ℕ)
      → ((q : ℕ × ℕ) → Has seen q → Has seen' q)
      → IsClosedAt seen p
      → IsClosedAt seen' p
  IsClosedAt-grows seen seen' p keep c stem peel =
      let (q, m, cut) = c stem peel in (q, keep q m, cut)

  Inv-expand :
      (s : Span) (rest : List Span) (w : Walk)
      → w.queue ≡ s ∷ rest
      → Inv w
      → Inv (expand rs s (record w { queue = rest }))
  Inv-expand s rest w e h =
      let reached : WalkAll IsReached IsFound (record w { queue = s ∷ rest }) = rw e at h.reached in
      let w' : Walk = record w { queue = rest } in
      let grows = expand-Grows s w' in
      record {
        reached = expand-WalkAll s w' reached.0.0 (reached.0.1, reached.1);
        recorded = expand-IsRecorded (bounds (whole rs)) s w' h.recorded;
        closed = λ p m. elim (grows.fresh p m) [
          | inr waits ↦ inl waits
          | inl old ↦ elim (h.closed p old) [
            | inr c ↦ inr (IsClosedAt-grows w.visited _ p grows.visited c)
            | inl waits ↦
                let listed : Has (bounds s ∷ map bounds rest) p =
                  subst (λ l. Has (map bounds l) p) e waits in
                elim (||-eq-true (pair_beq p (bounds s)) (contains (map bounds rest) p) listed) [
                  | inl here ↦ inr (
                      subst (IsClosedAt (expand rs s w').visited)
                        (sym ((pair_beq_iff p (bounds s)).0 here))
                        (expand-closed s w' reached.0.0.1))
                  | inr later ↦ inl (grows.queue p later)
                ]
          ]
        ];
      }

  loop-Inv : (fuel : ℕ) (w : Walk) → Inv w → Inv (loop rs fuel w)
  unfolding loop
  loop-Inv zero w h = h
  loop-Inv (suc fuel) w h = elim (List-cases w.queue) [
    | inl e ↦ rw (e, loop) h
    | inr (s, rest, e) ↦ rw (e, loop) (loop-Inv fuel _ (Inv-expand s rest w e h))
  ]

  Inv-start : Inv (start rs)
  Inv-start = record {
    reached = (((inl (slice-whole rs), (omega arith, omega arith)), tt), tt);
    recorded = refl;
    closed = λ p m. inl m;
  }

  walk-Inv : Inv (walk rs)
  unfolding walk
  walk-Inv = loop-Inv (enough rs) (start rs) Inv-start

  -- Nothing waits at the end, so every visited span is closed.
  walk-IsClosedAt : (p : ℕ × ℕ) → Has (walk rs).visited p → IsClosedAt (walk rs).visited p
  walk-IsClosedAt p m = elim (walk-Inv.closed p m) [
    | inr c ↦ c
    | inl waits ↦ cc (subst (λ l. Has (map bounds l) p) (walk_ends rs) waits)
  ]

  walk-whole : Has (walk rs).visited (bounds (whole rs))
  walk-whole = rw walk-Inv.recorded (ground (arith, eqb_refl (bounds (whole rs))))

  pub reached_visited :
      (stem : Word)
      → Peeled rs stem
      → (q : ℕ × ℕ) × Has (walk rs).visited q × (slice rs q.0 q.1 ≡ stem)
  reached_visited stem (once peel) =
      walk-IsClosedAt (bounds (whole rs)) walk-whole stem
        (subst (λ v. Peel v stem) (sym (slice-whole rs)) peel)
  reached_visited stem (more p peel) =
      let (q, m, cut) = reached_visited _ p in
      walk-IsClosedAt q m stem (subst (λ v. Peel v stem) (sym cut) peel)

  pub walk-IsFound : All IsFound (walk rs).found
  walk-IsFound = walk-Inv.reached.1

  pub walk-IsRecorded : IsRecorded (bounds (whole rs)) (walk rs)
  walk-IsRecorded = walk-Inv.recorded
