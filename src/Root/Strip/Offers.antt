-- ===== src/Root/Strip/Offers.antt =====
-- What offering spans to the walk does to its three collections.
use mathlib.Core.List.{Memᴰ, map-append}
use mathlib.Core.List.Memᴰ
use wird.Prelude.{
  ℕ, ◌≡◌, ap, ◌⊎◌, inl, inr, List, [], ◌∷◌, ◌++◌, map, Option, none, some, arith, contains, Has,
  pair_eq, eqb_refl, nat_eq, contains-append, Bool-cases, All, All-append,
}
use wird.Root.Strip.{Span, Walk, bounds, push, offer, offer_all}

-- The spans that wait, by their bounds.
abbrev pub waiting : Walk → List (ℕ × ℕ)
waiting w = map bounds w.queue

-- From `v` to `w` spans were only added, each to all of the collections.
pub record Grows (v w : Walk) : Type 0 where
  pub visited : (p : ℕ × ℕ) → Has v.visited p → Has w.visited p
  pub queue : (p : ℕ × ℕ) → Has (waiting v) p → Has (waiting w) p
  pub fresh : (p : ℕ × ℕ) → Has w.visited p → Has v.visited p ⊎ Has (waiting w) p

Grows-refl : (w : Walk) → Grows w w
Grows-refl w = record { visited = λ p h. h; queue = λ p h. h; fresh = λ p h. inl h }

pub Grows-trans : {u v w : Walk} → Grows u v → Grows v w → Grows u w
Grows-trans g h = record {
  visited = λ p m. h.visited p (g.visited p m);
  queue = λ p m. h.queue p (g.queue p m);
  fresh = λ p m. elim (h.fresh p m) [
    | inl old ↦ elim (g.fresh p old) [ inl older ↦ inl older | inr q ↦ inr (h.queue p q) ]
    | inr q ↦ inr q
  ];
}

Has-append_left : (xs ys : List (ℕ × ℕ)) (p : ℕ × ℕ) → Has xs p → Has (xs ++ ys) p
Has-append_left xs ys p h = ground (arith, contains-append xs ys p)

push-Grows : (s : Span) (w : Walk) → Grows w (push s w)
unfolding push
push-Grows s w = elim (Bool-cases (contains w.visited (bounds s))) [
  | inl e ↦ rw e (Grows-refl w)
  | inr e ↦ rw e (record {
    visited = λ p h. Has-append_left w.visited (bounds s ∷ []) p h;
    queue = λ p h. rw map-append (Has-append_left (waiting w) (bounds s ∷ []) p h);
    fresh = λ p h. rw map-append (
        ground (
          arith,
          contains-append w.visited (bounds s ∷ []) p,
          contains-append (waiting w) (bounds s ∷ []) p,
        ));
  })
]

pub offer_all-Grows : (os : List (Option Span)) (w : Walk) → Grows w (offer_all os w)
unfolding offer_all offer
offer_all-Grows [] w = Grows-refl w
offer_all-Grows (none ∷ os) w = offer_all-Grows os w
offer_all-Grows (some s ∷ os) w = Grows-trans (push-Grows s w) (offer_all-Grows os (push s w))

push-visited : (s : Span) (w : Walk) → Has (push s w).visited (bounds s)
unfolding push
push-visited s w =
    ground (arith, contains-append w.visited (bounds s ∷ []) (bounds s), eqb_refl (bounds s))

-- Every span that is offered has been visited afterwards.
pub offer_all-visited :
    (os : List (Option Span)) (w : Walk) (s : Span)
    → Memᴰ (some s) os
    → Has (offer_all os w).visited (bounds s)
unfolding offer_all offer
offer_all-visited [] w s m = absurd (Memᴰ.not-nil m)
offer_all-visited (none ∷ os) w s m = elim (Memᴰ.cases_cons m) [
  | inl e ↦ cc
  | inr later ↦ offer_all-visited os w s later
]
offer_all-visited (some t ∷ os) w s m = elim (Memᴰ.cases_cons m) [
  | inl e ↦
      (offer_all-Grows os (push t w)).visited (bounds s)
        (let same : s ≡ t = cc in rw same (push-visited t w))
  | inr later ↦ offer_all-visited os (push t w) s later
]

-- A predicate on the offers, and on what stands in a collection after them.
abbrev pub OfferAll : (Span → Type 0) → Option Span → Type 0
OfferAll P none = Unit {0}
OfferAll P (some s) = P s

abbrev pub WalkAll : (Span → Type 0) → (Span → Type 0) → Walk → Type 0
WalkAll P Q w = All P w.queue × All Q w.found

module _ (P Q : Span → Type 0) (weaken : (s : Span) → Q s → P s) where
  push-WalkAll : (s : Span) (w : Walk) → Q s → WalkAll P Q w → WalkAll P Q (push s w)
  unfolding push
  push-WalkAll s w h k = elim (Bool-cases (contains w.visited (bounds s))) [
    | inl e ↦ rw e k
    | inr e ↦ rw e (
      All-append P w.queue (s ∷ []) k.0 (weaken s h, tt),
      All-append Q w.found (s ∷ []) k.1 (h, tt),
    )
  ]

  pub offer_all-WalkAll :
      (os : List (Option Span)) (w : Walk)
      → All (OfferAll Q) os
      → WalkAll P Q w
      → WalkAll P Q (offer_all os w)
  unfolding offer_all offer
  offer_all-WalkAll [] w h k = k
  offer_all-WalkAll (none ∷ os) w h k = offer_all-WalkAll os w h.1 k
  offer_all-WalkAll (some s ∷ os) w h k =
      offer_all-WalkAll os (push s w) h.1 (push-WalkAll s w h.0 k)

-- What has been visited is the whole word and what was found, in that order.
abbrev pub IsRecorded : ℕ × ℕ → Walk → Type 0
IsRecorded first w = w.visited ≡ first ∷ map bounds w.found

push-IsRecorded : (f : ℕ × ℕ) (s : Span) (w : Walk) → IsRecorded f w → IsRecorded f (push s w)
unfolding push
push-IsRecorded f s w h = elim (Bool-cases (contains w.visited (bounds s))) [
  | inl e ↦ rw e h
  | inr e ↦ rw (e, map-append) (ap (λ v. v ++ bounds s ∷ []) h)
]

pub offer_all-IsRecorded :
    (f : ℕ × ℕ) (os : List (Option Span)) (w : Walk)
    → IsRecorded f w
    → IsRecorded f (offer_all os w)
unfolding offer_all offer
offer_all-IsRecorded f [] w h = h
offer_all-IsRecorded f (none ∷ os) w h = offer_all-IsRecorded f os w h
offer_all-IsRecorded f (some s ∷ os) w h =
    offer_all-IsRecorded f os (push s w) (push-IsRecorded f s w h)
