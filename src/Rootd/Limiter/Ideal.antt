-- ===== src/Rootd/Limiter/Ideal.antt =====
-- What the limiter promises: each caller has a bucket of its own, which is never forgotten. The
-- limiter's map, its cap and its sweeping do not show.
use Prim.Native.String.{String}
use wird.Prelude.{
  ℕ, ◌-◌, ◌≤◌, ◌≡◌, refl, sym, ap, subst, ◌∙◌, Bool, false, not, List, [], ◌∷◌, Option, none, some,
  length, leb, ◌==◌, arith, Bool-cases, Option-cases, ◌⊎◌, inl, inr, if◌then◌else◌,
}
use wird.Prelude.Texts.{string_eq}
use wird.Prelude.Map.{
  Map, get, put, IsUnique, filter_some, get-put, get-retain, retain-IsUnique, put-IsUnique,
}
use wird.Rootd.Limiter.{
  Levels, max_tracked_callers, Bucket, Limiter, new_limiter, filled, fresh, sweep, make_room, spend,
  stored, allow_in, allow, allow_all,
}
use wird.Rootd.Limiter.Exact.{IsLevels}

-- Requests in the order of their times, none before an instant.
abbrev pub IsInOrder : ℕ → List (String × ℕ) → Type 0
IsInOrder last [] = Unit {0}
IsInOrder last ((caller, now) ∷ requests) = (last ≤ now) × IsInOrder now requests

module _ {F : Type 0} (lv : Levels F) (rate burst : F) where
  -- The bucket of a caller: a full one at the first request.
  abbrev pub own_bucket : ℕ → Option (Bucket F) → Bucket F
  own_bucket now none = fresh lv rate burst now
  own_bucket now (some b) = b

  abbrev pub remembered :
      String → Bucket F → (String → Option (Bucket F)) → String → Option (Bucket F)
  remembered caller b memory c = if caller == c then some b else memory c

  -- The answers to requests, where the bucket of each caller is remembered.
  abbrev pub ideal : (String → Option (Bucket F)) → List (String × ℕ) → List Bool
  ideal memory [] = []
  ideal memory ((caller, now) ∷ requests) =
      (spend lv rate burst now (own_bucket now (memory caller))).1
      ∷ ideal
          (remembered caller (spend lv rate burst now (own_bucket now (memory caller))).0 memory)
          requests

  abbrev pub IsSeen : ℕ → Option (Bucket F) → Type 0
  IsSeen now none = Unit {0}
  IsSeen now (some b) = b.seen ≤ now

  pub spend-seen : (now : ℕ) (b : Bucket F) → (spend lv rate burst now b).0.seen ≡ now
  unfolding spend
  spend-seen now b = ground arith

  pub IsSeen-later :
      (last now : ℕ) (o : Option (Bucket F)) → last ≤ now → IsSeen last o → IsSeen now o
  IsSeen-later last now none h k = tt
  IsSeen-later last now (some b) h k = omega arith

  pub IsSeen-remembered :
      (now : ℕ) (caller c : String) (b : Bucket F) (memory : String → Option (Bucket F))
      → ((d : String) → IsSeen now (memory d))
      → IsSeen now (remembered caller (spend lv rate burst now b).0 memory c)
  IsSeen-remembered now caller c b memory seen = elim (Bool-cases (caller == c)) [
    | inl e ↦ rw e (omega (arith, spend-seen now b))
    | inr e ↦ rw e (seen c)
  ]

  module _ (laws : IsLevels lv rate burst) where
    -- A bucket that holds the burst.
    abbrev IsFull : ℕ → Bucket F → Type 0
    IsFull now b = (b.seen ≤ now) × (lv.less (filled lv rate burst now b) burst ≡ false)

    -- A caller that the limiter does not know is one whose bucket is full.
    abbrev IsSame : ℕ → Option (Bucket F) → Option (Bucket F) → Type 0
    IsSame now known memory =
        (known ≡ memory) ⊎ ((known ≡ none) × ((b : Bucket F) × (memory ≡ some b) × IsFull now b))

    record Stands (buckets : Map String (Bucket F)) (memory : String → Option (Bucket F)) (now : ℕ)
        : Type 0 where
      unique : IsUnique buckets
      seen : (c : String) → IsSeen now (memory c)
      same : (c : String) → IsSame now (get buckets c) (memory c)

    IsFull-later : (last now : ℕ) (b : Bucket F) → last ≤ now → IsFull last b → IsFull now b
    IsFull-later last now b h (k, full) = (
      omega arith,
      laws.chain burst (filled lv rate burst last b) (filled lv rate burst now b) full
          (laws.adds b.tokens _ _ (laws.longer (last - b.seen) (now - b.seen) (omega arith))),
    )

    IsSame-later :
        (last now : ℕ) (known memory : Option (Bucket F))
        → last ≤ now
        → IsSame last known memory
        → IsSame now known memory
    IsSame-later last now known memory h (inl e) = inl e
    IsSame-later last now known memory h (inr (e, (b, m, full))) =
        inr (e, (b, m, IsFull-later last now b h full))

    later :
        (buckets : Map String (Bucket F)) (memory : String → Option (Bucket F)) (last now : ℕ)
        → last ≤ now
        → Stands buckets memory last
        → Stands buckets memory now
    later buckets memory last now h s = record {
      unique = s.unique;
      seen = λ c. IsSeen-later last now (memory c) h (s.seen c);
      same = λ c. IsSame-later last now (get buckets c) (memory c) h (s.same c);
    }

    -- A bucket that is swept is full.
    IsSame-swept :
        (now : ℕ) (known memory : Option (Bucket F))
        → IsSeen now memory
        → IsSame now known memory
        → IsSame now
            (filter_some (λ b. not (lv.at_least (filled lv rate burst now b) burst)) known)
            memory
    IsSame-swept now none memory seen (inl e) = inl e
    IsSame-swept now none memory seen (inr m) = inr m
    IsSame-swept now (some b) none seen (inl e) = absurd cc
    IsSame-swept now (some b) (some m) seen (inl e) =
        elim (Bool-cases (lv.less (filled lv rate burst now b) burst)) [
          | inl low ↦ rw (laws.at_least (filled lv rate burst now b) burst, low) (inl e)
          | inr full ↦
              let one : b ≡ m = cc in
              rw (laws.at_least (filled lv rate burst now b) burst, full)
                (inr (
                  refl,
                  (
                    m,
                    refl,
                    subst (λ x. IsFull now x) one (subst (λ x. x.seen ≤ now) (sym one) seen, full),
                  ),
                ))
        ]
    IsSame-swept now (some b) memory seen (inr (e, rest)) = absurd cc

    swept :
        (buckets : Map String (Bucket F)) (memory : String → Option (Bucket F)) (now : ℕ)
        → Stands buckets memory now
        → Stands (sweep lv rate burst now buckets) memory now
    unfolding sweep
    swept buckets memory now s =
        let p = λ (b : Bucket F). not (lv.at_least (filled lv rate burst now b) burst) in
        record {
          unique = retain-IsUnique p buckets s.unique;
          seen = s.seen;
          same = λ c.
              subst (λ o. IsSame now o (memory c)) (sym (get-retain p buckets c s.unique))
                (IsSame-swept now (get buckets c) (memory c) (s.seen c) (s.same c));
        }

    roomy :
        (buckets : Map String (Bucket F)) (memory : String → Option (Bucket F)) (now : ℕ)
        → Stands buckets memory now
        → Stands (make_room lv rate burst now buckets) memory now
    unfolding make_room
    roomy buckets memory now s = elim (Bool-cases (leb max_tracked_callers (length buckets))) [
      | inl e ↦ rw e (swept buckets memory now s)
      | inr e ↦ rw e s
    ]

    replaced :
        (buckets : Map String (Bucket F)) (memory : String → Option (Bucket F)) (now : ℕ)
        (caller : String) (b : Bucket F)
        → Stands buckets memory now
        → Stands
            (put buckets caller (spend lv rate burst now b).0)
            (remembered caller (spend lv rate burst now b).0 memory)
            now
    replaced buckets memory now caller b s = record {
      unique = put-IsUnique buckets caller _ s.unique;
      seen = λ c. IsSeen-remembered now caller c b memory s.seen;
      same = λ c. elim (Bool-cases (caller == c)) [
        | inl e ↦ rw (get-put buckets caller c (spend lv rate burst now b).0, e) (inl refl)
        | inr e ↦ rw (get-put buckets caller c (spend lv rate burst now b).0, e) (s.same c)
      ];
    }

    -- A full bucket and a fresh one are spent alike.
    least-full : (x : F) → lv.less x burst ≡ false → lv.smaller burst x ≡ burst
    least-full x h = laws.smaller burst x ∙ rw h refl

    spend-full :
        (now : ℕ) (b : Bucket F)
        → IsFull now b
        → spend lv rate burst now (fresh lv rate burst now) ≡ spend lv rate burst now b
    unfolding spend
    spend-full now b (seen, full) =
        let none_passed : now - now ≡ 0 = omega arith in
        let still : filled lv rate burst now (fresh lv rate burst now) ≡ burst =
          ap (λ d. lv.plus burst (lv.times (lv.seconds d) rate)) none_passed ∙ laws.at_once in
        let one : lv.smaller burst (filled lv rate burst now (fresh lv rate burst now)) ≡ burst =
          ap (lv.smaller burst) still ∙ least-full burst (laws.same burst) in
        let other : lv.smaller burst (filled lv rate burst now b) ≡ burst =
          least-full (filled lv rate burst now b) full in
        rw (one, other) refl

    spend-same :
        (now : ℕ) (known memory : Option (Bucket F))
        → IsSame now known memory
        → spend lv rate burst now (own_bucket now known)
          ≡ spend lv rate burst now (own_bucket now memory)
    spend-same now known memory (inl e) = ap (λ o. spend lv rate burst now (own_bucket now o)) e
    spend-same now known memory (inr (e, (b, m, full))) = rw (e, m) (spend-full now b full)

    -- The buckets that the caller's own is put back into.
    abbrev room : Map String (Bucket F) → ℕ → Option (Bucket F) → Map String (Bucket F)
    room buckets now none = make_room lv rate burst now buckets
    room buckets now (some b) = buckets

    allow_in-room :
        (buckets : Map String (Bucket F)) (caller : String) (now : ℕ)
        → allow_in lv rate burst buckets caller now
          ≡ stored caller
              (room buckets now (get buckets caller))
              (spend lv rate burst now (own_bucket now (get buckets caller)))
    unfolding allow_in
    allow_in-room buckets caller now = elim (Option-cases (get buckets caller)) [
      | inl e ↦ rw (e, allow_in) refl
      | inr (b, e) ↦ rw (e, allow_in) refl
    ]

    room-Stands :
        (buckets : Map String (Bucket F)) (memory : String → Option (Bucket F)) (now : ℕ)
        (o : Option (Bucket F))
        → Stands buckets memory now
        → Stands (room buckets now o) memory now
    room-Stands buckets memory now none s = roomy buckets memory now s
    room-Stands buckets memory now (some b) s = s

    abbrev limiter : Map String (Bucket F) → Limiter F
    limiter buckets = record { numbers = lv; rate = rate; burst = burst; buckets = buckets }

    answers_step :
        (buckets : Map String (Bucket F)) (caller : String) (now : ℕ) (requests : List (String × ℕ))
        → allow_all (limiter buckets) ((caller, now) ∷ requests)
          ≡ (allow_in lv rate burst buckets caller now).1
            ∷ allow_all (limiter (allow_in lv rate burst buckets caller now).0) requests
    unfolding allow_all allow
    answers_step buckets caller now requests = refl

    ideal_answers :
        (buckets : Map String (Bucket F)) (memory : String → Option (Bucket F)) (last : ℕ)
        (requests : List (String × ℕ))
        → Stands buckets memory last
        → IsInOrder last requests
        → allow_all (limiter buckets) requests ≡ ideal memory requests
    unfolding allow_all
    ideal_answers buckets memory last [] s h = refl
    ideal_answers buckets memory last ((caller, now) ∷ requests) s h =
        let t = later buckets memory last now h.0 s in
        let space = room buckets now (get buckets caller) in
        let spent = spend lv rate burst now (own_bucket now (memory caller)) in
        let made : allow_in lv rate burst buckets caller now ≡ stored caller space spent =
          allow_in-room buckets caller now
          ∙ ap (stored caller space) (spend-same now _ _ (t.same caller)) in
        let kept =
          replaced space memory now caller (own_bucket now (memory caller))
            (room-Stands buckets memory now (get buckets caller) t) in
        answers_step buckets caller now requests
        ∙ ap (λ (x : Map String (Bucket F) × Bool). x.1 ∷ allow_all (limiter x.0) requests) made
        ∙ ap (λ l. spent.1 ∷ l)
            (ideal_answers (put space caller spent.0) (remembered caller spent.0 memory) now
              requests kept h.1)

    -- In any sequence of requests, in the order of their times, the limiter answers as if the bucket
    -- of every caller were remembered for ever, full at the first request. Of the numbers only what
    -- rounding keeps is used: the order of sums, products and times.
    pub allow_all-ideal :
        (start : ℕ) (requests : List (String × ℕ))
        → IsInOrder start requests
        → allow_all (new_limiter lv rate burst) requests ≡ ideal (λ c. none) requests
    unfolding new_limiter get
    allow_all-ideal start requests h =
        ideal_answers [] (λ c. none) start requests
          (record { unique = tt; seen = λ c. tt; same = λ c. inl refl }) h
