-- ===== src/Rootd/Limiter/Bounds.antt =====
-- How many requests of one caller the limiter lets through, and that it does not shut one out.
use Prim.Native.String.{String}
use Prim.Native.Nat.{min}
use native.Mathlib.Nat.{zero-mul, mul-zero, mul-suc}
use wird.Prelude.{
  ℕ, suc, ◌+◌, ◌-◌, ◌*◌, ◌≤◌, ◌≡◌, refl, sym, ap, subst, ◌∙◌, Bool, true, false, ◌&&◌, List, [],
  ◌∷◌, ◌++◌, Option, none, some, ◌==◌, arith, Bool-cases, inl, inr, if◌then◌else◌,
}
use wird.Prelude.Texts.{string_eq}
use wird.Rootd.Limiter.{Levels, Bucket, new_limiter, allow_all, filled, fresh, spend}
use wird.Rootd.Limiter.Exact.{IsLevels, exact, exact-IsLevels, split_refill}
use wird.Rootd.Limiter.Ideal.{
  own_bucket, remembered, ideal, IsInOrder, IsSeen, IsSeen-later, IsSeen-remembered,
  allow_all-ideal,
}

-- The requests of a caller that were let through.
abbrev pub granted : String → List (String × ℕ) → List Bool → ℕ
granted c [] answers = 0
granted c (r ∷ requests) [] = 0
granted c ((caller, now) ∷ requests) (allowed ∷ answers) =
    let rest = granted c requests answers in if allowed && (caller == c) then suc rest else rest

-- The instant of the last request.
abbrev pub last_time : ℕ → List (String × ℕ) → ℕ
last_time last [] = last
last_time last ((caller, now) ∷ requests) = last_time now requests

le-last_time :
    (last : ℕ) (requests : List (String × ℕ))
    → IsInOrder last requests
    → last ≤ last_time last requests
le-last_time last [] h = omega arith
le-last_time last ((caller, now) ∷ requests) h = omega (arith, h.0, le-last_time now requests h.1)

module _ (denominator rate burst : ℕ) where
  -- The level of a bucket at an instant.
  abbrev level : ℕ → Option (Bucket ℕ) → ℕ
  level now none = burst
  level now (some b) = min burst (b.tokens + (now - b.seen) * rate)

  no_time : (n : ℕ) → (n - n) * rate ≡ 0
  no_time n =
      let none_passed : n - n ≡ 0 = omega arith in ap (λ d. d * rate) none_passed ∙ zero-mul rate

  level-later :
      (last now : ℕ) (o : Option (Bucket ℕ))
      → last ≤ now
      → IsSeen (exact denominator) rate burst last o
      → level now o ≤ level last o + (now - last) * rate
  level-later last now none h k = omega arith
  level-later last now (some b) h k =
      let parts = split_refill rate (last - b.seen) (now - b.seen) (omega arith) in
      let same : (now - b.seen) - (last - b.seen) ≡ now - last = omega arith in
      omega (arith, parts, ap (λ d. d * rate) same)

  abbrev spent : ℕ → Option (Bucket ℕ) → Bucket ℕ × Bool
  spent now o =
      spend (exact denominator) rate burst now (own_bucket (exact denominator) rate burst now o)

  -- A request that is let through takes a token from the level.
  spend_cost :
      (now : ℕ) (o : Option (Bucket ℕ))
      → (if (spent now o).1 then denominator * 1000000000 else 0) + level now (some (spent now o).0)
        ≤ level now o
  unfolding spend
  spend_cost now none = ground (arith, no_time now)
  spend_cost now (some b) = ground (arith, no_time now)

  one_more :
      (n : ℕ)
      → (denominator * 1000000000) * suc n
        ≡ (denominator * 1000000000) * n + denominator * 1000000000
  one_more n = mul-suc (denominator * 1000000000) n

  counted :
      (ok : Bool) (n left level refill : ℕ)
      → (denominator * 1000000000) * n ≤ left + refill
      → (if ok then denominator * 1000000000 else 0) + left ≤ level
      → (denominator * 1000000000) * (if ok && true then suc n else n) ≤ level + refill
  counted true n left level refill h k = omega (arith, one_more n)
  counted false n left level refill h k = omega arith

  passed_over :
      (ok : Bool) (n bound : ℕ)
      → (denominator * 1000000000) * n ≤ bound
      → (denominator * 1000000000) * (if ok && false then suc n else n) ≤ bound
  passed_over true n bound h = h
  passed_over false n bound h = h

  refill_after :
      (last now end : ℕ)
      → last ≤ now
      → now ≤ end
      → (end - last) * rate ≡ (end - now) * rate + (now - last) * rate
  refill_after last now end h k =
      let gap : (end - last) - (now - last) ≡ end - now = omega arith in
      let shorter : now - last ≤ end - last = omega arith in
      split_refill rate (now - last) (end - last) shorter
      ∙ ap (λ d. d * rate + (now - last) * rate) gap

  granted-ideal-le :
      (c : String) (memory : String → Option (Bucket ℕ)) (last : ℕ) (requests : List (String × ℕ))
      → ((d : String) → IsSeen (exact denominator) rate burst last (memory d))
      → IsInOrder last requests
      → (denominator * 1000000000)
          * granted c requests (ideal (exact denominator) rate burst memory requests)
        ≤ level last (memory c) + (last_time last requests - last) * rate
  granted-ideal-le c memory last [] seen h = omega (arith, mul-zero (denominator * 1000000000))
  granted-ideal-le c memory last ((caller, now) ∷ requests) seen h =
      let lv = exact denominator in
      let later = λ (d : String). IsSeen-later lv rate burst last now (memory d) h.0 (seen d) in
      let b = own_bucket lv rate burst now (memory caller) in
      let next = remembered lv rate burst caller (spent now (memory caller)).0 memory in
      let rest =
        granted-ideal-le c next now requests
          (λ d. IsSeen-remembered lv rate burst now caller d b memory later) h.1 in
      let risen = level-later last now (memory c) h.0 (seen c) in
      let after =
        refill_after last now (last_time now requests) h.0 (le-last_time now requests h.1) in
      let ok = (spent now (memory caller)).1 in
      let n = granted c requests (ideal lv rate burst next requests) in
      elim (Bool-cases (caller == c)) [
        | inl same ↦
            let own : level now (memory caller) ≡ level now (memory c) =
              ap (λ d. level now (memory d)) ((string_eq.eqb_iff caller c).0 same) in
            let bound =
              counted ok n (level now (some (spent now (memory caller)).0))
                (level now (memory caller)) ((last_time now requests - now) * rate)
                (rw same at rest) (spend_cost now (memory caller)) in
            rw same (omega (arith, bound, own, risen, after))
        | inr other ↦
            let bound : (denominator * 1000000000) * n
                ≤ level now (memory c) + (last_time now requests - now) * rate =
              rw other at rest in
            rw other (passed_over ok n _ (omega (arith, bound, risen, after)))
      ]

  -- Between two instants a caller is let through at most as often as the burst and the refill over
  -- that time have tokens, where the numbers are exact and the rate is any fraction: `rate` tokens in
  -- `denominator` seconds, a token being a billion times the denominator.
  pub granted_bound :
      (c : String) (start : ℕ) (requests : List (String × ℕ))
      → IsInOrder start requests
      → (denominator * 1000000000)
          * granted c requests (allow_all (new_limiter (exact denominator) rate burst) requests)
        ≤ burst + (last_time start requests - start) * rate
  granted_bound c start requests h =
      subst
        (λ answers.
          (denominator * 1000000000) * granted c requests answers
          ≤ burst + (last_time start requests - start) * rate)
        (sym (
          allow_all-ideal (exact denominator) rate burst (exact-IsLevels denominator rate burst)
            start requests h))
        (granted-ideal-le c (λ d. none) start requests (λ d. tt) h)

module _ {F : Type 0} (lv : Levels F) (rate burst : F) (laws : IsLevels lv rate burst) where
  -- A bucket that was seen by then and holds no debt.
  abbrev IsHeld : ℕ → Option (Bucket F) → Type 0
  IsHeld now none = Unit {0}
  IsHeld now (some b) = (b.seen ≤ now) × (lv.less b.tokens lv.no_token ≡ false)

  -- The tokens that are there to be spent are at least those that come in since.
  filled-ge :
      (now : ℕ) (b : Bucket F)
      → lv.less b.tokens lv.no_token ≡ false
      → lv.less (filled lv rate burst now b) (lv.times (lv.seconds (now - b.seen)) rate) ≡ false
  filled-ge now b h = laws.gains b.tokens (lv.times (lv.seconds (now - b.seen)) rate) h

  least-ge :
      (a x : F)
      → lv.less burst a ≡ false
      → lv.less x a ≡ false
      → lv.less (lv.smaller burst x) a ≡ false
  least-ge a x h k = elim (Bool-cases (lv.less x burst)) [
    | inl e ↦ subst (λ y. lv.less y a ≡ false) (sym (laws.smaller burst x ∙ rw e refl)) k
    | inr e ↦ subst (λ y. lv.less y a ≡ false) (sym (laws.smaller burst x ∙ rw e refl)) h
  ]

  spend-IsHeld :
      (now : ℕ) (b : Bucket F)
      → lv.less burst lv.no_token ≡ false
      → lv.less b.tokens lv.no_token ≡ false
      → IsHeld now (some (spend lv rate burst now b).0)
  unfolding spend
  spend-IsHeld now b big h =
      let tokens = lv.smaller burst (filled lv rate burst now b) in
      let held =
        least-ge lv.no_token (filled lv rate burst now b) big
          (laws.chain lv.no_token _ _ (laws.refill (now - b.seen)) (filled-ge now b h)) in
      elim (Bool-cases (lv.less tokens lv.one_token)) [
        | inl low ↦ rw (low, spend) (omega arith, held)
        | inr high ↦ rw (high, spend) (omega arith, laws.spent tokens high)
      ]

  own_bucket-held :
      (last now : ℕ) (o : Option (Bucket F))
      → lv.less burst lv.no_token ≡ false
      → IsHeld last o
      → lv.less (own_bucket lv rate burst now o).tokens lv.no_token ≡ false
  own_bucket-held last now none big h = big
  own_bucket-held last now (some b) big h = h.1

  filled_one :
      (last now : ℕ) (o : Option (Bucket F))
      → IsHeld last o
      → last ≤ now
      → lv.less burst lv.one_token ≡ false
      → lv.less (lv.times (lv.seconds (now - last)) rate) lv.one_token ≡ false
      → lv.less (filled lv rate burst now (own_bucket lv rate burst now o)) lv.one_token ≡ false
  filled_one last now none h k big wait =
      let none_passed : now - now ≡ 0 = omega arith in
      let still : filled lv rate burst now (fresh lv rate burst now) ≡ burst =
        ap (λ d. lv.plus burst (lv.times (lv.seconds d) rate)) none_passed ∙ laws.at_once in
      subst (λ x. lv.less x lv.one_token ≡ false) (sym still) big
  filled_one last now (some b) h k big wait =
      laws.chain lv.one_token _ _
        (laws.chain lv.one_token _ _ wait
          (laws.longer (now - last) (now - b.seen) (omega (arith, h.0))))
        (filled-ge now b h.1)

  spend_served :
      (last now : ℕ) (o : Option (Bucket F))
      → IsHeld last o
      → last ≤ now
      → lv.less burst lv.one_token ≡ false
      → lv.less (lv.times (lv.seconds (now - last)) rate) lv.one_token ≡ false
      → (spend lv rate burst now (own_bucket lv rate burst now o)).1 ≡ true
  unfolding spend
  spend_served last now o h k big wait =
      let enough =
        least-ge lv.one_token (filled lv rate burst now (own_bucket lv rate burst now o)) big
          (filled_one last now o h k big wait) in
      rw enough refl

  IsHeld-later : (last now : ℕ) (o : Option (Bucket F)) → last ≤ now → IsHeld last o → IsHeld now o
  IsHeld-later last now none h k = tt
  IsHeld-later last now (some b) h k = (omega (arith, k.0), k.1)

  ideal-snoc :
      (c : String) (now : ℕ) (memory : String → Option (Bucket F)) (last : ℕ)
      (requests : List (String × ℕ))
      → ((d : String) → IsHeld last (memory d))
      → IsInOrder last requests
      → last_time last requests ≤ now
      → lv.less burst lv.one_token ≡ false
      → lv.less (lv.times (lv.seconds (now - last_time last requests)) rate) lv.one_token ≡ false
      → ideal lv rate burst memory (requests ++ (c, now) ∷ [])
        ≡ ideal lv rate burst memory requests ++ true ∷ []
  ideal-snoc c now memory last [] held h k big wait =
      ap (λ a. a ∷ []) (spend_served last now (memory c) (held c) k big wait)
  ideal-snoc c now memory last ((caller, at) ∷ requests) held h k big wait =
      let b = own_bucket lv rate burst at (memory caller) in
      let next = remembered lv rate burst caller (spend lv rate burst at b).0 memory in
      let full = laws.chain lv.no_token _ _ laws.positive big in
      let kept : IsHeld at (some (spend lv rate burst at b).0) =
        spend-IsHeld at b full (own_bucket-held last at (memory caller) full (held caller)) in
      let held_next : (d : String) → IsHeld at (next d) = λ d. elim (Bool-cases (caller == d)) [
        | inl e ↦ rw e kept
        | inr e ↦ rw e (IsHeld-later last at (memory d) h.0 (held d))
      ] in
      ap (λ l. (spend lv rate burst at b).1 ∷ l)
        (ideal-snoc c now next at requests held_next h.1 k big wait)

  IsInOrder-snoc :
      (c : String) (now start : ℕ) (requests : List (String × ℕ))
      → IsInOrder start requests
      → last_time start requests ≤ now
      → IsInOrder start (requests ++ (c, now) ∷ [])
  IsInOrder-snoc c now start [] h k = (k, tt)
  IsInOrder-snoc c now start ((caller, at) ∷ requests) h k =
      (h.0, IsInOrder-snoc c now at requests h.1 k)

  -- No caller is shut out: whatever came before, a request is let through once the time in which a
  -- token comes in has passed without any, if a burst holds a token at all. Of the numbers only what
  -- rounding keeps is used: the order of sums, products and times.
  pub served_in_time :
      (c : String) (now start : ℕ) (requests : List (String × ℕ))
      → IsInOrder start requests
      → last_time start requests ≤ now
      → lv.less burst lv.one_token ≡ false
      → lv.less (lv.times (lv.seconds (now - last_time start requests)) rate) lv.one_token ≡ false
      → allow_all (new_limiter lv rate burst) (requests ++ (c, now) ∷ [])
        ≡ allow_all (new_limiter lv rate burst) requests ++ true ∷ []
  served_in_time c now start requests h later big wait =
      allow_all-ideal lv rate burst laws start (requests ++ (c, now) ∷ [])
        (IsInOrder-snoc c now start requests h later)
      ∙ ideal-snoc c now (λ d. none) start requests (λ d. tt) h later big wait
      ∙ ap (λ l. l ++ true ∷ []) (sym (allow_all-ideal lv rate burst laws start requests h))
