-- ===== src/Rootd/Limiter.antt =====
-- The limiter of jidhr/cmd/rootd/server.go: a token bucket for each caller. Its numbers are those of
-- float64, whose operations are the parameter `Levels`. An instant counts nanoseconds, and the clock
-- does not run backwards between two calls.
pub mod Exact
pub mod Ideal
pub mod Bounds
use Prim.Native.String.{String}
use wird.Prelude.{
  ℕ, ◌-◌, Bool, true, false, not, List, [], ◌∷◌, Option, none, some, length, leb, if◌then◌else◌,
}
use wird.Prelude.Texts.{string_eq}
use wird.Prelude.Map.{Map, get, put, retain}

-- What the code asks of float64: the numbers 0 and 1, Seconds of a Duration in nanoseconds, `+`, `*`,
-- `-`, `<`, `>=` and math.Min.
pub record Levels (F : Type 0) : Type 0 where
  pub no_token : F
  pub one_token : F
  pub seconds : ℕ → F
  pub plus : F → F → F
  pub times : F → F → F
  pub minus : F → F → F
  pub less : F → F → Bool
  pub at_least : F → F → Bool
  pub smaller : F → F → F

abbrev pub max_tracked_callers : ℕ
max_tracked_callers = 10000

pub record Bucket (F : Type 0) : Type 0 where
  pub tokens : F
  pub seen : ℕ

pub record Limiter (F : Type 0) : Type 0 where
  pub numbers : Levels F
  pub rate : F
  pub burst : F
  pub buckets : Map String (Bucket F)

unfoldable pub new_limiter : {F : Type 0} → Levels F → F → F → Limiter F
new_limiter lv rate burst = record { numbers = lv; rate = rate; burst = burst; buckets = [] }

abbrev pub stored :
    {F : Type 0} → String → Map String (Bucket F) → Bucket F × Bool → Map String (Bucket F) × Bool
stored caller buckets (b, allowed) = (put buckets caller b, allowed)

module _ {F : Type 0} (lv : Levels F) (rate burst : F) where
  -- The tokens of a bucket at an instant, with no bound.
  abbrev pub filled : ℕ → Bucket F → F
  filled now b = lv.plus b.tokens (lv.times (lv.seconds (now - b.seen)) rate)

  unfoldable pub sweep : ℕ → Map String (Bucket F) → Map String (Bucket F)
  sweep now buckets = retain (λ b. not (lv.at_least (filled now b) burst)) buckets

  -- The buckets, once there is room for a caller that is not known.
  unfoldable pub make_room : ℕ → Map String (Bucket F) → Map String (Bucket F)
  make_room now buckets =
      if leb max_tracked_callers (length buckets) then sweep now buckets else buckets

  abbrev pub fresh : ℕ → Bucket F
  fresh now = record { tokens = burst; seen = now }

  -- The end of `allow`, on the caller's own bucket.
  unfoldable pub spend : ℕ → Bucket F → Bucket F × Bool
  spend now b =
      let tokens = lv.smaller burst (filled now b) in
      if lv.less tokens lv.one_token
      then (record { tokens = tokens; seen = now }, false)
      else (record { tokens = lv.minus tokens lv.one_token; seen = now }, true)

  unfoldable pub allow_in : Map String (Bucket F) → String → ℕ → Map String (Bucket F) × Bool
  allow_in buckets caller now = elim (get buckets caller) [
    | some b ↦ stored caller buckets (spend now b)
    | none ↦ stored caller (make_room now buckets) (spend now (fresh now))
  ]

abbrev pub relimited : {F : Type 0} → Limiter F → Map String (Bucket F) × Bool → Limiter F × Bool
relimited l (buckets, allowed) = (record l { buckets = buckets }, allowed)

unfoldable pub allow : {F : Type 0} → Limiter F → String → ℕ → Limiter F × Bool
allow l caller now = relimited l (allow_in l.numbers l.rate l.burst l.buckets caller now)

-- The answers to a sequence of requests, one after the other.
unfoldable pub allow_all : {F : Type 0} → Limiter F → List (String × ℕ) → List Bool
allow_all l [] = []
allow_all l ((caller, now) ∷ requests) =
    (allow l caller now).1 ∷ allow_all (allow l caller now).0 requests
