-- ===== src/Rootd/Limiter/Exact.antt =====
-- What is used of float64 in the limiter of jidhr/cmd/rootd/server.go, and the exact numbers that have
-- it: a token is divided into as many parts as a billion times the denominator of the rate, so that a
-- refill over nanoseconds is a number of parts.
use Prim.Native.Nat.{min}
use native.Mathlib.Nat.{add-mul, zero-mul}
use wird.Prelude.{ℕ, ◌+◌, ◌-◌, ◌*◌, ◌≤◌, ◌≡◌, subst, false, not, ltb, leb, arith, if◌then◌else◌}
use wird.Rootd.Limiter.{Levels}

-- The numbers of float64 without NaN, where 0 and -0 are one: rounding keeps the order of sums, products
-- and Seconds, so adding to a number of at least 0 loses nothing, a finite rate of at least 0 gives
-- nothing in no time, and math.Min is the smaller of the two.
pub record IsLevels {F : Type 0} (lv : Levels F) (rate burst : F) : Type 0 where
  pub same : (a : F) → lv.less a a ≡ false
  pub chain : (a b c : F) → lv.less b a ≡ false → lv.less c b ≡ false → lv.less c a ≡ false
  pub at_least : (a b : F) → lv.at_least a b ≡ not (lv.less a b)
  pub smaller : (a b : F) → lv.smaller a b ≡ (if lv.less b a then b else a)
  pub longer :
      (m n : ℕ)
      → m ≤ n
      → lv.less (lv.times (lv.seconds n) rate) (lv.times (lv.seconds m) rate) ≡ false
  pub adds : (a b c : F) → lv.less c b ≡ false → lv.less (lv.plus a c) (lv.plus a b) ≡ false
  pub at_once : lv.plus burst (lv.times (lv.seconds 0) rate) ≡ burst
  pub gains : (a b : F) → lv.less a lv.no_token ≡ false → lv.less (lv.plus a b) b ≡ false
  pub positive : lv.less lv.one_token lv.no_token ≡ false
  pub refill : (n : ℕ) → lv.less (lv.times (lv.seconds n) rate) lv.no_token ≡ false
  pub spent :
      (a : F)
      → lv.less a lv.one_token ≡ false
      → lv.less (lv.minus a lv.one_token) lv.no_token ≡ false

-- Exact numbers, where a rate of `p` is `p` tokens in as many seconds as the denominator.
abbrev pub exact : ℕ → Levels ℕ
exact denominator = record {
  no_token = 0;
  one_token = denominator * 1000000000;
  seconds = λ n. n;
  plus = λ a b. a + b;
  times = λ a b. a * b;
  minus = λ a b. a - b;
  less = ltb;
  at_least = λ a b. leb b a;
  smaller = min;
}

-- The refill over two times, one after the other.
pub split_refill : (rate m n : ℕ) → m ≤ n → n * rate ≡ (n - m) * rate + m * rate
split_refill rate m n h =
    let whole : (n - m) + m ≡ n = omega arith in
    subst (λ d. d * rate ≡ (n - m) * rate + m * rate) whole (add-mul (n - m) m rate)

pub exact-IsLevels : (denominator rate burst : ℕ) → IsLevels (exact denominator) rate burst
exact-IsLevels denominator rate burst = record {
  same = λ a. ground arith;
  chain = λ a b c h k. ground (arith, h, k);
  at_least = λ a b. ground arith;
  smaller = λ a b. ground arith;
  longer = λ m n h. ground (arith, split_refill rate m n h);
  adds = λ a b c h. ground (arith, h);
  at_once = omega (arith, zero-mul rate);
  gains = λ a b h. ground arith;
  positive = ground arith;
  refill = λ n. ground arith;
  spent = λ a h. ground arith;
}
