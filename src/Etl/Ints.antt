-- ===== src/Etl/Ints.antt =====
-- Go's ints where they may be negative: their order, and the difference of two counts.
use wird.Prelude.{
  ◌≡◌, refl, ℕ, ◌+◌, ◌-◌, ◌*◌, HasEq, Bool, true, false, ltb, nat_beq, ◌↔◌, arith, if◌then◌else◌,
}
use wird.Text.Decimal.{ℤ, pos, negsuc}

-- a < b
unfoldable pub int_ltb : ℤ → ℤ → Bool
int_ltb (pos a) (pos b) = ltb a b
int_ltb (pos a) (negsuc b) = false
int_ltb (negsuc a) (pos b) = true
int_ltb (negsuc a) (negsuc b) = ltb b a

-- a == b
unfoldable pub int_beq : ℤ → ℤ → Bool
int_beq (pos a) (pos b) = nat_beq a b
int_beq (pos a) (negsuc b) = false
int_beq (negsuc a) (pos b) = false
int_beq (negsuc a) (negsuc b) = nat_beq a b

-- a - b of two counts
abbrev pub minus : ℕ → ℕ → ℤ
minus a b = if ltb a b then negsuc (b - a - 1) else pos (a - b)

unfoldable pub plus : ℤ → ℤ → ℤ
plus (pos a) (pos b) = pos (a + b)
plus (pos a) (negsuc b) = minus a (b + 1)
plus (negsuc a) (pos b) = minus b (a + 1)
plus (negsuc a) (negsuc b) = negsuc (a + b + 1)

pub int_ltb_irrefl : (a : ℤ) → int_ltb a a ≡ false
unfolding int_ltb
int_ltb_irrefl (pos a) = ground arith
int_ltb_irrefl (negsuc a) = ground arith

pub int_ltb_asym : (a b : ℤ) → int_ltb a b ≡ true → int_ltb b a ≡ false
unfolding int_ltb
int_ltb_asym (pos a) (pos b) h = ground arith
int_ltb_asym (pos a) (negsuc b) h = cc
int_ltb_asym (negsuc a) (pos b) h = refl
int_ltb_asym (negsuc a) (negsuc b) h = ground arith

-- What is not below is passed on: b ≤ a and c ≤ b give c ≤ a.
pub int_ltb_trans : (a b c : ℤ) → int_ltb a b ≡ false → int_ltb b c ≡ false → int_ltb a c ≡ false
unfolding int_ltb
int_ltb_trans (pos a) (pos b) (pos c) h k = ground arith
int_ltb_trans (pos a) b (negsuc c) h k = refl
int_ltb_trans (pos a) (negsuc b) (pos c) h k = cc
int_ltb_trans (negsuc a) (pos b) c h k = cc
int_ltb_trans (negsuc a) (negsuc b) (pos c) h k = k
int_ltb_trans (negsuc a) (negsuc b) (negsuc c) h k = ground arith

pub int_beq_refl : (a : ℤ) → int_beq a a ≡ true
unfolding int_beq
int_beq_refl (pos a) = ground arith
int_beq_refl (negsuc a) = ground arith

pub int_beq_iff : (a b : ℤ) → (int_beq a b ≡ true) ↔ (a ≡ b)
unfolding int_beq
int_beq_iff (pos a) (pos b) = ground arith
int_beq_iff (pos a) (negsuc b) = (λ h. cc, λ h. cc)
int_beq_iff (negsuc a) (pos b) = (λ h. cc, λ h. cc)
int_beq_iff (negsuc a) (negsuc b) = ground arith

instance abbrev pub int_eq : HasEq ℤ
int_eq = record { eqb = int_beq; eqb_iff = int_beq_iff }

-- 1000 * a
abbrev pub thousands : ℤ → ℤ
thousands (pos a) = pos (a * 1000)
thousands (negsuc a) = negsuc (a * 1000 + 999)
