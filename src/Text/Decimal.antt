-- ===== src/Text/Decimal.antt =====
-- strconv.FormatInt and strconv.ParseInt of Go for base 10 and 64 bits, as the code calls them.
use wird.Prelude.{
  ◌≡◌, refl, sym, ap, ◌∙◌, ℕ, zero, suc, ◌+◌, ◌*◌, ◌-◌, ◌/◌, ◌%◌, ◌<◌, ◌≤◌, Bool, true, false,
  Option, none, some, [], ◌∷◌, ltb, leb, nat_beq, between, arith, if◌then◌else◌, Bool-cases, inl,
  inr, ltb→lt, not-ltb→le,
}
use wird.Text.{Word}

pub data ℤ : Type 0 where
  pos : ℕ → ℤ
  negsuc : ℕ → ℤ

-- 2 ^ 63
abbrev pub int64_limit : ℕ
int64_limit = 9223372036854775808

-- The digits of a number, before those that are written already.
unfoldable pub digits : ℕ → ℕ → Word → Word
digits zero n written = written
digits (suc fuel) n written =
    let rest = digits fuel (n / 10) ((0x30 + n % 10) ∷ written) in
    if ltb n 10 then (0x30 + n) ∷ written else rest

-- FormatInt of a number that is not negative. A number has fewer digits than itself and one.
unfoldable pub format_int : ℕ → Word
format_int n = digits (suc n) n []

unfoldable pub value : ℕ → Word → Option ℕ
value n [] = some n
value n (c ∷ text) =
    let rest = value (n * 10 + (c - 0x30)) text in if between 0x30 0x39 c then rest else none

-- The digits after the sign, one at least.
abbrev pub magnitude : Word → Option ℕ
magnitude [] = none
magnitude (c ∷ text) = value 0 (c ∷ text)

abbrev pub negative : ℕ → ℤ
negative zero = pos 0
negative (suc n) = negsuc n

abbrev pub in_range : Bool → Option ℕ → Option ℤ
in_range minus none = none
in_range true (some n) = if leb n int64_limit then some (negative n) else none
in_range false (some n) = if ltb n int64_limit then some (pos n) else none

unfoldable pub parse_int : Word → Option ℤ
parse_int [] = none
parse_int (c ∷ text) =
    if nat_beq c 0x2D
    then in_range true (magnitude text)
    else if nat_beq c 0x2B
    then in_range false (magnitude text)
    else in_range false (magnitude (c ∷ text))

-- One digit more.
value_digit :
    (n d : ℕ) (text : Word) → d < 10 → value n ((0x30 + d) ∷ text) ≡ value (n * 10 + d) text
unfolding value
value_digit n d text h = rw (the_test, the_sum) refl
  where
    the_test : between 0x30 0x39 (0x30 + d) ≡ true
    the_test = ground arith

    the_sum : n * 10 + (0x30 + d - 0x30) ≡ n * 10 + d
    the_sum = omega arith

value-digits :
    (fuel n : ℕ) (written : Word) → n < fuel → value 0 (digits fuel n written) ≡ value n written
unfolding digits
value-digits zero n written h = absurd (omega arith)
value-digits (suc fuel) n written h = elim (Bool-cases (ltb n 10)) [
  | inl e ↦
      rw (e, digits)
        (value_digit 0 n written (ltb→lt n 10 e) ∙ ap (λ m. value m written) (omega arith))
  | inr e ↦
      rw (e, digits)
        (value-digits fuel (n / 10) _ (smaller e)
          ∙ value_digit (n / 10) (n % 10) written (omega arith)
          ∙ ap (λ m. value m written) (omega arith))
]
  where
    smaller : ltb n 10 ≡ false → n / 10 < fuel
    smaller e = omega (arith, not-ltb→le n 10 e)

in_range_pos : (n : ℕ) → n < int64_limit → in_range false (value n []) ≡ some (pos n)
unfolding value
in_range_pos n h = ground arith

head-digits :
    (fuel n : ℕ) (written : Word)
    → n < fuel
    → (c : ℕ) × (text : Word) × (digits fuel n written ≡ c ∷ text) × (0x30 ≤ c)
unfolding digits
head-digits zero n written h = absurd (omega arith)
head-digits (suc fuel) n written h = elim (Bool-cases (ltb n 10)) [
  | inl e ↦ rw (e, digits) (0x30 + n, written, refl, omega arith)
  | inr e ↦ rw (e, digits) (head-digits fuel (n / 10) _ (omega (arith, not-ltb→le n 10 e)))
]

parse_digits :
    (c : ℕ) (text : Word) → 0x30 ≤ c → parse_int (c ∷ text) ≡ in_range false (value 0 (c ∷ text))
unfolding parse_int
parse_digits c text h = ground arith

-- What is written is read back.
pub parse_int-format_int : (n : ℕ) → n < int64_limit → parse_int (format_int n) ≡ some (pos n)
unfolding format_int
parse_int-format_int n h =
    let (c, text, spelt, digit) = head-digits (suc n) n [] (omega arith) in
    let read = ap (value 0) (sym spelt) ∙ value-digits (suc n) n [] (omega arith) in
    rw spelt (parse_digits c text digit ∙ ap (in_range false) read ∙ in_range_pos n h)
