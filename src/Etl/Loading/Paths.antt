-- ===== src/Etl/Loading/Paths.antt =====
-- The paths that are loaded are relative.
use wird.Prelude.{
  ◌≡◌, refl, ℕ, zero, suc, ◌+◌, ◌/◌, ◌%◌, ◌≤◌, inl, inr, false, [], ◌∷◌, ◌++◌, ltb, nat_beq, nat_eq,
  list_eq, pair_eq, All, All-append, All-imp, Bool-cases, ltb→lt, arith,
}
use wird.Text.{Word}
use wird.Text.Ascii.{ascii}
use wird.Text.Strings.{holds, starts_with}
use wird.Text.Decimal.{digits, format_int}
use wird.Etl.Ints.{int_eq}
use wird.Etl.Gate.{not_relative}
use wird.Etl.Verses.{three_digits, wbw_path, rel_path}

abbrev IsDigit : ℕ → Type 0
IsDigit c = (0x30 ≤ c) × (c ≤ 0x39)

digits-IsDigit :
    (fuel n : ℕ) (written : Word) → All IsDigit written → All IsDigit (digits fuel n written)
unfolding digits
digits-IsDigit zero n written h = h
digits-IsDigit (suc fuel) n written h = elim (Bool-cases (ltb n 10)) [
  | inl e ↦ rw e ((omega arith, omega (arith, ltb→lt n 10 e)), h)
  | inr e ↦
      rw e
        (digits-IsDigit fuel (n / 10) ((0x30 + n % 10) ∷ written) ((omega arith, omega arith), h))
]

three_digits-IsDigit : (n : ℕ) → All IsDigit (three_digits n)
unfolding format_int
three_digits-IsDigit n =
    let d = digits-IsDigit (suc n) n [] tt in
    let zero_digit : IsDigit 0x30 = (omega arith, omega arith) in
    elim (Bool-cases (ltb n 10)) [
      | inl e ↦ rw e (zero_digit, (zero_digit, d))
      | inr e ↦ elim (Bool-cases (ltb n 100)) [
        | inl f ↦ rw (e, f) (zero_digit, d)
        | inr f ↦ rw (e, f) d
      ]
    ]

-- A text with no colon has no scheme.
abbrev IsPlain : ℕ → Type 0
IsPlain c = nat_beq c 0x3A ≡ false

holds_plain : (text part : Word) → All IsPlain text → holds text (0x3A ∷ part) ≡ false
unfolding holds starts_with
holds_plain [] part h = refl
holds_plain (c ∷ text) part h = ground (arith, h.0, holds_plain text part h.1)

digit-IsPlain : (c : ℕ) → IsDigit c → IsPlain c
digit-IsPlain c h = ground (arith, h.0, h.1)

IsPlain-digits : (text : Word) → All IsDigit text → All IsPlain text
IsPlain-digits text h = All-imp IsDigit IsPlain digit-IsPlain text h

wbw-IsPlain : (su ay p : ℕ) → All IsPlain (wbw_path su ay p)
unfolding wbw_path
wbw-IsPlain su ay p =
    let part = λ (n : ℕ). IsPlain-digits (three_digits n) (three_digits-IsDigit n) in
    let bar : All IsPlain (ascii "_") = (refl, tt) in
    let one = ascii "wbw/" ++ three_digits su in
    let two = one ++ ascii "_" ++ three_digits ay in
    let three = two ++ ascii "_" ++ three_digits p in
    let start =
      All-append IsPlain (ascii "wbw/") (three_digits su) (refl, (refl, (refl, (refl, tt))))
        (part su) in
    let next =
      All-append IsPlain (one ++ ascii "_") (three_digits ay)
        (All-append IsPlain one (ascii "_") start bar) (part ay) in
    let last =
      All-append IsPlain (two ++ ascii "_") (three_digits p)
        (All-append IsPlain two (ascii "_") next bar) (part p) in
    All-append IsPlain three (ascii ".mp3") last (refl, (refl, (refl, (refl, tt))))

wbw_start : (su ay p : ℕ) → starts_with (wbw_path su ay p) (ascii "/") ≡ false
unfolding wbw_path starts_with
wbw_start su ay p = refl

pub wbw_path-relative : (su ay p : ℕ) → not_relative (wbw_path su ay p) ≡ false
wbw_path-relative su ay p =
    rw (holds_plain (wbw_path su ay p) (ascii "//") (wbw-IsPlain su ay p), wbw_start su ay p) refl

digits_start :
    (text rest : Word) → All IsDigit text → starts_with (text ++ 0x2E ∷ rest) (ascii "/") ≡ false
unfolding starts_with
digits_start [] rest h = refl
digits_start (c ∷ text) rest h = ground (arith, h.0.0)

rel-IsPlain : (su ay : ℕ) → All IsPlain (rel_path su ay)
unfolding rel_path
rel-IsPlain su ay =
    let both =
      All-append IsDigit (three_digits su) (three_digits ay) (three_digits-IsDigit su)
        (three_digits-IsDigit ay) in
    All-append IsPlain (three_digits su ++ three_digits ay) (ascii ".mp3")
      (IsPlain-digits (three_digits su ++ three_digits ay) both) (refl, (refl, (refl, (refl, tt))))

rel_start : (su ay : ℕ) → starts_with (rel_path su ay) (ascii "/") ≡ false
unfolding rel_path
rel_start su ay = digits_start (three_digits su ++ three_digits ay) (ascii "mp3") (
    All-append IsDigit (three_digits su) (three_digits ay) (three_digits-IsDigit su)
      (three_digits-IsDigit ay))

pub rel_path-relative : (su ay : ℕ) → not_relative (rel_path su ay) ≡ false
rel_path-relative su ay =
    rw (holds_plain (rel_path su ay) (ascii "//") (rel-IsPlain su ay), rel_start su ay) refl
