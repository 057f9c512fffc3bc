-- ===== src/Etl/Gate/Facts.antt =====
-- What a corpus that passes the gate is: the facts behind each of its loops.
use wird.Prelude.{
  if◌then◌else◌, ◌≡◌, refl, ap, ◌∙◌, ℕ, ◌/◌, ◌↔◌, Bool, true, false, Option, none, List, [], ◌∷◌,
  contains, nat_beq, nat_eq, All, All-iff, append-eq-nil, Bool-cases, inl, inr, arith,
}
use wird.Prelude.Map.{Map, get, put, get-put}
use wird.Text.{Word}
use wird.Text.Decimal.{ℤ, pos}
use wird.Etl.Ints.{int_ltb, int_ltb_trans}
use wird.Etl.Rows.{Segment, Recited}
use wird.Etl.Gate.{
  segments_loop, start_at, GateError, first_error, when, unknown_word, goes_back, recited_loop,
}

pub first_error-nil {ℓ} :
    {A : Type ℓ} (f : A → Option GateError) (xs : List A)
    → (first_error f xs ≡ []) ↔ All (λ x. f x ≡ none) xs
unfolding first_error
first_error-nil f [] = (λ h. tt, λ h. refl)
first_error-nil f (x ∷ xs) = ground (arith, first_error-nil f xs)

pub when-nil : (bad : Bool) (e : GateError) → (when bad e ≡ []) ↔ (bad ≡ false)
when-nil true e = (λ h. cc, λ h. cc)
when-nil false e = (λ h. refl, λ h. refl)

pub full_nil :
    (full : Bool) (es : List GateError) (P : Type 0)
    → (es ≡ []) ↔ P
    → ((if full then es else []) ≡ []) ↔ (full ≡ true → P)
full_nil true es P h = (λ e q. h.0 e, λ k. h.1 (k refl))
full_nil false es P h = (λ e q. cc, λ k. refl)

pub first_nil :
    {A : Type 0} (f : A → Option GateError) (P : A → Type 0) (xs : List A)
    → ((a : A) → (f a ≡ none) ↔ P a)
    → (first_error f xs ≡ []) ↔ All P xs
first_nil f P xs h =
    let loop = first_error-nil f xs in
    let each = All-iff (λ a. f a ≡ none) P xs h in (λ e. each.0 (loop.0 e), λ q. loop.1 (each.1 q))

-- If the segment is in the aya, `x` is no earlier than its start.
abbrev pub IsAfter : ℕ → ℤ → Segment → Type 0
IsAfter aid x s = nat_beq (s.word / 1000) aid ≡ true → int_ltb x s.starts ≡ false

-- Each segment is for a word there is, and starts no earlier than 0 and than each one before it in
-- its aya.
abbrev pub IsForward : List ℕ → List Segment → List Segment → Type 0
IsForward words earlier [] = Unit {0}
IsForward words earlier (s ∷ segments) =
    (contains words s.word ≡ true)
    × (int_ltb s.starts (pos 0) ≡ false)
    × All (IsAfter (s.word / 1000) s.starts) earlier
    × IsForward words (s ∷ earlier) segments

-- The last start of each aya stands for all the starts before.
abbrev IsLast : Map ℕ ℤ → List Segment → Type 0
IsLast last earlier =
    (aid : ℕ) (x : ℤ)
    → (int_ltb x (start_at (get last aid)) ≡ false)
      ↔ ((int_ltb x (pos 0) ≡ false) × All (IsAfter aid x) earlier)

later_all :
    (aid : ℕ) (x y : ℤ) (earlier : List Segment)
    → int_ltb x y ≡ false
    → All (IsAfter aid y) earlier
    → All (IsAfter aid x) earlier
later_all aid x y [] h k = tt
later_all aid x y (s ∷ earlier) h k =
    (λ same. int_ltb_trans x y s.starts h (k.0 same), later_all aid x y earlier h k.1)

put-IsLast :
    (last : Map ℕ ℤ) (earlier : List Segment) (s : Segment)
    → IsLast last earlier
    → int_ltb s.starts (pos 0) ≡ false
    → All (IsAfter (s.word / 1000) s.starts) earlier
    → IsLast (put last (s.word / 1000) s.starts) (s ∷ earlier)
put-IsLast last earlier s inv low after aid x =
    let read = get-put last (s.word / 1000) aid s.starts in
    elim (Bool-cases (nat_beq (s.word / 1000) aid)) [
      | inl e ↦
          let same : s.word / 1000 ≡ aid = ground (arith, e) in
          let now : start_at (get (put last (s.word / 1000) s.starts) aid) ≡ s.starts =
            ap start_at read ∙ rw e refl in
          rw now (
            λ h. (
              int_ltb_trans x s.starts (pos 0) h low,
              (λ q. h, later_all aid x s.starts earlier h (rw (← same) after)),
            ),
            λ h. h.1.0 e,
          )
      | inr e ↦
          let now : start_at (get (put last (s.word / 1000) s.starts) aid)
              ≡ start_at (get last aid) =
            ap start_at read ∙ rw e refl in
          rw now (
            λ h. (((inv aid x).0 h).0, ((λ q. cc), ((inv aid x).0 h).1)),
            λ h. (inv aid x).1 (h.0, h.1.1),
          )
    ]

-- The loop finds nothing exactly if the segments go forward.
pub segments_loop-nil :
    (words : List ℕ) (slug : Word) (last : Map ℕ ℤ) (earlier segments : List Segment)
    → IsLast last earlier
    → (segments_loop words slug last segments ≡ []) ↔ IsForward words earlier segments
unfolding segments_loop
segments_loop-nil words slug last earlier [] inv = (λ h. tt, λ h. refl)
segments_loop-nil words slug last earlier (s ∷ segments) inv =
    elim (Bool-cases (contains words s.word)) [
      | inr e ↦ (λ h. let bad : unknown_word slug s.word ∷ [] ≡ [] = (rw e at h) in cc, λ h. cc)
      | inl e ↦ elim (Bool-cases (int_ltb s.starts (start_at (get last (s.word / 1000))))) [
        | inl back ↦ (
          λ h. let bad : goes_back slug (s.word / 1000) ∷ [] ≡ [] = (rw (e, back) at h) in cc,
          λ h. let on = (inv (s.word / 1000) s.starts).1 (h.1, h.2) in cc,
        )
        | inr on ↦
            let (low, after) = (inv (s.word / 1000) s.starts).0 on in
            let later =
              segments_loop-nil words slug (put last (s.word / 1000) s.starts) (s ∷ earlier)
                segments (put-IsLast last earlier s inv low after) in
            (λ h. (e, low, after, later.0 (rw (e, on) at h)), λ h. rw (e, on) (later.1 h.3))
      ]
    ]

none_yet : IsLast [] []
unfolding get
none_yet aid x = (λ h. (h, tt), λ h. h.0)

pub recited_loop-nil :
    (words : List ℕ) (recited : List Recited)
    → (recited_loop words recited ≡ []) ↔ All (λ r. IsForward words [] r.segments) recited
unfolding recited_loop
recited_loop-nil words [] = (λ h. tt, λ h. refl)
recited_loop-nil words (r ∷ recited) =
    let both =
      append-eq-nil (segments_loop words r.recitation.slug [] r.segments)
        (recited_loop words recited) in
    let here = segments_loop-nil words r.recitation.slug [] [] r.segments none_yet in
    let later = recited_loop-nil words recited in
    (λ h. (here.0 (both.0 h).0, later.0 (both.0 h).1), λ h. both.1 (here.1 h.0, later.1 h.1))
