-- ===== src/Root/Strip/Peels.antt =====
-- One round of either loop is one peel of `Spec`, in both directions.
use mathlib.Core.List.{Memᴰ}
use wird.Prelude.{
  ℕ, zero, suc, ◌+◌, ◌-◌, ◌≤◌, ◌<◌, ◌≡◌, refl, sym, ap, ◌∙◌, true, ◌||◌, [], ◌∷◌, ◌++◌, some, arith,
  length, length-append, take, drop, get_or, contains, nat_eq, list_eq, list_beq_iff,
}
use wird.Text.{Word, is_empty}
use wird.Root.Strip.{
  Span, Prefix, min_stem, slice, prefix_peel, suffix_peel, strip_prefixes, strip_suffixes,
}
use wird.Root.Strip.Slice.{slice-split, length-slice, append-inj}
use wird.Root.Strip.Spec.{Peel, front, back, MaySitOn}

abbrev pub IsWithin : ℕ → Span → Type 0
IsWithin n s = (s.i ≤ s.j) × (s.j ≤ n)

abbrev pub part : Word → Span → Word
part rs s = slice rs s.i s.j

get_or-drop : (w : Word) (i : ℕ) → get_or (drop i w) 0 0 ≡ get_or w i 0
get_or-drop [] zero = refl
get_or-drop [] (suc i) = refl
get_or-drop (r ∷ w) zero = refl
get_or-drop (r ∷ w) (suc i) = get_or-drop w i

get_or-take : (n : ℕ) (w : Word) → 0 < n → get_or (take n w) 0 0 ≡ get_or w 0 0
get_or-take zero w h = absurd (omega arith)
get_or-take (suc n) [] h = refl
get_or-take (suc n) (r ∷ w) h = refl

-- The first letter of a span is the letter of the word that stands there.
get_or-slice : (w : Word) (i j : ℕ) → i < j → get_or (slice w i j) 0 0 ≡ get_or w i 0
unfolding slice
get_or-slice w i j h = get_or-take (j - i) (drop i w) (omega arith) ∙ get_or-drop w i

-- What a round that pushes has tested, and what it pushes.
record Fits (rs : Word) (s : Span) (p : Prefix) (t : Span) : Type 0 where
  room : s.i + length p.text + min_stem ≤ s.j
  text : slice rs s.i (s.i + length p.text) ≡ p.text
  before : (is_empty p.before || contains p.before (get_or rs (s.i + length p.text) 0)) ≡ true
  left : t.i ≡ s.i + length p.text
  right : t.j ≡ s.j

prefix_peel-Fits :
    (rs : Word) (s t : Span) (p : Prefix) → prefix_peel rs s p ≡ some t → Fits rs s p t
unfolding prefix_peel
prefix_peel-Fits rs s t p e =
    ground (arith, list_beq_iff (slice rs s.i (s.i + length p.text)) p.text)

record EndsWith (rs : Word) (s : Span) (q : Word) (t : Span) : Type 0 where
  room : s.i + length q + min_stem ≤ s.j
  text : slice rs (s.j - length q) s.j ≡ q
  left : t.i ≡ s.i
  right : t.j ≡ s.j - length q

suffix_peel-EndsWith :
    (rs : Word) (s t : Span) (q : Word) → suffix_peel rs s q ≡ some t → EndsWith rs s q t
unfolding suffix_peel
suffix_peel-EndsWith rs s t q e = ground (arith, list_beq_iff (slice rs (s.j - length q) s.j) q)

prefix_peel_fits :
    (rs : Word) (s : Span) (p : Prefix)
    → s.i + length p.text + min_stem ≤ s.j
    → slice rs s.i (s.i + length p.text) ≡ p.text
    → (is_empty p.before || contains p.before (get_or rs (s.i + length p.text) 0)) ≡ true
    → prefix_peel rs s p ≡ some (record { i = s.i + length p.text; j = s.j; steps = s.steps + 1 })
unfolding prefix_peel
prefix_peel_fits rs s p room text sits =
    ground (arith, list_beq_iff (slice rs s.i (s.i + length p.text)) p.text)

suffix_peel_fits :
    (rs : Word) (s : Span) (q : Word)
    → s.i + length q + min_stem ≤ s.j
    → slice rs (s.j - length q) s.j ≡ q
    → suffix_peel rs s q ≡ some (record { i = s.i; j = s.j - length q; steps = s.steps + 1 })
unfolding suffix_peel
suffix_peel_fits rs s q room text = ground (arith, list_beq_iff (slice rs (s.j - length q) s.j) q)

module _ (rs : Word) (s : Span) (h : IsWithin (length rs) s) where
  pub prefix_peel_sound :
      (p : Prefix) (t : Span)
      → Memᴰ p strip_prefixes
      → prefix_peel rs s p ≡ some t
      → Peel (part rs s) (part rs t) × IsWithin (length rs) t
  prefix_peel_sound p t m e =
      let f = prefix_peel-Fits rs s t p e in
      let within : IsWithin (length rs) t = omega arith in
      (
        front p m (rw (get_or-slice rs t.i t.j (omega arith)) (rw f.left f.before))
            (slice-split rs s.i t.i s.j (omega arith) (omega arith)
              ∙ rw (f.left, f.right, f.text) refl)
            (omega (arith, length-slice rs t.i t.j within.0 within.1)),
        within,
      )

  pub suffix_peel_sound :
      (q : Word) (t : Span)
      → Memᴰ q strip_suffixes
      → suffix_peel rs s q ≡ some t
      → Peel (part rs s) (part rs t) × IsWithin (length rs) t
  suffix_peel_sound q t m e =
      let f = suffix_peel-EndsWith rs s t q e in
      let within : IsWithin (length rs) t = omega arith in
      (
        back q m
            (slice-split rs s.i t.j s.j (omega arith) (omega arith)
              ∙ rw (f.left, f.right, f.text) refl)
            (omega (arith, length-slice rs t.i t.j within.0 within.1)),
        within,
      )

  pub prefix_peel_complete :
      (p : Prefix) (stem : Word)
      → MaySitOn p stem
      → part rs s ≡ p.text ++ stem
      → min_stem ≤ length stem
      → (t : Span) × (prefix_peel rs s p ≡ some t) × (part rs t ≡ stem)
  prefix_peel_complete p stem sit e long =
      let n = length p.text in
      let len = length-slice rs s.i s.j h.0 h.1 in
      let sum : length (part rs s) ≡ n + length stem = ap length e ∙ length-append p.text stem in
      let room : s.i + n + min_stem ≤ s.j = omega arith in
      let cut =
        append-inj (slice rs s.i (s.i + n)) p.text (slice rs (s.i + n) s.j) stem
          (omega (arith, length-slice rs s.i (s.i + n)))
          (sym (slice-split rs s.i (s.i + n) s.j (omega arith) (omega arith)) ∙ e) in
      let sits : (is_empty p.before || contains p.before (get_or rs (s.i + n) 0)) ≡ true =
        rw (← get_or-slice rs (s.i + n) s.j (omega arith)) (rw cut.1 sit) in
      (
        record { i = s.i + n; j = s.j; steps = s.steps + 1 },
        prefix_peel_fits rs s p room cut.0 sits,
        cut.1,
      )

  pub suffix_peel_complete :
      (q stem : Word)
      → part rs s ≡ stem ++ q
      → min_stem ≤ length stem
      → (t : Span) × (suffix_peel rs s q ≡ some t) × (part rs t ≡ stem)
  suffix_peel_complete q stem e long =
      let n = length q in
      let len = length-slice rs s.i s.j h.0 h.1 in
      let sum : length (part rs s) ≡ length stem + n = ap length e ∙ length-append stem q in
      let room : s.i + n + min_stem ≤ s.j = omega arith in
      let cut =
        append-inj (slice rs s.i (s.j - n)) stem (slice rs (s.j - n) s.j) q
          (omega (arith, length-slice rs s.i (s.j - n)))
          (sym (slice-split rs s.i (s.j - n) s.j (omega arith) (omega arith)) ∙ e) in
      (
        record { i = s.i; j = s.j - n; steps = s.steps + 1 },
        suffix_peel_fits rs s q room cut.1,
        cut.0,
      )
