-- ===== src/Root/Pattern/ReadBack.antt =====
-- A strong root that is written into a base template is among the readings of what it spells.
use mathlib.Core.List.{Memᴰ}
use mathlib.Core.List.Memᴰ
use wird.Prelude.{
  ℕ, HasEq, ◌≡◌, ◌≢◌, refl, ap, subst, Bool, true, false, not, ◌||◌, List, [], ◌∷◌, ◌++◌, map, ◌==◌,
  nat_eq, list_eq, list_beq_iff, contains, contains-append, Has, eqb_refl, length, get_or, any,
  nat_beq, All, ◌≤◌, ||-eq-true, arith, Bool-cases, inl, inr, if◌then◌else◌,
}
use wird.Root.Strip.Stems.{All-Memᴰ}
use wird.Text.{Word}
use wird.Text.Letters.{alef, ain, feh, lam}
use wird.Text.Unicode.{Unicode}
use wird.Root.Wazn.{
  Template, base_templates, templates, expand_templates, has_ain_lam, write_once, add_template,
}
use wird.Root.Pattern.{
  Triple, is_final, spell, spell_seconds, spell_thirds, radical_readings, second_readings,
  third_readings, roots_at, roots_of, readings, read_slots, apply, add_new, match_templates, hollow,
  match_pattern,
}

-- The spelling of a root in a shape.
abbrev pub inflect : Word → ℕ → ℕ → ℕ → Word
inflect shape f a l =
    map
      (λ s.
        if nat_beq s feh then f else if nat_beq s ain then a else if nat_beq s lam then l else s)
      shape

Has-spell_thirds :
    (f s l : ℕ) (thirds : List ℕ) → Has thirds l → Has (spell_thirds f s thirds) (f ∷ s ∷ l ∷ [])
Has-spell_thirds f s l [] h = cc
Has-spell_thirds f s l (x ∷ thirds) h =
    ground (arith, eqb_refl f, eqb_refl s, Has-spell_thirds f s l thirds)

Has-spell_seconds :
    (f s l : ℕ) (seconds thirds : List ℕ)
    → Has seconds s
    → Has thirds l
    → Has (spell_seconds f seconds thirds) (f ∷ s ∷ l ∷ [])
Has-spell_seconds f s l [] thirds h k = cc
Has-spell_seconds f s l (x ∷ seconds) thirds h k = ground (
  arith,
  contains-append (spell_thirds f x thirds) (spell_seconds f seconds thirds) (f ∷ s ∷ l ∷ []),
  Has-spell_thirds f s l thirds k,
  Has-spell_seconds f s l seconds thirds,
)

Has-spell :
    (f s l : ℕ) (firsts seconds thirds : List ℕ)
    → Has firsts f
    → Has seconds s
    → Has thirds l
    → Has (spell firsts seconds thirds) (f ∷ s ∷ l ∷ [])
Has-spell f s l [] seconds thirds h k m = cc
Has-spell f s l (x ∷ firsts) seconds thirds h k m = ground (
  arith,
  contains-append (spell_seconds x seconds thirds) (spell firsts seconds thirds) (f ∷ s ∷ l ∷ []),
  Has-spell_seconds f s l seconds thirds k m,
  Has-spell f s l firsts seconds thirds,
)

Has-append_left :
    {A : Type 0} ⦃e : HasEq A⦄ → (xs ys : List A) (a : A) → Has xs a → Has (xs ++ ys) a
Has-append_left xs ys a h = ground (arith, contains-append xs ys a)

-- A letter is always one of its own readings.
Has-radical_readings : (c : ℕ) (final : Bool) → Has (radical_readings c final) c
unfolding radical_readings
Has-radical_readings c final = ground (arith, eqb_refl c)

Has-second_readings : (c : ℕ) → c ≢ alef → Has (second_readings c) c
unfolding second_readings
Has-second_readings c h = ground (arith, Has-radical_readings c false)

Has-third_readings :
    (stem : Word) (at : Triple) → Has (third_readings stem at) (get_or stem at.third 0)
unfolding third_readings
Has-third_readings stem at =
    Has-append_left (radical_readings (get_or stem at.third 0) (is_final stem at)) _
      (get_or stem at.third 0) (Has-radical_readings (get_or stem at.third 0) (is_final stem at))

Has-roots_at :
    (stem : Word) (at : Triple)
    → get_or stem at.first 0 ≢ alef
    → get_or stem at.second 0 ≢ alef
    → get_or stem at.third 0 ≢ alef
    → Has
        (roots_at stem at)
        (get_or stem at.first 0 ∷ get_or stem at.second 0 ∷ get_or stem at.third 0 ∷ [])
unfolding roots_at
Has-roots_at stem at h k m = ground (
  arith,
  Has-spell (get_or stem at.first 0) (get_or stem at.second 0) (get_or stem at.third 0)
      (radical_readings (get_or stem at.first 0) false) (second_readings (get_or stem at.second 0))
      (third_readings stem at) (Has-radical_readings (get_or stem at.first 0) false)
      (Has-second_readings (get_or stem at.second 0) k) (Has-third_readings stem at),
)

Has-first_reading :
    (stem : Word) (at : Triple) (rest : List Triple) (f a l : ℕ)
    → (get_or stem at.first 0 ≡ f) × (f ≢ alef)
    → (get_or stem at.second 0 ≡ a) × (a ≢ alef)
    → (get_or stem at.third 0 ≡ l) × (l ≢ alef)
    → Has (roots_of stem (at ∷ rest)) (f ∷ a ∷ l ∷ [])
unfolding roots_of
Has-first_reading stem at rest f a l hf ha hl =
    Has-append_left (roots_at stem at) (roots_of stem rest) (f ∷ a ∷ l ∷ []) (
      subst (λ (x : ℕ). Has (roots_at stem at) (x ∷ a ∷ l ∷ [])) hf.0
        (subst (λ (y : ℕ). Has (roots_at stem at) (get_or stem at.first 0 ∷ y ∷ l ∷ [])) ha.0
          (subst
            (λ (z : ℕ).
              Has (roots_at stem at) (get_or stem at.first 0 ∷ get_or stem at.second 0 ∷ z ∷ []))
            hl.0 (Has-roots_at stem at (rw hf.0 hf.1) (rw ha.0 ha.1) (rw hl.0 hl.1)))))

abbrev plain_template : Word → Template
plain_template shape = record { shape = shape; doubled = false }

module _ (f a l : ℕ) (hf : f ≢ alef) (ha : a ≢ alef) (hl : l ≢ alef) where
  abbrev ReadsBack : Word → Type 0
  ReadsBack shape = Has (apply (plain_template shape) (inflect shape f a l)) (f ∷ a ∷ l ∷ [])

  base_ReadsBack : All ReadsBack base_templates
  unfolding apply read_slots readings
  base_ReadsBack = (
    Has-first_reading _ _ _ f a l (refl, hf) (refl, ha) (refl, hl),
    (
      Has-first_reading _ _ _ f a l (refl, hf) (refl, ha) (refl, hl),
      (
        Has-first_reading _ _ _ f a l (refl, hf) (refl, ha) (refl, hl),
        (
          Has-first_reading _ _ _ f a l (refl, hf) (refl, ha) (refl, hl),
          (
            Has-first_reading _ _ _ f a l (refl, hf) (refl, ha) (refl, hl),
            (
              Has-first_reading _ _ _ f a l (refl, hf) (refl, ha) (refl, hl),
              (
                Has-first_reading _ _ _ f a l (refl, hf) (refl, ha) (refl, hl),
                (
                  Has-first_reading _ _ _ f a l (refl, hf) (refl, ha) (refl, hl),
                  (
                    Has-first_reading _ _ _ f a l (refl, hf) (refl, ha) (refl, hl),
                    (
                      Has-first_reading _ _ _ f a l (refl, hf) (refl, ha) (refl, hl),
                      (
                        Has-first_reading _ _ _ f a l (refl, hf) (refl, ha) (refl, hl),
                        (Has-first_reading _ _ _ f a l (refl, hf) (refl, ha) (refl, hl), tt),
                      ),
                    ),
                  ),
                ),
              ),
            ),
          ),
        ),
      ),
    ),
  )

add_new_keeps : (w : Word) (out rs : List Word) → Has out w → Has (add_new out rs) w
unfolding add_new
add_new_keeps w out [] h = h
add_new_keeps w out (r ∷ rs) h = elim (Bool-cases (contains out r)) [
  | inl e ↦ rw e (add_new_keeps w out rs h)
  | inr e ↦ rw e (add_new_keeps w (out ++ r ∷ []) rs (Has-append_left out (r ∷ []) w h))
]

add_new_adds : (w : Word) (out rs : List Word) → Has rs w → Has (add_new out rs) w
unfolding add_new
add_new_adds w out [] h = cc
add_new_adds w out (r ∷ rs) h = elim (||-eq-true (w == r) (contains rs w) h) [
  | inr later ↦ add_new_adds w (if contains out r then out else out ++ r ∷ []) rs later
  | inl here ↦
      let same = (list_beq_iff w r).0 here in
      add_new_keeps w (if contains out r then out else out ++ r ∷ []) rs
        (ground (arith, same, contains-append out (r ∷ []) w, eqb_refl w))
]

match_templates_keeps :
    (w : Word) (ts : List Template) (letters : Word) (out : List Word)
    → Has out w
    → Has (match_templates ts letters out) w
unfolding match_templates
match_templates_keeps w [] letters out h = h
match_templates_keeps w (t ∷ ts) letters out h =
    match_templates_keeps w ts letters (add_new out (apply t letters))
      (add_new_keeps w out (apply t letters) h)

match_templates_adds :
    (w : Word) (t : Template) (ts : List Template) (letters : Word) (out : List Word)
    → Memᴰ t ts
    → Has (apply t letters) w
    → Has (match_templates ts letters out) w
unfolding match_templates
match_templates_adds w t [] letters out m h = absurd (Memᴰ.not-nil m)
match_templates_adds w t (s ∷ ts) letters out m h = elim (Memᴰ.cases_cons m) [
  | inl e ↦
      match_templates_keeps w ts letters (add_new out (apply s letters)) (
        add_new_adds w out (apply s letters)
          (subst (λ (r : Template). Has (apply r letters) w) e h))
  | inr later ↦ match_templates_adds w t ts letters (add_new out (apply s letters)) later h
]

add_long : (s : Word) → 4 ≤ length s → add_template (plain_template s) ≡ plain_template s ∷ []
unfolding add_template
add_long s h = ground arith

-- A shape of four letters or more is one of the templates that it expands to.
expanded :
    (shape : Word) (shapes : List Word)
    → All (λ s. 4 ≤ length s) shapes
    → Memᴰ shape shapes
    → Memᴰ (plain_template shape) (expand_templates shapes)
unfolding expand_templates
expanded shape [] h m = absurd (Memᴰ.not-nil m)
expanded shape (s ∷ shapes) h m = elim (Memᴰ.cases_cons m) [
  | inl e ↦
      let own : Memᴰ (plain_template shape) (add_template (plain_template s)) =
        rw (add_long s h.0) (Memᴰ.head (ap (λ (v : Word). plain_template v) e)) in
      Memᴰ.append_left (expand_templates shapes) (
        Memᴰ.append_left
          (if has_ain_lam s
            then add_template (record { shape = write_once s; doubled = true })
            else [])
          own)
  | inr later ↦ Memᴰ.append_right _ (expanded shape shapes h.1 later)
]

base_long : All (λ s. 4 ≤ length s) base_templates
base_long = omega arith

module _ (u : Unicode) (shape : Word) (f a l : ℕ) where
  -- Written into a base template, in letters of the Arabic script, a root none of whose radicals is
  -- an alef is among the readings of the spelling.
  pub match_pattern_reads_back :
      Memᴰ shape base_templates
      → f ≢ alef
      → a ≢ alef
      → l ≢ alef
      → any (λ r. not (u.is_letter r) || not (u.is_arabic r)) (inflect shape f a l) ≡ false
      → Has (match_pattern u (inflect shape f a l)) (f ∷ a ∷ l ∷ [])
  unfolding match_pattern templates
  match_pattern_reads_back m hf ha hl arabic = rw arabic (
      match_templates_adds (f ∷ a ∷ l ∷ []) (plain_template shape) (expand_templates base_templates)
        (inflect shape f a l) (hollow (inflect shape f a l))
        (expanded shape base_templates base_long m)
        (All-Memᴰ (ReadsBack f a l hf ha hl) base_templates shape (base_ReadsBack f a l hf ha hl)
          m))
