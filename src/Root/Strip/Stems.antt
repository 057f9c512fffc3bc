-- ===== src/Root/Strip/Stems.antt =====
-- `strip_affixes` returns exactly the words that peeling reaches, the least peeled first.
use mathlib.Core.Bool.{and-true}
use mathlib.Core.List.{Memᴰ}
use mathlib.Core.List.Memᴰ
use wird.Prelude.{
  ℕ, ◌<◌, ◌≡◌, ◌↔◌, refl, sym, ap, subst, ◌∙◌, inl, inr, not, ◌&&◌, List, [], ◌∷◌, map, Option,
  none, some, arith, length, length-append, contains, Has, IsNodup, eqb_refl, nat_eq, list_eq,
  list_beq, list_beq_iff, pair_eq, pair_beq, pair_beq_iff, All, Bool-cases, List-cases, ||-eq-true,
}
use wird.Prelude.Sort.{sort, contains-map-sort}
use wird.Text.{Word}
use wird.Root.Strip.{
  Span, Prefix, bounds, slice, whole, walk, strip_prefixes, strip_suffixes, span_leb,
  distinct_stems, ranked, strip_affixes,
}
use wird.Root.Strip.Slice.{slice-whole}
use wird.Root.Strip.Spec.{Peel, Peeled, front, back, once, more}
use wird.Root.Strip.Peels.{part}
use wird.Root.Strip.Exact.{IsFound, walk-IsFound, walk-IsRecorded, reached_visited}

-- A clitic has a letter, so peeling shortens.
pub All-Memᴰ {ℓ} : {A : Type ℓ} (P : A → Type 0) (xs : List A) (a : A) → All P xs → Memᴰ a xs → P a
All-Memᴰ P [] a h m = absurd (Memᴰ.not-nil m)
All-Memᴰ P (x ∷ xs) a h m = elim (Memᴰ.cases_cons m) [
  | inl e ↦ subst P (sym e) h.0
  | inr later ↦ All-Memᴰ P xs a h.1 later
]

prefix_nonempty : (p : Prefix) → Memᴰ p strip_prefixes → 0 < length p.text
prefix_nonempty p m = All-Memᴰ (λ q. 0 < length q.text) strip_prefixes p (omega arith) m

suffix_nonempty : (q : Word) → Memᴰ q strip_suffixes → 0 < length q
suffix_nonempty q m = All-Memᴰ (λ r. 0 < length r) strip_suffixes q (omega arith) m

Peel-shortens : {w stem : Word} → Peel w stem → length stem < length w
Peel-shortens {stem} (front p m sit e long) =
    omega (arith, ap length e, length-append p.text stem, prefix_nonempty p m)
Peel-shortens {stem} (back q m e long) =
    omega (arith, ap length e, length-append stem q, suffix_nonempty q m)

pub Peeled-shortens : {w stem : Word} → Peeled w stem → length stem < length w
Peeled-shortens (once p) = Peel-shortens p
Peeled-shortens (more ps p) = omega (arith, Peeled-shortens ps, Peel-shortens p)

module _ (rs : Word) where
  -- The last loop keeps every stem that is not out already.
  contains-distinct_stems :
      (taken : List Word) (spans : List Span) (stem : Word)
      → contains (distinct_stems rs taken spans) stem
        ≡ (contains (map (part rs) spans) stem && not (contains taken stem))
  unfolding distinct_stems
  contains-distinct_stems taken [] stem = refl
  contains-distinct_stems taken (s ∷ spans) stem = ground (
    arith,
    list_beq_iff stem (part rs s),
    contains-distinct_stems taken spans stem,
    contains-distinct_stems (part rs s ∷ taken) spans stem,
  )

  pub distinct_stems-IsNodup :
      (taken : List Word) (spans : List Span) → IsNodup (distinct_stems rs taken spans)
  unfolding distinct_stems
  distinct_stems-IsNodup taken [] = tt
  distinct_stems-IsNodup taken (s ∷ spans) = elim (Bool-cases (contains taken (part rs s))) [
    | inl e ↦ rw e (distinct_stems-IsNodup taken spans)
    | inr e ↦ rw e (
      ground (
        arith,
        contains-distinct_stems (part rs s ∷ taken) spans (part rs s),
        eqb_refl (part rs s),
      ),
      distinct_stems-IsNodup (part rs s ∷ taken) spans,
    )
  ]

  found_Peeled :
      (spans : List Span) (stem : Word)
      → All (IsFound rs) spans
      → Has (map (part rs) spans) stem
      → Peeled rs stem
  found_Peeled [] stem h m = cc
  found_Peeled (s ∷ spans) stem h m =
      elim (||-eq-true (list_beq stem (part rs s)) (contains (map (part rs) spans) stem) m) [
        | inl here ↦ subst (Peeled rs) (sym ((list_beq_iff stem (part rs s)).0 here)) h.0.0
        | inr later ↦ found_Peeled spans stem h.1 later
      ]

  -- Bounds among those of the spans give the word among theirs.
  Has-part :
      (spans : List Span) (q : ℕ × ℕ)
      → Has (map bounds spans) q
      → Has (map (part rs) spans) (slice rs q.0 q.1)
  Has-part [] q m = cc
  Has-part (s ∷ spans) q m =
      elim (||-eq-true (pair_beq q (bounds s)) (contains (map bounds spans) q) m) [
        | inl here ↦
            let same = (pair_beq_iff q (bounds s)).0 here in
            ground (
              arith,
              (list_beq_iff (slice rs q.0 q.1) (part rs s)).1
                  (ap (λ (p : ℕ × ℕ). slice rs p.0 p.1) same),
            )
        | inr later ↦ ground (arith, Has-part spans q later)
      ]

  Peeled-found : (stem : Word) → Peeled rs stem → Has (map (part rs) (walk rs).found) stem
  Peeled-found stem p =
      let (q, m, cut) = reached_visited rs stem p in
      let listed : Has (bounds (whole rs) ∷ map bounds (walk rs).found) q =
        subst (λ l. Has l q) (walk-IsRecorded rs) m in
      elim (||-eq-true (pair_beq q (bounds (whole rs))) (contains (map bounds (walk rs).found) q)
        listed) [
          | inl here ↦
              let same =
                ap (λ (b : ℕ × ℕ). slice rs b.0 b.1)
                  ((pair_beq_iff q (bounds (whole rs))).0 here) in
              absurd (omega (arith, Peeled-shortens p, ap length (sym cut ∙ same ∙ slice-whole rs)))
          | inr later ↦
              subst (Has (map (part rs) (walk rs).found)) cut (Has-part (walk rs).found q later)
        ]

abbrev pub listed : Option (List Word) → List Word
listed none = []
listed (some out) = out

-- The stems, none if there is nothing to peel.
abbrev pub stems : Word → List Word
stems word = listed (strip_affixes word)

contains-ranked :
    (word : Word) (found : List Span) (stem : Word)
    → contains (listed (ranked word found)) stem ≡ contains (map (part word) found) stem
unfolding ranked
contains-ranked word [] stem = refl
contains-ranked word (s ∷ rest) stem =
    contains-distinct_stems word [] (sort span_leb (s ∷ rest)) stem
    ∙ and-true _
    ∙ contains-map-sort span_leb (part word) (s ∷ rest) stem

contains-stems :
    (word stem : Word)
    → contains (stems word) stem ≡ contains (map (part word) (walk word).found) stem
unfolding strip_affixes
contains-stems word stem = contains-ranked word (walk word).found stem

-- A stem comes out exactly if peeling reaches it.
pub stems_exact : (word stem : Word) → Has (stems word) stem ↔ Peeled word stem
stems_exact word stem = (
  λ m.
      found_Peeled word (walk word).found stem (walk-IsFound word)
        (sym (contains-stems word stem) ∙ m),
  λ p. contains-stems word stem ∙ Peeled-found word stem p,
)

ranked-eq-none : (word : Word) (found : List Span) → ranked word found ≡ none → found ≡ []
unfolding ranked
ranked-eq-none word [] e = refl
ranked-eq-none word (s ∷ rest) e = cc

-- A miss means that nothing can be peeled.
pub strip_affixes_miss :
    (word : Word) → (strip_affixes word ≡ none) ↔ ((stem : Word) → ¬ Peeled word stem)
unfolding strip_affixes ranked
strip_affixes_miss word = (
  λ e stem p.
      let empty = ranked-eq-none word (walk word).found e in
      cc (subst (λ l. Has (map (part word) l) stem) empty (Peeled-found word stem p)),
  λ h. elim (List-cases (walk word).found) [
    | inl e ↦ ap (ranked word) e
    | inr (s, rest, e) ↦
        absurd (h (part word s) (subst (All (IsFound word)) e (walk-IsFound word)).0.0)
  ],
)
