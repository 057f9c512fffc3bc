-- ===== src/Etl/Morphology/Places.antt =====
-- The segments of a word stand in the list at the places that the file numbers them by.
use wird.Prelude.{
  ◌≡◌, refl, sym, ap, ◌∙◌, ℕ, suc, ◌+◌, true, Option, none, some, List, [], ◌∷◌, ◌++◌, map, length,
  length-append, ◌==◌, nat_eq, list_eq, pair_eq, pair_beq_iff, subst, Bool-cases, Option-cases, inl,
  inr, arith, if◌then◌else◌,
}
use mathlib.Core.List.{append_assoc, append-nil}
use wird.Prelude.Attempt.{done, fail, >>=-eq-done}
use wird.Prelude.Map.{get, put, get-put}
use wird.Text.{Word, is_empty}
use wird.Text.Ascii.{ascii}
use wird.Text.Strings.{after_prefix}
use wird.Text.Decimal.{ℤ, pos, parse_int}
use wird.Etl.Ints.{int_eq, int_beq_iff}
use wird.Etl.Morphology.{
  Key, Read, Line, read_line, segs_at, note_root, features_loop, note_form, add_segment,
  is_numbered, place_in, take_line, take_read, lines_loop, misnumbered, text_at,
}

abbrev pub onto_lines : Key → Option Line → List Line → List Line
onto_lines key none rest = rest
onto_lines key (some l) rest = if l.key == key then l ∷ rest else rest

-- The lines of a word, in their order.
unfoldable pub lines_of : Key → List Word → List Line
lines_of key [] = []
lines_of key (text ∷ lines) = onto_lines key (read_line text) (lines_of key lines)

-- The lines number their segments one after the other, from `n` on.
abbrev pub IsNumbered : ℕ → List Line → Type 0
IsNumbered n [] = Unit {0}
IsNumbered n (l ∷ lines) = (parse_int l.number ≡ some (pos n)) × IsNumbered (suc n) lines

note_root_keeps :
    (key : Key) (features : List Word) (o : Option Word) (m : Read)
    → (note_root key features o m).segs ≡ m.segs
note_root_keeps key features none m = refl
note_root_keeps key features (some r) m = elim (Bool-cases (is_empty (text_at (get m.roots key)))) [
  | inl e ↦ rw e refl
  | inr e ↦ rw e refl
]

features_loop_keeps :
    (key : Key) (features rest : List Word) (m : Read)
    → (features_loop key features rest m).segs ≡ m.segs
unfolding features_loop
features_loop_keeps key features [] m = refl
features_loop_keeps key features (ft ∷ rest) m =
    features_loop_keeps key features rest _
    ∙ note_root_keeps key features (after_prefix ft (ascii "ROOT:")) m

note_form_keeps :
    (key : Key) (features : List Word) (m : Read) → (note_form key features m).segs ≡ m.segs
note_form_keeps key features m = elim (Bool-cases (is_empty (text_at (get m.forms key)))) [
  | inl e ↦ rw e refl
  | inr e ↦ rw e refl
]

is_numbered_inv : (o : Option ℤ) (n : ℕ) → is_numbered o n ≡ true → o ≡ some (pos n)
is_numbered_inv none n h = cc
is_numbered_inv (some sg) n h = ap some ((int_beq_iff sg (pos n)).0 h)

take_line_inv :
    (l : Line) (m : Read) {m' : Read}
    → take_line l m ≡ done m'
    → (parse_int l.number ≡ some (pos (place_in l m)))
      × (m'.segs ≡ put m.segs l.key (segs_at (get m.segs l.key) ++ l.segment ∷ []))
unfolding take_line
take_line_inv l m {m'} h = elim (Bool-cases (is_numbered (parse_int l.number) (place_in l m))) [
  | inr e ↦
      let bad : fail (misnumbered l.number (place_in l m)) ≡ done m' = (rw e at h) in absurd cc
  | inl e ↦
      let features = l.segment.features in
      let noted = features_loop l.key features features (add_segment l m) in
      let good : done (note_form l.key features noted) ≡ done m' = (rw e at h) in
      let same : note_form l.key features noted ≡ m' = cc in
      (
        is_numbered_inv (parse_int l.number) (place_in l m) e,
        sym (ap (λ (x : Read). x.segs) same)
            ∙ note_form_keeps l.key features noted
            ∙ features_loop_keeps l.key features features (add_segment l m),
      )
]

-- A file that is read lists each word's segments in the order of its lines, and numbers them by their
-- places in that list, from 1 on.
pub lines_loop_places :
    (lines : List Word) (m : Read) {m' : Read} (key : Key)
    → lines_loop lines m ≡ done m'
    → (segs_at (get m'.segs key)
        ≡ segs_at (get m.segs key) ++ map (λ (l : Line). l.segment) (lines_of key lines))
      × IsNumbered (length (segs_at (get m.segs key)) + 1) (lines_of key lines)
unfolding lines_loop lines_of
lines_loop_places [] m {m'} key h =
    let same : m ≡ m' = cc in
    (ap (λ (x : Read). segs_at (get x.segs key)) (sym same) ∙ sym (append-nil _), tt)
lines_loop_places (text ∷ lines) m key h =
    let (next, taken, rest) = >>=-eq-done (take_read (read_line text) m) _ h in
    let (listed, numbered) = lines_loop_places lines next key rest in
    elim (Option-cases (read_line text)) [
      | inl e ↦
          let kept : done m ≡ done next = (rw e at taken) in
          let same : m ≡ next = cc in rw (e, same) (listed, numbered)
      | inr (l, e) ↦
          let said : take_line l m ≡ done next = (rw e at taken) in
          let (number, put_there) = take_line_inv l m said in
          let read =
            ap (λ s. get s key) put_there
            ∙ get-put m.segs l.key key (segs_at (get m.segs l.key) ++ l.segment ∷ []) in
          elim (Bool-cases (l.key == key)) [
            | inl f ↦
                let own : l.key ≡ key = (pair_beq_iff l.key key).0 f in
                let now : get next.segs key ≡ some (segs_at (get m.segs l.key) ++ l.segment ∷ []) =
                  read ∙ rw f refl in
                let longer : segs_at (get next.segs key)
                    ≡ segs_at (get m.segs key) ++ l.segment ∷ [] =
                  ap segs_at now ∙ ap (λ k. segs_at (get m.segs k) ++ l.segment ∷ []) own in
                let one_more : length (segs_at (get next.segs key)) + 1
                    ≡ suc (length (segs_at (get m.segs key)) + 1) =
                  ap (λ x. length x + 1) longer
                  ∙ omega (arith, length-append (segs_at (get m.segs key)) (l.segment ∷ [])) in
                let first : parse_int l.number
                    ≡ some (pos (length (segs_at (get m.segs key)) + 1)) =
                  number ∙ ap (λ k. some (pos (length (segs_at (get m.segs k)) + 1))) own in
                rw (e, f)
                  (
                    listed
                        ∙ ap (λ x. x ++ map (λ (i : Line). i.segment) (lines_of key lines)) longer
                        ∙ append_assoc (segs_at (get m.segs key)) (l.segment ∷ [])
                            (map (λ (i : Line). i.segment) (lines_of key lines)),
                    (first, subst (λ n. IsNumbered n (lines_of key lines)) one_more numbered),
                  )
            | inr f ↦
                let now : get next.segs key ≡ get m.segs key = read ∙ rw f refl in
                let same : segs_at (get next.segs key) ≡ segs_at (get m.segs key) =
                  ap segs_at now in
                rw (e, f)
                  (
                    listed ∙ ap (λ x. x ++ map (λ (i : Line). i.segment) (lines_of key lines)) same,
                    subst (λ x. IsNumbered (length x + 1) (lines_of key lines)) same numbered,
                  )
          ]
    ]
