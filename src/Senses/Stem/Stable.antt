-- ===== src/Senses/Stem/Stable.antt =====
-- The stripping of suffixes ends because nothing is left to strip.
use wird.Prelude.{
  ◌≡◌, sym, ap, subst, ◌∙◌, ◌+◌, true, false, List, [], ◌∷◌, ◌++◌, none, some, Option-cases, All,
  length, drop, ℕ, zero, suc, ◌-◌, ◌≤◌, ◌<◌, arith, leb, leb→le, length-take, take++drop,
  &&-eq-true, Bool-cases, inl, inr,
}
use mathlib.Core.List.{append_assoc, append-nil}
use wird.Text.{Word}
use wird.Senses.English.{suffixes}
use wird.Senses.Stem.{has_suffix, least, can_strip, strip_one, strip_all, stripped, cut}

suffixes_filled : All (λ suf. 0 < length suf) suffixes
unfolding suffixes
suffixes_filled = omega arith

least_three : (suf : Word) → 3 ≤ least suf
unfolding least
least_three suf = ground arith

-- What one round leaves: a proper beginning, of three letters at least.
record IsShorter (w v : Word) : Type 0 where
  less : length v < length w
  long : 3 ≤ length v
  rest : Word
  split : w ≡ v ++ rest

cut-IsShorter :
    (w suf : Word) → 0 < length suf → can_strip w suf ≡ true → IsShorter w (cut (length suf) w)
unfolding can_strip
cut-IsShorter w suf filled e =
    let room : length suf + least suf ≤ length w =
      leb→le (length suf + least suf) (length w)
        (&&-eq-true (has_suffix w suf) (leb (length suf + least suf) (length w)) e).1 in
    record {
      less = omega (arith, length-take (length w - length suf) w, least_three suf);
      long = omega (arith, length-take (length w - length suf) w, least_three suf);
      rest = drop (length w - length suf) w;
      split = sym (take++drop (length w - length suf) w);
    }

strip_one-IsShorter :
    (sufs : List Word) (w v : Word)
    → All (λ suf. 0 < length suf) sufs
    → strip_one sufs w ≡ some v
    → IsShorter w v
unfolding strip_one
strip_one-IsShorter [] w v filled e = cc
strip_one-IsShorter (suf ∷ sufs) w v filled e = elim (Bool-cases (can_strip w suf)) [
  | inl can ↦
      let same : cut (length suf) w ≡ v = ground (arith, can, e) in
      subst (IsShorter w) same (cut-IsShorter w suf filled.0 can)
  | inr cannot ↦
      let later : strip_one sufs w ≡ some v = ground (arith, cannot, e) in
      strip_one-IsShorter sufs w v filled.1 later
]

strip_one-none :
    (sufs : List Word) (w : Word)
    → strip_one sufs w ≡ none
    → All (λ suf. can_strip w suf ≡ false) sufs
unfolding strip_one
strip_one-none [] w e = tt
strip_one-none (suf ∷ sufs) w e = ground (arith, strip_one-none sufs w)

-- What the rounds leave of a word.
record IsStripped (w v : Word) : Type 0 where
  no_more : All (λ suf. can_strip v suf ≡ false) suffixes
  long : 3 ≤ length w → 3 ≤ length v
  rest : Word
  split : w ≡ v ++ rest

at_rest : (w : Word) → strip_one suffixes w ≡ none → IsStripped w w
at_rest w e = record {
  no_more = strip_one-none suffixes w e;
  long = λ h. h;
  rest = [];
  split = sym (append-nil w);
}

one_more : (w v u : Word) → IsShorter w v → IsStripped v u → IsStripped w u
one_more w v u h k = record {
  no_more = k.no_more;
  long = λ l. k.long h.long;
  rest = k.rest ++ h.rest;
  split = h.split ∙ ap (λ l. l ++ h.rest) k.split ∙ append_assoc u k.rest h.rest;
}

strip_all-IsStripped : (fuel : ℕ) (w : Word) → length w ≤ fuel → IsStripped w (strip_all fuel w)
unfolding strip_all
strip_all-IsStripped zero w h = elim (Option-cases (strip_one suffixes w)) [
  | inl e ↦ at_rest w e
  | inr (v, e) ↦
      let shorter = strip_one-IsShorter suffixes w v suffixes_filled e in
      absurd (omega (arith, shorter.less))
]
strip_all-IsStripped (suc fuel) w h = elim (Option-cases (strip_one suffixes w)) [
  | inl e ↦ rw (e, strip_all) (at_rest w e)
  | inr (v, e) ↦
      let shorter = strip_one-IsShorter suffixes w v suffixes_filled e in
      rw (e, strip_all)
        (one_more w v _ shorter (strip_all-IsStripped fuel v (omega (arith, shorter.less))))
]

-- The stripping of suffixes leaves a beginning of the word which no suffix of the table can be taken
-- off any more, and no fewer than three letters of a word of three or more.
pub stripped-IsStripped :
    (w : Word)
    → All (λ suf. can_strip (stripped w) suf ≡ false) suffixes
      × (3 ≤ length w → 3 ≤ length (stripped w))
      × ((rest : Word) × (w ≡ stripped w ++ rest))
unfolding stripped
stripped-IsStripped w =
    let s = strip_all-IsStripped (length w) w (omega arith) in
    (s.no_more, s.long, (s.rest, s.split))
