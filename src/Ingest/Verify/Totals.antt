-- ===== src/Ingest/Verify/Totals.antt =====
-- The count of untimed words that the manifest gives of a recitation and the one that the build holds
-- it to.
use wird.Prelude.{
  ◌≡◌, refl, sym, ap, subst, ◌∙◌, ℕ, zero, suc, ◌+◌, ◌≤◌, true, false, Option, none, some, List, [],
  ◌∷◌, ◌++◌, map, nat_eq, list_eq, pair_eq, All, Option-cases, inl, inr, arith,
}
use wird.Prelude.Attempt.{Attempt, done, fail, >>=-eq-done}
use wird.Prelude.Map.{Map, get}
use wird.Text.{Word}
use wird.Text.Decimal.{ℤ, pos}
use wird.Etl.Ints.{plus}
use wird.Etl.Spans.{Span, run, spans}
use wird.Etl.Rows.{Surah, Recitation, Recited, ayah_id, normalize_segments}
use wird.Etl.Recite.{
  AyahTimings, Timings, RecitationError, words_of, lift_spans, with_rows, recite_tuples,
  recite_ayah, recite_loop, visits, load_timings, within_untimed, load_recitation,
}
use wird.Etl.Recite.Blocks.{lift_spans_inv, within_untimed_inv}
use wird.Ingest.Order.{Chapter}
use wird.Ingest.Verify.{
  Tallies, verse_key, spans_loop, missing, with_split, with_audio, Counted, count_ayah,
  found_timings, found_words, count_segments, suras_loop, no_tallies, lift_load, no_problems,
  verify_recitation,
}
use wird.Ingest.Verify.Untimed.{untimed_agree}

-- The two counts of what has been read.
abbrev AreEqual : Counted → Recited → Type 0
AreEqual c r = r.untimed ≡ pos c.0.words_with_no_timing

spans_loop_keeps :
    (prev : Option ℤ) (out : List Span) (t : Tallies)
    → (spans_loop prev out t).words_with_no_timing ≡ t.words_with_no_timing
unfolding spans_loop
spans_loop_keeps prev [] t = refl
spans_loop_keeps prev (sp ∷ out) t = spans_loop_keeps (some sp.end_ms) out _

-- One aya.
ayah_agrees :
    (key : Word) (words surah ayah : ℕ) (raw : List (List ℤ)) (c : Counted) (r : Recited)
    {r' : Recited}
    → 1 ≤ words
    → AreEqual c r
    → recite_tuples r words surah ayah raw ≡ done r'
    → AreEqual (count_ayah key words raw (spans raw words) c) r'
unfolding plus
ayah_agrees key words surah ayah [] c r one same h = cc
ayah_agrees key words surah ayah (t ∷ raw) c r {r'} one same h =
    let (out, lifted, made) = >>=-eq-done (lift_spans surah ayah (spans (t ∷ raw) words)) _ h in
    let read = lift_spans_inv surah ayah (spans (t ∷ raw) words) lifted in
    let id = ayah_id surah ayah in
    let here : with_rows words (normalize_segments out id) r ≡ r' = cc in
    let agree = untimed_agree (t ∷ raw) words id out one read in
    let kept = spans_loop_keeps none out (with_split words (t ∷ raw) (with_audio c.0)) in
    let counted : (count_ayah key words (t ∷ raw) (spans (t ∷ raw) words) c).0.words_with_no_timing
        ≡ c.0.words_with_no_timing + missing words out =
      rw read (ground (arith, kept)) in
    sym (ap (λ (x : Recited). x.untimed) here) ∙ rw (same, agree) (ap pos (sym counted))

-- The word counts that the two were given are the same, one at least.
abbrev pub IsSame : Map Word ℕ → Map ℕ ℕ → ℕ × ℕ → Type 0
IsSame word_count words_per_ayah v =
    (1 ≤ words_of words_per_ayah v)
    × (get word_count (verse_key v.0 v.1) ≡ some (words_of words_per_ayah v))

found_agrees :
    (all : Timings) (word_count : Map Word ℕ) (words_per_ayah : Map ℕ ℕ) (v : ℕ × ℕ) (c : Counted)
    (r : Recited) {c' : Counted} {r' : Recited}
    → IsSame word_count words_per_ayah v
    → AreEqual c r
    → found_words (verse_key v.0 v.1) (get word_count (verse_key v.0 v.1)) (get all v) c ≡ done c'
    → recite_ayah all words_per_ayah r v ≡ done r'
    → AreEqual c' r'
unfolding recite_ayah
found_agrees all word_count words_per_ayah v c r {c'} {r'} given same h k =
    elim (Option-cases (get all v)) [
      | inl e ↦
          let bad : found_timings (verse_key v.0 v.1) (words_of words_per_ayah v) none c ≡ done c' =
            (rw (given.1, e) at h) in
          absurd cc
      | inr (raw, e) ↦
          let made : done (
                count_ayah (verse_key v.0 v.1) (words_of words_per_ayah v) raw
                  (spans raw (words_of words_per_ayah v)) c)
              ≡ done c' =
            (rw (given.1, e) at h) in
          let said : recite_tuples r (words_of words_per_ayah v) v.0 v.1 raw ≡ done r' =
            (rw e at k) in
          let here : count_ayah (verse_key v.0 v.1) (words_of words_per_ayah v) raw
                (spans raw (words_of words_per_ayah v)) c
              ≡ c' =
            cc in
          subst (λ x. AreEqual x r') here
            (ayah_agrees (verse_key v.0 v.1) (words_of words_per_ayah v) v.0 v.1 raw c r given.0
              same said)
    ]

abbrev ayahs_from : ℕ → ℕ → ℕ → List (ℕ × ℕ)
ayahs_from surah ayah n = map (λ a. (surah, a)) (run ayah n)

-- One sura.
segments_agree :
    (all : Timings) (word_count : Map Word ℕ) (words_per_ayah : Map ℕ ℕ) (surah ayah n : ℕ)
    (c : Counted) (r : Recited) {c' : Counted} {r' : Recited}
    → All (IsSame word_count words_per_ayah) (ayahs_from surah ayah n)
    → AreEqual c r
    → count_segments surah all word_count ayah n c ≡ done c'
    → recite_loop all words_per_ayah r (ayahs_from surah ayah n) ≡ done r'
    → AreEqual c' r'
unfolding count_segments recite_loop run
segments_agree all word_count words_per_ayah surah ayah zero c r {c'} {r'} given same h k =
    let a : c ≡ c' = cc in
    let b : r ≡ r' = cc in
    sym (ap (λ (x : Recited). x.untimed) b)
    ∙ same
    ∙ ap (λ (x : Counted). pos x.0.words_with_no_timing) a
segments_agree all word_count words_per_ayah surah ayah (suc n) c r given same h k =
    let (c1, found, later) =
      >>=-eq-done
        (found_words (verse_key surah ayah) (get word_count (verse_key surah ayah))
          (get all (surah, ayah)) c)
        _ h in
    let (r1, recited, rest) = >>=-eq-done (recite_ayah all words_per_ayah r (surah, ayah)) _ k in
    segments_agree all word_count words_per_ayah surah (suc ayah) n c1 r1 given.1
      (found_agrees all word_count words_per_ayah (surah, ayah) c r given.0 same found recited)
      later rest

recite_loop_append :
    (all : Timings) (words_per_ayah : Map ℕ ℕ) (r : Recited) (vs ws : List (ℕ × ℕ)) {r' : Recited}
    → recite_loop all words_per_ayah r (vs ++ ws) ≡ done r'
    → (r1 : Recited) × (recite_loop all words_per_ayah r vs ≡ done r1)
      × (recite_loop all words_per_ayah r1 ws ≡ done r')
unfolding recite_loop
recite_loop_append all words_per_ayah r [] ws h = (r, refl, h)
recite_loop_append all words_per_ayah r (v ∷ vs) ws h =
    let (r1, first, rest) = >>=-eq-done (recite_ayah all words_per_ayah r v) _ h in
    let (r2, middle, last) = recite_loop_append all words_per_ayah r1 vs ws rest in
    (r2, rw first middle, last)

-- The suras that the two were given are the same, and so are the word counts of their ayas.
abbrev pub AreSame : List (Chapter × Map Word ℕ) → Map ℕ ℕ → List Surah → Type 0
AreSame [] words_per_ayah [] = Unit {0}
AreSame [] words_per_ayah (su ∷ surahs) = true ≡ false
AreSame (p ∷ suras) words_per_ayah [] = true ≡ false
AreSame (p ∷ suras) words_per_ayah (su ∷ surahs) =
    (p.0.id ≡ su.id)
    × (p.0.verses_count ≡ su.ayah_count)
    × All (IsSame p.1 words_per_ayah) (map (λ a. (su.id, a)) (run 1 su.ayah_count))
    × AreSame suras words_per_ayah surahs

suras_agree :
    (all : Timings) (words_per_ayah : Map ℕ ℕ) (suras : List (Chapter × Map Word ℕ))
    (surahs : List Surah) (c : Counted) (r : Recited) {c' : Counted} {r' : Recited}
    → AreSame suras words_per_ayah surahs
    → AreEqual c r
    → suras_loop all suras c ≡ done c'
    → recite_loop all words_per_ayah r (visits surahs) ≡ done r'
    → AreEqual c' r'
unfolding suras_loop visits recite_loop
suras_agree all words_per_ayah [] [] c r {c'} {r'} given same h k =
    let a : c ≡ c' = cc in
    let b : r ≡ r' = cc in
    sym (ap (λ (x : Recited). x.untimed) b)
    ∙ same
    ∙ ap (λ (x : Counted). pos x.0.words_with_no_timing) a
suras_agree all words_per_ayah [] (su ∷ surahs) c r given same h k = absurd cc
suras_agree all words_per_ayah (p ∷ suras) [] c r given same h k = absurd cc
suras_agree all words_per_ayah ((ch, word_count) ∷ suras) (su ∷ surahs) c r given same h k =
    let (r1, first, last) =
      recite_loop_append all words_per_ayah r (map (λ a. (su.id, a)) (run 1 su.ayah_count))
        (visits surahs) k in
    let (c1, counted, rest) =
      >>=-eq-done (count_segments ch.id all word_count 1 ch.verses_count c) _ h in
    let here : count_segments su.id all word_count 1 su.ayah_count c ≡ done c1 =
      (rw (given.0, given.1) at counted) in
    suras_agree all words_per_ayah suras surahs c1 r1 given.3
      (segments_agree all word_count words_per_ayah su.id 1 su.ayah_count c r given.2 same here
        first)
      rest last

lift_load_inv :
    (m : Attempt RecitationError Timings) {all : Timings} → lift_load m ≡ done all → m ≡ done all
lift_load_inv (done t) h = cc
lift_load_inv (fail e) h = cc

no_problems_inv : (c : Counted) {t : Tallies} → no_problems c ≡ done t → c.0 ≡ t
no_problems_inv (t, []) h = cc
no_problems_inv (t, p ∷ problems) h = cc

-- For the same suras and word counts, if the ingest and the build both let a recitation pass, the
-- number of untimed words in the manifest is the one that the build has.
pub untimed_totals_agree :
    (file : Option (List AyahTimings)) (rec : Recitation) (suras : List (Chapter × Map Word ℕ))
    (surahs : List Surah) (words_per_ayah : Map ℕ ℕ) {t : Tallies} {r : Recited}
    → AreSame suras words_per_ayah surahs
    → verify_recitation file suras ≡ done t
    → load_recitation file rec surahs words_per_ayah ≡ done r
    → r.untimed ≡ pos t.words_with_no_timing
unfolding verify_recitation load_recitation
untimed_totals_agree file rec suras surahs words_per_ayah {t} {r} given h k =
    let (all, loaded, rest) = >>=-eq-done (lift_load (load_timings file)) _ h in
    let (c, counted, clean) =
      >>=-eq-done (suras_loop all suras (no_tallies, [])) no_problems rest in
    let (all', loaded', rest') = >>=-eq-done (load_timings file) _ k in
    let (last, looped, judged) =
      >>=-eq-done (recite_loop all' words_per_ayah _ (visits surahs)) within_untimed rest' in
    let one : done all ≡ done all' = sym (lift_load_inv (load_timings file) loaded) ∙ loaded' in
    let these : all ≡ all' = cc in
    let here = (rw (← these) at looped) in
    let same =
      suras_agree all words_per_ayah suras surahs (no_tallies, []) _ given refl counted here in
    sym (ap (λ (x : Recited). x.untimed) (within_untimed_inv last judged).0)
    ∙ same
    ∙ ap (λ (x : Tallies). pos x.words_with_no_timing) (no_problems_inv c clean)
