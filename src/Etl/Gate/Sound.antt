-- ===== src/Etl/Gate/Sound.antt =====
-- What the first half of check of server/cmd/etl/check.go, on the rows, finds nothing in.
use wird.Prelude.{
  ◌≡◌, ℕ, ◌↔◌, ◌⊎◌, Bool, true, false, not, ◌&&◌, none, List, [], ◌∷◌, map, any, length, contains,
  nat_eq, list_eq, All, append-nil_iff, ltb, arith,
}
use wird.Text.{Word}
use wird.Text.Strings.{holds}
use wird.Etl.Rows.{Recited}
use wird.Etl.Corpus.{Corpus, CorpusWord, Audio, RootRow}
use wird.Etl.Gate.{
  when, markers, misses, count_errors, orphan_segments, audio_error, not_relative, root_error,
  is_nil, nothing_recited, is_default, no_default, wbw_error, check_rows,
}
use wird.Text.Trim.{is_empty-nil}
use wird.Etl.Gate.Facts.{full_nil, first_nil, recited_loop-nil, IsForward}

-- The facts about the rows: the notices are carried, a full corpus has its counts, every path is
-- relative, every root named is in the roots table, and of the recitations, which go forward, one is
-- the reciter that the app falls back to.
abbrev pub IsSound : Corpus → Bool → Type 0
IsSound c full =
    All (λ m. holds c.notice m ≡ true) markers
    × (full ≡ true
        → (length c.surahs ≡ 114) × (length c.ayahs ≡ 6236) × (length c.audio ≡ length c.ayahs))
    × (c.orphans ≡ 0)
    × All (λ (a : Audio). not_relative a.rel_path ≡ false) c.audio
    × All
        (λ (w : CorpusWord).
          (w.root_letters ≡ [])
          ⊎ (contains (map (λ (r : RootRow). r.letters) c.roots) w.root_letters ≡ true))
        c.words
    × All (λ r. IsForward (map (λ (w : CorpusWord). w.id) c.words) [] r.segments) c.recited
    × (any is_default c.recited ≡ true)
    × All (λ (w : CorpusWord). not_relative w.wbw_path ≡ false) c.words

marker_none : (notice marker : Word) → (misses notice marker ≡ none) ↔ (holds notice marker ≡ true)
marker_none notice marker = ground arith

audio_none : (a : Audio) → (audio_error a ≡ none) ↔ (not_relative a.rel_path ≡ false)
audio_none a = ground arith

wbw_none : (w : CorpusWord) → (wbw_error w ≡ none) ↔ (not_relative w.wbw_path ≡ false)
wbw_none w = ground arith

root_none :
    (known : List Word) (w : CorpusWord)
    → (root_error known w ≡ none) ↔ ((w.root_letters ≡ []) ⊎ (contains known w.root_letters ≡ true))
root_none known w = ground (arith, is_empty-nil w.root_letters)

counts_nil :
    (c : Corpus)
    → (count_errors c ≡ [])
      ↔ ((length c.surahs ≡ 114) × (length c.ayahs ≡ 6236) × (length c.audio ≡ length c.ayahs))
counts_nil c = ground arith

orphans_nil : (n : ℕ) → (when (ltb 0 n) (orphan_segments n) ≡ []) ↔ (n ≡ 0)
orphans_nil n = ground arith

default_nil :
    (rs : List Recited)
    → ((when (is_nil rs) nothing_recited ≡ [])
        × (when (not (is_nil rs) && not (any is_default rs)) no_default ≡ []))
      ↔ (any is_default rs ≡ true)
default_nil [] = (λ h. cc, λ h. cc)
default_nil (r ∷ rs) = ground arith

same_iff : {P : Type 0} → P ↔ P
same_iff = (λ p. p, λ p. p)

-- Check finds nothing in the rows exactly if the notice has each marker, a full corpus has 114 suras,
-- 6236 ayas and as many files of audio as ayas, no segment is orphaned, paths are relative, the roots
-- that words name are in the table, and the recitations go forward, among them the default.
pub check_rows_exact : (c : Corpus) (full : Bool) → (check_rows c full ≡ []) ↔ IsSound c full
unfolding check_rows
check_rows_exact c full =
    let letters = map (λ (r : RootRow). r.letters) c.roots in
    let ids = map (λ (w : CorpusWord). w.id) c.words in
    let notices = first_nil (misses c.notice) _ markers (marker_none c.notice) in
    let counts = full_nil full (count_errors c) _ (counts_nil c) in
    let audio = first_nil audio_error _ c.audio audio_none in
    let roots = first_nil (root_error letters) _ c.words (root_none letters) in
    let forward = recited_loop-nil ids c.recited in
    let paths = first_nil wbw_error _ c.words wbw_none in
    let fallback = default_nil c.recited in
    let parts =
      append-nil_iff _ _ _ _
        (append-nil_iff _ _ _ _
          (append-nil_iff _ _ _ _
            (append-nil_iff _ _ _ _
              (append-nil_iff _ _ _ _
                (append-nil_iff _ _ _ _
                  (append-nil_iff _ _ _ _ (append-nil_iff _ _ _ _ notices counts)
                    (orphans_nil c.orphans))
                  audio)
                roots)
              same_iff)
            forward)
          same_iff)
        paths in
    (
      λ e.
          let ((((((((n, k), o), a), r), x), f), y), w) = parts.0 e in
          (n, k, o, a, r, f, fallback.0 (x, y), w),
      λ (n, k, o, a, r, f, d, w).
          let (x, y) = fallback.1 d in parts.1 ((((((((n, k), o), a), r), x), f), y), w),
    )
