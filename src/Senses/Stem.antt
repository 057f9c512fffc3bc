-- ===== src/Senses/Stem.antt =====
-- The stemmer of server/internal/rootsense/score.go, tokens, related and Content. Text is lower case
-- ASCII wherever the stemmer sees it, so a byte is a code point.
pub mod Stable
use Prim.Native.String.{String}
use wird.Prelude.{
  ℕ, zero, suc, ◌+◌, ◌-◌, Bool, true, false, not, ◌&&◌, ◌||◌, List, [], ◌∷◌, ◌++◌, Option, none,
  some, length, take, drop, leb, ltb, between, any, contains, ◌==◌, nat_eq, list_eq, if◌then◌else◌,
}
use wird.Prelude.Map.{get}
use wird.Prelude.Sort.{sort}
use wird.Text.{Word, is_empty, word_leb}
use wird.Text.Ascii.{ascii}
use wird.Senses.English.{stop_words, suffixes, irregular}

-- strings.HasSuffix and strings.HasPrefix
unfoldable pub has_suffix : Word → Word → Bool
has_suffix w suf = leb (length suf) (length w) && (drop (length w - length suf) w == suf)

unfoldable pub has_prefix : Word → Word → Bool
has_prefix w prefix = leb (length prefix) (length w) && (take (length prefix) w == prefix)

-- w[:len(w)-n]
abbrev pub cut : ℕ → Word → Word
cut n w = take (length w - n) w

unfoldable pub plural : Word → Word
plural w =
    if has_suffix w (ascii "ies") && leb 5 (length w)
    then cut 3 w ++ ascii "i"
    else if has_suffix w (ascii "sses")
        || (has_suffix w (ascii "xes")
            || (has_suffix w (ascii "zes")
                || (has_suffix w (ascii "ches") || has_suffix w (ascii "shes"))))
    then cut 2 w
    else if has_suffix w (ascii "s") && (not (has_suffix w (ascii "ss")) && leb 4 (length w))
    then cut 1 w
    else w

-- The letters that a suffix leaves at least.
unfoldable pub least : Word → ℕ
least suf = if suf == ascii "ly" then 4 else 3

unfoldable pub can_strip : Word → Word → Bool
can_strip w suf = has_suffix w suf && leb (length suf + least suf) (length w)

-- The inner loop: the first suffix that can go.
unfoldable pub strip_one : List Word → Word → Option Word
strip_one [] w = none
strip_one (suf ∷ sufs) w =
    let rest = strip_one sufs w in if can_strip w suf then some (cut (length suf) w) else rest

-- The outer loop. Each round takes a letter at least.
unfoldable pub strip_all : ℕ → Word → Word
strip_all zero w = w
strip_all (suc fuel) w = elim (strip_one suffixes w) [
  | none ↦ w
  | some shorter ↦ strip_all fuel shorter
]

unfoldable pub stripped : Word → Word
stripped w = strip_all (length w) w

abbrev pub or_same : Word → Option Word → Word
or_same w none = w
or_same w (some base) = base

-- "y" goes to "i", and a silent "e" goes.
unfoldable pub end_y : Word → Word
end_y w = if has_suffix w (ascii "y") then cut 1 w ++ ascii "i" else w

unfoldable pub silent_e : Word → Word
silent_e w = if has_suffix w (ascii "e") && ltb 3 (length w) then cut 1 w else w

unfoldable pub stem : Word → Word
stem w = silent_e (end_y (stripped (plural (or_same w (get irregular w)))))

-- FindAllString of [a-z]+, before a run of letters that is read already.
abbrev pub with_run : Word → List Word → List Word
with_run run words = if is_empty run then words else run ∷ words

unfoldable pub find_words : Word → Word → List Word
find_words run [] = with_run run []
find_words run (c ∷ text) =
    let longer = find_words (run ++ c ∷ []) text in
    let rest = find_words [] text in if between 0x61 0x7A c then longer else with_run run rest

-- The loop of tokens, on the words that were found.
unfoldable pub stems_of : List Word → List Word
stems_of [] = []
stems_of (w ∷ words) =
    let rest = stems_of words in
    if ltb 2 (length w) && not (contains stop_words w) then stem w ∷ rest else rest

-- `to_lower` is strings.ToLower.
module _ (to_lower : Word → Word) where
  unfoldable pub tokens : Word → List Word
  tokens s = stems_of (find_words [] (to_lower s))

unfoldable pub related : Word → Word → Bool
related sense gloss =
    (sense == gloss)
    || ((leb 4 (length sense) && has_prefix gloss sense)
        || (leb 4 (length gloss) && has_prefix sense gloss))

-- The loop of Content.
unfoldable pub distinct_onto : List Word → List Word → List Word
distinct_onto out [] = out
distinct_onto out (t ∷ stems) = distinct_onto (if contains out t then out else out ++ t ∷ []) stems

unfoldable pub content : (Word → Word) → Word → List Word
content to_lower sense = sort word_leb (distinct_onto [] (tokens to_lower sense))
