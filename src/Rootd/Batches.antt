-- ===== src/Rootd/Batches.antt =====
-- A batch is answered word by word, or not at all.
use Prim.Native.String.{String}
use wird.Prelude.{
  ◌≡◌, refl, ap, ◌∙◌, Bool, true, false, List, [], ◌∷◌, map, some, length, any, arith, ◌≤◌,
  Bool-cases, inl, inr, le→not-ltb, if◌then◌else◌,
}
use wird.Prelude.Attempt.{Attempt, done, fail}
use mathlib.Core.Path.{ap₂}
use wird.Text.{Word, is_empty, trim_space}
use wird.Text.Trim.{trim_space_idem, is_empty-nil}
use wird.Root.Types.{Result, NoRootError}
use wird.Root.Resolve.{Failure, not_arabic, no_root, store_error, is_arabic_word, arabic_letters}
use wird.Root.Resolve.Ladder.{resolve_word as resolved, resolve, resolve_trimmed}
use wird.Rootd.Answers.{
  ApiError, Reply, BatchItem, Http, internal, plain_error, api_error_for, result, error, of_batch,
  write_json, write_error, Response, of_result,
}
use wird.Rootd.Service.{
  max_batch_words, Server, langs_of, is_internal, batch_item, batch_items, write_batch,
  write_answer, resolve_word, resolve_batch,
}

-- What one word is answered with on its own.
abbrev pub reply_of : Attempt Failure Result → Reply
reply_of (done r) = result r
reply_of (fail f) = error (api_error_for f)

-- A failure of the server and not of the word.
abbrev pub is_outage : Attempt Failure Result → Bool
is_outage (fail (store_error f)) = true
is_outage (fail not_arabic) = false
is_outage (fail (no_root e)) = false
is_outage (done r) = false

abbrev pub outage : ApiError
outage = plain_error 500 internal

module _ {F : Type 0} (h : Http) (s : Server F) (langs : List Word) where
  abbrev pub item : Word → BatchItem
  item word = record { input = word; reply = reply_of (resolved s.unicode s.store word langs) }

  abbrev pub outage_at : Word → Bool
  outage_at word = is_outage (resolved s.unicode s.store word langs)

  abbrev all_items : List Word → Attempt ApiError (List BatchItem)
  all_items words = if any outage_at words then fail outage else done (map item words)

  module _ (word : Word) (items : List BatchItem) where
    abbrev following : Bool → Attempt ApiError (List BatchItem)
    following b = if b then fail outage else done items

    api_error_for_word : (e : NoRootError) → is_internal h s (api_error_for (no_root e)) ≡ false
    unfolding api_error_for
    api_error_for_word e = ground arith

    batch_item_of :
        (b : Bool) (m : Attempt Failure Result)
        → batch_item h s word (following b) m ≡ (
            if (if is_outage m then true else b)
            then fail outage
            else done (record { input = word; reply = reply_of m } ∷ items))
    unfolding api_error_for
    batch_item_of true (done r) = refl
    batch_item_of false (done r) = refl
    batch_item_of true (fail not_arabic) = refl
    batch_item_of false (fail not_arabic) = refl
    batch_item_of true (fail (no_root e)) = rw (api_error_for_word e) refl
    batch_item_of false (fail (no_root e)) = rw (api_error_for_word e) refl
    batch_item_of b (fail (store_error f)) = refl

  batch_items-all : (words : List Word) → batch_items h s langs words ≡ all_items words
  unfolding batch_items
  batch_items-all [] = refl
  batch_items-all (word ∷ words) =
      ap (λ rest. batch_item h s word rest (resolved s.unicode s.store word langs))
        (batch_items-all words)
      ∙ batch_item_of word (map item words) (any outage_at words)
          (resolved s.unicode s.store word langs)

write_batch_if :
    {F : Type 0} (h : Http) (s : Server F) (b : Bool) (items : List BatchItem)
    → write_batch h s (if b then fail outage else done items)
      ≡ (if b then write_error outage else write_json 200 (of_batch items))
write_batch_if h s true items = refl
write_batch_if h s false items = refl

module _ {F : Type 0} (h : Http) (s : Server F) where
  -- What a reply is as the answer to a request of its own.
  abbrev pub alone : Reply → Response
  alone (result r) = write_json 200 (of_result r)
  alone (error e) = write_error e

  alone-reply_of : (m : Attempt Failure Result) → alone (reply_of m) ≡ write_answer h s m
  alone-reply_of (done r) = refl
  alone-reply_of (fail f) = refl

  -- The answer of the route for one word, but that a word with no letter is not Arabic here, where the
  -- route misses it.
  abbrev pub on_its_own : List Word → Word → Response
  on_its_own lang word =
      if is_empty (trim_space word)
      then write_error (api_error_for not_arabic)
      else resolve_word h s word lang

  -- A word of space alone is not Arabic.
  no_letters :
      (word : Word) (langs : List Word)
      → is_empty (trim_space word) ≡ true
      → resolved s.unicode s.store word langs ≡ fail not_arabic
  unfolding resolved resolve resolve_trimmed is_arabic_word arabic_letters
  no_letters word langs e = rw ((is_empty-nil (trim_space word)).0 e) refl

  -- The route trims the word before the resolver does.
  asked_alone :
      (lang : List Word) (word : Word)
      → is_empty (trim_space word) ≡ false
      → write_answer h s (resolved s.unicode s.store word (langs_of h s lang))
        ≡ resolve_word h s word lang
  unfolding resolve_word resolved resolve
  asked_alone lang word e = rw (e, trim_space_idem word) refl

  alone-item :
      (lang : List Word) (word : Word)
      → alone (item h s (langs_of h s lang) word).reply ≡ on_its_own lang word
  alone-item lang word =
      alone-reply_of (resolved s.unicode s.store word (langs_of h s lang))
      ∙ elim (Bool-cases (is_empty (trim_space word))) [
        | inl e ↦ rw e (ap (write_answer h s) (no_letters word (langs_of h s lang) e))
        | inr e ↦ rw e (asked_alone lang word e)
      ]

  inputs :
      (lang words : List Word)
      → map (λ (i : BatchItem). i.input) (map (item h s (langs_of h s lang)) words) ≡ words
  inputs lang [] = refl
  inputs lang (w ∷ words) = ap (λ l. w ∷ l) (inputs lang words)

  alone-items :
      (lang words : List Word)
      → map (λ (i : BatchItem). alone i.reply) (map (item h s (langs_of h s lang)) words)
        ≡ map (on_its_own lang) words
  alone-items lang [] = refl
  alone-items lang (w ∷ words) = ap₂ (λ x l. x ∷ l) (alone-item lang w) (alone-items lang words)

  -- A batch of at most a hundred words has an item for each of them, in their order, with what the
  -- route for one word answers it with, or that it is not Arabic where it has only space; unless the
  -- store breaks at one of them: then the batch has no answer but 500.
  pub resolve_batch_words :
      (body : String) (lang words : List Word)
      → h.batch_body body ≡ some (some words)
      → length words ≤ max_batch_words
      → (items : List BatchItem) × (map (λ (i : BatchItem). i.input) items ≡ words)
        × (map (λ (i : BatchItem). alone i.reply) items ≡ map (on_its_own lang) words)
        × (resolve_batch h s body lang ≡ (
            if any (outage_at h s (langs_of h s lang)) words
            then write_error outage
            else write_json 200 (of_batch items)))
  unfolding resolve_batch
  resolve_batch_words body lang words read few = (
    map (item h s (langs_of h s lang)) words,
    inputs lang words,
    alone-items lang words,
    rw (read, resolve_batch, le→not-ltb max_batch_words (length words) few)
        (ap (write_batch h s) (batch_items-all h s (langs_of h s lang) words)
          ∙ write_batch_if h s (any (outage_at h s (langs_of h s lang)) words)
              (map (item h s (langs_of h s lang)) words)),
  )
