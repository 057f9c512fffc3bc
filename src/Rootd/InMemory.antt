-- ===== src/Rootd/InMemory.antt =====
-- The service that main.go starts, over a store in memory: it has an answer for every request.
use Prim.Native.String.{String}
use wird.Prelude.{
  ◌≡◌, ◌≢◌, refl, sym, subst, Bool, true, false, List, [], ◌∷◌, ◌++◌, Option, none, some,
  Option-cases, Bool-cases, inl, inr, ℕ, ltb, length, ◌==◌, nat_eq, list_eq, arith,
}
use wird.Prelude.Attempt.{Attempt, done, fail}
use wird.Text.{Word, is_empty, trim_space}
use wird.Root.Types.{Result, NoRootError, RootRecord}
use wird.Root.Store.{Fault, not_found, broken}
use wird.Root.Memory.{MemoryStore, memory}
use wird.Root.Resolve.{Failure, not_arabic, no_root, store_error, is_arabic_word}
use wird.Root.Resolve.Ladder.{resolve_word as resolved}
use wird.Root.Resolve.OverMemory.{resolve-memory, find_steady}
use wird.Rootd.Limiter.{Limiter, allow}
use wird.Rootd.Answers.{
  ApiError, BatchItem, result, error, Response, Request, Http, Target, api_error_for, healthz,
  root_of, roots_batch, root_letters, unknown_path, wrong_method,
}
use wird.Rootd.Service.{
  max_batch_words, Server, langs_of, write_answer, is_internal, batch_item, batch_items,
  resolve_word, resolve_batch, with_record, lookup_root, api, bearer, authenticated, caller_of,
  throttled, gate, serve,
}

module _ {F : Type 0} (h : Http) (s : Server F) (m : MemoryStore) (held : s.store ≡ memory m) where
  abbrev IsAnswered : Response → Type 0
  IsAnswered r = r.status ≢ 500

  word_fault :
      (word : Word) (langs : List Word) (f : Fault)
      → resolved s.unicode s.store word langs ≢ fail (store_error f)
  word_fault word langs f e =
      resolve-memory s.unicode m word langs f
        (subst (λ st. resolved s.unicode st word langs ≡ fail (store_error f)) held e)

  error_for_word : (e : NoRootError) → (api_error_for (no_root e)).status ≢ 500
  unfolding api_error_for
  error_for_word e h = ground arith

  write_answer-IsAnswered :
      (a : Attempt Failure Result)
      → ((f : Fault) → a ≢ fail (store_error f))
      → IsAnswered (write_answer h s a)
  unfolding api_error_for
  write_answer-IsAnswered (done r) w e = omega arith
  write_answer-IsAnswered (fail not_arabic) w e = omega arith
  write_answer-IsAnswered (fail (no_root x)) w e = error_for_word x e
  write_answer-IsAnswered (fail (store_error f)) w e = w f refl

  resolve_word-IsAnswered :
      (query : Word) (lang : List Word) → IsAnswered (resolve_word h s query lang)
  unfolding resolve_word
  resolve_word-IsAnswered query lang = elim (Bool-cases (is_empty (trim_space query))) [
    | inl e ↦ rw e (λ x. omega arith)
    | inr e ↦ rw e (write_answer-IsAnswered _ (word_fault (trim_space query) (langs_of h s lang)))
  ]

  abbrev Succeeds : Attempt ApiError (List BatchItem) → Type 0
  Succeeds a = (items : List BatchItem) × (a ≡ done items)

  internal_for_word : (e : NoRootError) → is_internal h s (api_error_for (no_root e)) ≡ false
  unfolding api_error_for
  internal_for_word e = ground arith

  batch_item-Succeeds :
      (word : Word) (rest : Attempt ApiError (List BatchItem)) (a : Attempt Failure Result)
      → ((f : Fault) → a ≢ fail (store_error f))
      → Succeeds rest
      → Succeeds (batch_item h s word rest a)
  unfolding api_error_for
  batch_item-Succeeds word rest (done r) w (items, e) =
      (record { input = word; reply = result r } ∷ items, rw e refl)
  batch_item-Succeeds word rest (fail not_arabic) w (items, e) =
      (record { input = word; reply = error (api_error_for not_arabic) } ∷ items, rw e refl)
  batch_item-Succeeds word rest (fail (no_root x)) w (items, e) = (
    record { input = word; reply = error (api_error_for (no_root x)) } ∷ items,
    rw (internal_for_word x, e) refl,
  )
  batch_item-Succeeds word rest (fail (store_error f)) w r = absurd (w f refl)

  batch_items-Succeeds : (langs words : List Word) → Succeeds (batch_items h s langs words)
  unfolding batch_items
  batch_items-Succeeds langs [] = ([], refl)
  batch_items-Succeeds langs (word ∷ words) =
      batch_item-Succeeds word (batch_items h s langs words) (resolved s.unicode s.store word langs)
        (word_fault word langs) (batch_items-Succeeds langs words)

  resolve_batch-IsAnswered :
      (body : String) (lang : List Word) → IsAnswered (resolve_batch h s body lang)
  unfolding resolve_batch
  resolve_batch-IsAnswered body lang = by_body (h.batch_body body) refl
    where
      by_words :
          (words : List Word)
          → h.batch_body body ≡ some (some words)
          → IsAnswered (resolve_batch h s body lang)
      by_words words e = elim (Bool-cases (ltb max_batch_words (length words))) [
        | inl big ↦ rw (e, resolve_batch, big) (λ x. omega arith)
        | inr small ↦
            rw (e, resolve_batch, small, (batch_items-Succeeds (langs_of h s lang) words).1)
              (λ x. omega arith)
      ]

      by_body :
          (o : Option (Option (List Word)))
          → h.batch_body body ≡ o
          → IsAnswered (resolve_batch h s body lang)
      by_body none e = rw (e, resolve_batch) (λ x. omega arith)
      by_body (some none) e = rw (e, resolve_batch) (λ x. omega arith)
      by_body (some (some words)) e = by_words words e

  with_record-IsAnswered :
      (lang : List Word) (a : Attempt Fault RootRecord)
      → ((c : ℕ) → a ≢ fail (broken c))
      → IsAnswered (with_record h s lang a)
  unfolding memory
  with_record-IsAnswered lang (fail not_found) w = λ e. omega arith
  with_record-IsAnswered lang (fail (broken c)) w = absurd (w c refl)
  with_record-IsAnswered lang (done rec) w = rw held (λ x. omega arith)

  lookup_root-IsAnswered :
      (value : Word) (lang : List Word) → IsAnswered (lookup_root h s value lang)
  unfolding lookup_root memory
  lookup_root-IsAnswered value lang =
      elim (Bool-cases (is_arabic_word s.unicode (trim_space value))) [
        | inr e ↦ rw e (λ x. omega arith)
        | inl e ↦ rw e (
            with_record-IsAnswered lang (s.store.root (trim_space value)) (λ c.
              subst (λ st. st.root (trim_space value) ≢ fail (broken c)) (sym held)
                (find_steady m.roots (trim_space value) c)))
      ]

  api-IsAnswered : (r : Request) → IsAnswered (api h s r)
  unfolding api
  api-IsAnswered r = at_target r.target refl
    where
      at_target : (t : Target) → r.target ≡ t → IsAnswered (api h s r)
      at_target healthz e = rw (e, api) (λ x. omega arith)
      at_target (root_of q) e = rw (e, api) (resolve_word-IsAnswered q r.lang)
      at_target (roots_batch b) e = rw (e, api) (resolve_batch-IsAnswered b r.lang)
      at_target (root_letters l) e = rw (e, api) (lookup_root-IsAnswered l r.lang)
      at_target unknown_path e = rw (e, api) (λ x. omega arith)
      at_target wrong_method e = rw (e, api) (λ x. omega arith)

  authenticated-IsAnswered : (r : Request) → IsAnswered (authenticated h s r)
  unfolding authenticated
  authenticated-IsAnswered r = elim (Bool-cases (is_empty s.api_key)) [
    | inl e ↦ rw e (api-IsAnswered r)
    | inr e ↦ elim (Bool-cases (r.authorization == (bearer h s ++ s.api_key))) [
      | inl k ↦ rw (e, k) (api-IsAnswered r)
      | inr k ↦ rw (e, k) (λ x. omega arith)
    ]
  ]

  gate-IsAnswered : (r : Request) → IsAnswered (gate h s r).1
  unfolding gate
  gate-IsAnswered r = elim (Option-cases s.limiter) [
    | inl e ↦ rw (e, gate) (authenticated-IsAnswered r)
    | inr (l, e) ↦ rw (e, gate) (by_answer (allow l (caller_of h s r) r.now))
  ]
    where
      by_answer : (a : Limiter F × Bool) → IsAnswered (throttled h s r a).1
      by_answer (l, true) = authenticated-IsAnswered r
      by_answer (l, false) = λ x. omega arith

  -- Over a store in memory no request is answered with 500.
  pub serve-memory : (r : Request) → (serve h s r).1.status ≢ 500
  unfolding serve
  serve-memory r = at_target r.target refl
    where
      at_target : (t : Target) → r.target ≡ t → IsAnswered (serve h s r).1
      at_target healthz e = rw (e, serve) (λ x. omega arith)
      at_target (root_of q) e = rw (e, serve) (gate-IsAnswered r)
      at_target (roots_batch b) e = rw (e, serve) (gate-IsAnswered r)
      at_target (root_letters l) e = rw (e, serve) (gate-IsAnswered r)
      at_target unknown_path e = rw (e, serve) (gate-IsAnswered r)
      at_target wrong_method e = rw (e, serve) (gate-IsAnswered r)
