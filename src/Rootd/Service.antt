-- ===== src/Rootd/Service.antt =====
-- The handlers of jidhr/cmd/rootd/server.go, and the gate before them.
use Prim.Native.String.{String}
use wird.Prelude.{
  ℕ, Bool, true, false, not, List, [], ◌∷◌, ◌++◌, Option, none, some, length, ltb, nat_beq, ◌==◌,
  nat_eq, list_eq, if◌then◌else◌,
}
use wird.Prelude.Attempt.{Attempt, done, fail, ◌>>=◌}
use wird.Text.{Word, is_empty, trim_space}
use wird.Text.Unicode.{Unicode}
use wird.Root.Types.{Result, RootRecord, Meaning}
use wird.Root.Store.{Store, Fault, not_found, broken}
use wird.Root.Resolve.{Failure, is_arabic_word}
use wird.Root.Resolve.Ladder.{resolve_word as resolved}
use wird.Rootd.Limiter.{Limiter, allow}
use wird.Rootd.Answers.{
  ApiError, BatchItem, Response, Request, Http, missing_word, bad_request_body, batch_too_large,
  not_arabic_code, no_root_code, internal, unauthorized, rate_limited, plain_error, api_error_for,
  result, error, nothing, of_result, of_batch, of_root, of_error, write_json, write_error, healthz,
  root_of, roots_batch, root_letters, unknown_path, wrong_method,
}

abbrev pub max_batch_words : ℕ
max_batch_words = 100

pub record Server (F : Type 0) : Type 0 where
  pub unicode : Unicode
  pub store : Store
  pub langs : List Word
  pub limiter : Option (Limiter F)
  pub api_key : Word

-- strings.SplitSeq on a comma
unfoldable pub split_comma : Word → List Word
split_comma [] = [] ∷ []
split_comma (c ∷ text) = elim (split_comma text) [
  | [] ↦ (c ∷ []) ∷ []
  | part ∷ parts ↦ if nat_beq c 0x2C then [] ∷ part ∷ parts else (c ∷ part) ∷ parts
]

module _ (h : Http) where
  -- The inner loop of langsOf.
  unfoldable pub tags_of : List Word → List Word
  tags_of [] = []
  tags_of (part ∷ parts) =
      let tag = h.to_lower (trim_space part) in
      let rest = tags_of parts in if is_empty tag then rest else tag ∷ rest

  unfoldable pub all_tags : List Word → List Word
  all_tags [] = []
  all_tags (value ∷ values) = tags_of (split_comma value) ++ all_tags values

  abbrev pub or_default : List Word → List Word → List Word
  or_default default [] = default
  or_default default (tag ∷ tags) = tag ∷ tags

  module _ {F : Type 0} (s : Server F) where
    unfoldable pub langs_of : List Word → List Word
    langs_of values = or_default s.langs (all_tags values)

    abbrev pub write_answer : Attempt Failure Result → Response
    write_answer (done res) = write_json 200 (of_result res)
    write_answer (fail f) = write_error (api_error_for f)

    unfoldable pub resolve_word : Word → List Word → Response
    resolve_word query lang =
        if is_empty (trim_space query)
        then write_error (plain_error 400 missing_word)
        else write_answer (resolved s.unicode s.store (trim_space query) (langs_of lang))

    abbrev pub is_internal : ApiError → Bool
    is_internal e = nat_beq e.status 500

    -- One word of a batch, and those after it. An error of the server is the error of the batch.
    abbrev pub batch_item :
        Word
        → Attempt ApiError (List BatchItem)
        → Attempt Failure Result
        → Attempt ApiError (List BatchItem)
    batch_item word rest (done res) = do
      items ← rest
      done (record { input = word; reply = result res } ∷ items)
    batch_item word rest (fail f) =
        if is_internal (api_error_for f) then fail (api_error_for f) else (do
          items ← rest
          done (record { input = word; reply = error (api_error_for f) } ∷ items))

    unfoldable pub batch_items : List Word → List Word → Attempt ApiError (List BatchItem)
    batch_items langs [] = done []
    batch_items langs (word ∷ words) =
        batch_item word (batch_items langs words) (resolved s.unicode s.store word langs)

    abbrev pub write_batch : Attempt ApiError (List BatchItem) → Response
    write_batch (done items) = write_json 200 (of_batch items)
    write_batch (fail e) = write_error e

    unfoldable pub resolve_batch : String → List Word → Response
    resolve_batch body lang = elim (h.batch_body body) [
      | none ↦ write_error (plain_error 400 bad_request_body)
      | some none ↦ write_error (plain_error 400 bad_request_body)
      | some (some words) ↦
          if ltb max_batch_words (length words)
          then write_error (plain_error 400 batch_too_large)
          else write_batch (batch_items (langs_of lang) words)
    ]

    abbrev pub with_root_meanings : RootRecord → Attempt Fault (List (Word × Meaning)) → Response
    with_root_meanings rec (done meanings) =
        write_json 200
          (of_root (record { root = rec.root; quran = rec.quran; meanings = meanings }))
    with_root_meanings rec (fail e) = write_error (plain_error 500 internal)

    abbrev pub with_record : List Word → Attempt Fault RootRecord → Response
    with_record lang (fail not_found) = write_error (plain_error 404 no_root_code)
    with_record lang (fail (broken c)) = write_error (plain_error 500 internal)
    with_record lang (done rec) =
        with_root_meanings rec (s.store.meanings rec.root.letters (langs_of lang))

    unfoldable pub lookup_root : Word → List Word → Response
    lookup_root value lang =
        if not (is_arabic_word s.unicode (trim_space value))
        then write_error (plain_error 400 not_arabic_code)
        else with_record lang (s.store.root (trim_space value))

    -- The inner mux, with the 404 and 405 of net/http where no route fits.
    unfoldable pub api : Request → Response
    api r = elim r.target [
      | root_of query ↦ resolve_word query r.lang
      | roots_batch body ↦ resolve_batch body r.lang
      | root_letters letters ↦ lookup_root letters r.lang
      | healthz ↦ write_json 404 nothing
      | unknown_path ↦ write_json 404 nothing
      | wrong_method ↦ write_json 405 nothing
    ]

    -- "Bearer "
    abbrev pub bearer : Word
    bearer = 0x42 ∷ 0x65 ∷ 0x61 ∷ 0x72 ∷ 0x65 ∷ 0x72 ∷ 0x20 ∷ []

    unfoldable pub authenticated : Request → Response
    authenticated r =
        if is_empty s.api_key
        then api r
        else if not (r.authorization == (bearer ++ s.api_key))
        then record {
          status = 401;
          headers = ("WWW-Authenticate", "Bearer") ∷ [];
          body = of_error (plain_error 401 unauthorized);
        }
        else api r

    abbrev pub caller_of : Request → String
    caller_of r = elim (h.split_host_port r.remote_addr) [ none ↦ r.remote_addr | some host ↦ host ]

    abbrev pub throttled : Request → Limiter F × Bool → Server F × Response
    throttled r (l, true) = (record s { limiter = some l }, authenticated r)
    throttled r (l, false) = (
      record s { limiter = some l },
      record {
        status = 429;
        headers = ("Retry-After", "1") ∷ [];
        body = of_error (plain_error 429 rate_limited);
      },
    )

    unfoldable pub gate : Request → Server F × Response
    gate r = elim s.limiter [
      | none ↦ (s, authenticated r)
      | some l ↦ throttled r (allow l (caller_of r) r.now)
    ]

    -- The outer mux: a health check is not behind the gate.
    unfoldable pub serve : Request → Server F × Response
    serve r = elim r.target [
      | healthz ↦ (s, write_json 200 nothing)
      | root_of query ↦ gate r
      | roots_batch body ↦ gate r
      | root_letters letters ↦ gate r
      | unknown_path ↦ gate r
      | wrong_method ↦ gate r
    ]
