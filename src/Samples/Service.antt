-- ===== src/Samples/Service.antt =====
-- The service over the sample corpus, with a key and a limiter, and the limiter on two callers.
use Prim.Native.String.{String}
use wird.Prelude.{
  ℕ, ◌+◌, ◌-◌, ◌*◌, ◌≤◌, ◌≡◌, ◌≢◌, refl, true, List, [], ◌∷◌, ◌++◌, some, none, map, any, arith,
  if◌then◌else◌, nat_eq, list_eq,
}
use wird.Text.{trim_space}
use wird.Root.Memory.{new_memory_store, memory}
use wird.Rootd.Limiter.{Levels, new_limiter, allow_all}
use wird.Rootd.Limiter.Exact.{exact, exact-IsLevels}
use wird.Rootd.Limiter.Ideal.{ideal, allow_all-ideal}
use wird.Rootd.Limiter.Bounds.{granted, last_time, granted_bound, served_in_time}
use wird.Rootd.Answers.{Http, Request, root_of, of_batch, write_json, write_error}
use wird.Rootd.Service.{Server, langs_of, resolve_batch, resolve_word, serve}
use wird.Rootd.Outcomes.{Told, resolve_word-Told}
use wird.Rootd.Answers.{BatchItem}
use wird.Rootd.Batches.{alone, on_its_own, outage, outage_at, resolve_batch_words}
use wird.Rootd.Gate.{keyless_blind}
use wird.Rootd.InMemory.{serve-memory}
use wird.Samples.Tables.{tables}
use wird.Samples.Corpus.{corpus, wrote, from_particle}
use wird.Samples.Ladder.{small}

abbrev http : Http
http = record {
  batch_body = λ body. some (some (wrote ∷ from_particle ∷ []));
  split_host_port = λ addr. none;
  to_lower = λ w. w;
}

-- A token in billionths, where the rate is whole tokens a second.
abbrev billionths : Levels ℕ
billionths = exact 1

abbrev server : Server ℕ
server = record {
  unicode = tables;
  store = memory (new_memory_store tables corpus);
  langs = [];
  limiter = some (new_limiter billionths 1 2000000000);
  api_key = 0x6B ∷ [];
}

-- A request that carries no key.
abbrev request : Request
request = record {
  target = root_of wrote;
  lang = [];
  authorization = [];
  remote_addr = "10.0.0.1:9000";
  now = 5;
}

-- The first caller asks three times within a second, the other once.
abbrev requests : List (String × ℕ)
requests = ("a", 1) ∷ ("a", 2) ∷ ("b", 3) ∷ ("a", 4) ∷ []

allow_all-ideal_example :
    allow_all (new_limiter billionths 1 2000000000) requests
    ≡ ideal billionths 1 2000000000 (λ c. none) requests
allow_all-ideal_example =
    allow_all-ideal billionths 1 2000000000 (exact-IsLevels 1 1 2000000000) 0 requests (omega arith)

-- A token in four seconds, and two at once.
granted_bound_example :
    (4 * 1000000000)
      * granted "a" requests (allow_all (new_limiter (exact 4) 1 8000000000) requests)
    ≤ 8000000000 + (last_time 0 requests - 0) * 1
granted_bound_example = granted_bound 4 1 8000000000 "a" 0 requests (omega arith)

served_in_time_example :
    allow_all (new_limiter billionths 1 2000000000) (requests ++ ("a", 1000000004) ∷ [])
    ≡ allow_all (new_limiter billionths 1 2000000000) requests ++ true ∷ []
served_in_time_example =
    served_in_time billionths 1 2000000000 (exact-IsLevels 1 1 2000000000) "a" 1000000004 0 requests
      (omega arith) (omega arith) refl refl

resolve_word-Told_example : Told server (trim_space wrote) (resolve_word http server wrote [])
resolve_word-Told_example = resolve_word-Told http server wrote []

resolve_batch_words_example :
    (items : List BatchItem) × (map (λ (i : BatchItem). i.input) items ≡ wrote ∷ from_particle ∷ [])
    × (map (λ (i : BatchItem). alone http server i.reply) items
        ≡ map (on_its_own http server []) (wrote ∷ from_particle ∷ []))
    × (resolve_batch http server "{}" [] ≡ (
        if any (outage_at http server (langs_of http server [])) (wrote ∷ from_particle ∷ [])
        then write_error outage
        else write_json 200 (of_batch items)))
resolve_batch_words_example =
    resolve_batch_words http server "{}" [] (wrote ∷ from_particle ∷ []) refl (omega arith)

keyless_blind_example :
    (serve http server request).1 ≡ (serve http (record server { store = small }) request).1
keyless_blind_example = keyless_blind http server small request refl refl

serve-memory_example : (serve http server request).1.status ≢ 500
serve-memory_example = serve-memory http server (new_memory_store tables corpus) refl request
