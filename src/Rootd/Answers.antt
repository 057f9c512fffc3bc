-- ===== src/Rootd/Answers.antt =====
-- The requests and responses of jidhr/cmd/rootd/server.go, and the mapping of a failure to its
-- status and code. The words of a message are left out.
use Prim.Native.String.{String}
use wird.Prelude.{ℕ, List, [], Option, if◌then◌else◌}
use wird.Prelude.Map.{Map}
use wird.Text.{Word}
use wird.Root.Types.{Root, QuranStats, Meaning, Result, Candidate}
use wird.Root.Resolve.{Failure, not_arabic, no_root, store_error}

pub data Code : Type 0 where
  missing_word bad_request_body batch_too_large not_arabic_code no_root_code rootless_code internal
        unauthorized rate_limited :
      Code

pub record ApiError : Type 0 where
  pub status : ℕ
  pub code : Code
  pub candidates : List Candidate

abbrev pub plain_error : ℕ → Code → ApiError
plain_error status code = record { status = status; code = code; candidates = [] }

unfoldable pub api_error_for : Failure → ApiError
api_error_for not_arabic = plain_error 400 not_arabic_code
api_error_for (no_root e) =
    if e.rootless
    then plain_error 404 rootless_code
    else record { status = 404; code = no_root_code; candidates = e.candidates }
api_error_for (store_error f) = plain_error 500 internal

-- One of the two is there.
pub data Reply : Type 0 where
  result : Result → Reply
  error : ApiError → Reply

pub record BatchItem : Type 0 where
  pub input : Word
  pub reply : Reply

pub record RootResponse : Type 0 where
  pub root : Root
  pub quran : Option QuranStats
  pub meanings : Map Word Meaning

pub data Body : Type 0 where
  nothing : Body
  of_result : Result → Body
  of_batch : List BatchItem → Body
  of_root : RootResponse → Body
  of_error : ApiError → Body

pub record Response : Type 0 where
  pub status : ℕ
  pub headers : List (String × String)
  pub body : Body

abbrev pub write_json : ℕ → Body → Response
write_json status body = record { status = status; headers = []; body = body }

abbrev pub write_error : ApiError → Response
write_error e = write_json e.status (of_error e)

-- The route that the mux of net/http takes a request to, a path that it has no route for, and a
-- path with a route for other methods only, with what the handler reads of it:
-- query.Get("word"), the body, r.PathValue("letters").
pub data Target : Type 0 where
  healthz : Target
  root_of : Word → Target
  roots_batch : String → Target
  root_letters : Word → Target
  unknown_path : Target
  wrong_method : Target

-- `lang` is query["lang"].
pub record Request : Type 0 where
  pub target : Target
  pub lang : List Word
  pub authorization : Word
  pub remote_addr : String
  pub now : ℕ

-- What the libraries read: the JSON decoder, with `none` for an error, and `some none` for a body
-- without words; net.SplitHostPort; strings.ToLower.
pub record Http : Type 0 where
  pub batch_body : String → Option (Option (List Word))
  pub split_host_port : String → Option String
  pub to_lower : Word → Word
