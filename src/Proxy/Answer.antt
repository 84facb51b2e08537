-- ===== src/Proxy/Answer.antt =====
-- internal/httpapi/error_compat.go: what the client is sent. Headers are left out; an error that is
-- written as JSON is kept as a value.
use llama_wrangler.Common.{
  ℕ, ◌||◌, String, List, [], ◌∷◌, ◌++◌, Option, none, some, leb, ◌==◌, if◌then◌else◌,
}
use text.Mathlib.Text.{starts_with}

-- A body of an error, for the clients of OpenAI, of Ollama, and for others.
pub data ErrorBody : Type 0 where
  openai : String → String → String → ErrorBody
  ollama : String → String → String → ErrorBody
  plain : String → String → ErrorBody

-- What the `http.ResponseWriter` has sent: the status lines, the bytes, and the errors.
pub record Writer : Type 0 where
  pub statuses : List ℕ
  pub bytes : List ℕ
  pub errors : List ErrorBody

unfoldable pub write_header : ℕ → Writer → Writer
write_header status w = record w { statuses = w.statuses ++ status ∷ [] }

pub data Compatibility : Type 0 where
  to_openai to_ollama to_other : Compatibility

unfoldable pub inference_compatibility_path : String → Compatibility
inference_compatibility_path path =
    if starts_with path "/v1/"
    then to_openai
    else if starts_with path "/api/"
    then to_ollama
    else to_other

unfoldable pub normalized_upstream_error : ℕ → String × String
normalized_upstream_error status =
    if status == 400
    then ("upstream_invalid_request", "Upstream Ollama rejected the request.")
    else if status == 401 || status == 403
    then ("upstream_auth_failed", "Upstream Ollama authorization failed.")
    else if status == 404
    then ("upstream_not_found", "Requested model or upstream resource was not found.")
    else if status == 429
    then ("upstream_rate_limited", "Upstream Ollama is rate limited.")
    else ("upstream_request_failed", "Upstream Ollama returned an error.")

unfoldable pub openai_error_type : ℕ → String
openai_error_type status =
    if status == 401 || status == 403
    then "authentication_error"
    else if status == 429
    then "rate_limit_error"
    else if status == 400 || status == 404
    then "invalid_request_error"
    else if leb 500 status
    then "server_error"
    else "api_error"

unfoldable pub ollama_error_type : ℕ → String
ollama_error_type status =
    if leb 500 status
    then "server_error"
    else if status == 429
    then "rate_limit_error"
    else if status == 401 || status == 403
    then "authentication_error"
    else "invalid_request_error"

abbrev pub error_body : Compatibility → ℕ → String → String → ErrorBody
error_body to_openai status code message = openai message (openai_error_type status) code
error_body to_ollama status code message = ollama message (ollama_error_type status) code
error_body to_other status code message = plain code message

unfoldable pub write_inference_error_for_path : String → ℕ → String → String → Writer → Writer
unfolding write_header inference_compatibility_path openai_error_type ollama_error_type
write_inference_error_for_path path status code message w =
    let sent = write_header status w in
    record sent {
      errors =
          sent.errors ++ error_body (inference_compatibility_path path) status code message ∷ [];
    }

-- `writeInferenceError` reads the path of the request, empty where there is none.
abbrev pub path_or_empty : Option String → String
path_or_empty none = ""
path_or_empty (some path) = path

unfoldable pub write_inference_error : Option String → ℕ → String → String → Writer → Writer
unfolding write_inference_error_for_path
write_inference_error path status code message w =
    write_inference_error_for_path (path_or_empty path) status code message w
