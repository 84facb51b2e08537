-- ===== src/Consensus/Content.antt =====
-- internal/consensus/engine.go: what a response says, and the signature by which responses agree.
-- `encoding/json` and `strings.ToLower` are a parameter. A body is a text; a JSON object is a list of
-- fields, each name once; a JSON number keeps its text (`UseNumber`).
use llama_wrangler.Common.{
  ℕ, Bool, true, false, ◌&&◌, ◌||◌, String, List, [], ◌∷◌, Option, none, some, ◌==◌, if◌then◌else◌,
}
use Prim.Native.Char.{Char, code}
use Prim.Native.String.{◌++◌ as append_text}
use text.Mathlib.Text.{starts_with}
use llama_wrangler.Common.Text.{str_eq, is_space, trim_space}

mutual
  pub data Json : Type 0 where
    null : Json
    bool : Bool → Json
    number : String → Json
    string : String → Json
    array : Items → Json
    object : Fields → Json

  pub data Items : Type 0 where
    nil : Items
    cons : Json → Items → Items

  pub data Fields : Type 0 where
    end : Fields
    field : String → Json → Fields → Fields

-- The standard library's part: the decoder (none is an error), `json.Marshal`, and lower case.
pub record Platform : Type 0 where
  pub decode : String → Option Json
  pub marshal : Json → Option String
  pub to_lower : String → String

-- `payload[name]`: a missing field is nil, which stands as `null` does.
unfoldable pub field_of : String → Fields → Json
field_of name end = null
field_of name (field k v fs) = if str_eq k name then v else field_of name fs

-- `v.(map[string]interface{})` and a field of it; null where the assertion fails.
unfoldable pub member : String → Json → Json
unfolding field_of
member name (object fs) = field_of name fs
member name _ = null

-- `choices[0]` of a list that is not empty.
unfoldable pub first_item : Json → Json
first_item (array (cons v vs)) = v
first_item _ = null

-- The part of the payload that the surface answers with.
unfoldable pub answer_of : String → Json → Json
unfolding member first_item
answer_of surface payload =
    if str_eq surface "openai_chat_completions"
    then member "content" (member "message" (first_item (member "choices" payload)))
    else if str_eq surface "openai_completions"
    then member "text" (first_item (member "choices" payload))
    else if str_eq surface "ollama_chat"
    then member "content" (member "message" payload)
    else if str_eq surface "ollama_generate"
    then member "response" payload
    else payload

abbrev pub last_char : Char → String → Char
last_char c String.[] = c
last_char c (String.◌∷◌ d s) = last_char d s

-- `strings.HasSuffix(s, t)` for a text of one character.
abbrev pub ends_with_code : ℕ → String → Bool
ends_with_code n String.[] = false
ends_with_code n (String.◌∷◌ c s) = code (last_char c s) == n

unfoldable pub looks_like_json : String → Bool
looks_like_json s =
    (starts_with s "{" && ends_with_code b'}' s) || (starts_with s "[" && ends_with_code b']' s)

-- `strings.Fields(s)`, with the word that is being read. What a `let` binds waits.
unfoldable pub split_words : String → String → List String
unfolding is_space
split_words word String.[] = if str_eq word "" then [] else word ∷ []
split_words word (String.◌∷◌ c s) =
    let rest = split_words String.[] s in
    let longer = split_words (append_text word (String.◌∷◌ c String.[])) s in
    let cut = if str_eq word "" then rest else word ∷ rest in
    if is_space (code c) then cut else longer

unfoldable pub join_words : List String → String
join_words [] = ""
join_words (w ∷ []) = w
join_words (w ∷ v ∷ ws) = append_text w (append_text " " (join_words (v ∷ ws)))

module _ (platform : Platform) where
  open platform use {decode, marshal, to_lower}

  unfoldable pub normalize_text : String → String
  unfolding split_words join_words
  normalize_text value = to_lower (join_words (split_words "" value))

  -- `json.Marshal`, and what is returned where it fails.
  abbrev pub marshal_or : Json → String × Bool → String × Bool
  marshal_or v otherwise = elim (marshal v) [
    | some canonical ↦ (canonical, true)
    | none ↦ otherwise
  ]

  abbrev pub content_of : Json → Json → String → String × Bool
  content_of (string text) payload body = (trim_space text, looks_like_json (trim_space text))
  content_of null payload body = marshal_or payload (body, false)
  content_of value payload body = marshal_or value (marshal_or payload (body, false))

  -- A payload decodes into a map: an object, or null for the nil map.
  abbrev pub payload_content : String → String → Option Json → String × Bool
  payload_content surface body (some (object fs)) =
      content_of (answer_of surface (object fs)) (object fs) body
  payload_content surface body (some null) = content_of (answer_of surface null) null body
  payload_content surface body _ = (body, false)

  unfoldable pub response_content : String → String → String × Bool
  unfolding trim_space looks_like_json answer_of
  response_content body surface = payload_content surface body (decode body)

  -- The canonical text of a structured content; none where it is not JSON after all.
  abbrev pub canonical_of : Option Json → Option String
  canonical_of none = none
  canonical_of (some v) = marshal v

  abbrev pub signature_of : Option String → String → String × String
  signature_of (some canonical) content = (append_text "json:" canonical, "json_structural")
  signature_of none content = (append_text "text:" (normalize_text content), "exact_normalized")

  -- The signature of a response, and the strategy that gave it.
  unfoldable pub response_signature : String → String → String × String
  unfolding response_content normalize_text
  response_signature body surface =
      let (content, structured) = response_content body surface in
      let canonical : Option String = if structured then canonical_of (decode content) else none in
      signature_of canonical content
