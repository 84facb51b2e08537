-- ===== src/Proxy/Meta.antt =====
-- internal/httpapi/server.go: what a request says of itself, and the URL of a node. JSON decoding and
-- encoding are the parameter of Consensus/Content.
use llama_wrangler.Common.{
  Bool, true, false, ◌||◌, String, List, [], ◌∷◌, Option, none, some, ◌==◌, if◌then◌else◌,
}
use Prim.Native.Char.{Char, code}
use Prim.Native.String.{◌++◌ as append_text}
use llama_wrangler.Common.Text.{str_eq, trim_space, equal_fold}
use llama_wrangler.Common.Dict.{Dict, lookup}
use llama_wrangler.Config.{SubscriberConfig}
use llama_wrangler.Appstate.Node.{Node}
use llama_wrangler.Consensus.Content.{
  Json, string, bool, object, Fields, end, field, Platform, field_of,
}
use llama_wrangler.Queue.Priority.{Priority, normal, normalize_queue_priority}

-- `json.Unmarshal` into a map: its fields, none where it fails; null gives an empty map.
abbrev pub payload_of : Option Json → Option Fields
payload_of (some (object fs)) = some fs
payload_of (some Json.null) = some end
payload_of _ = none

abbrev pub fields_or : Fields → Option Fields → Fields
fields_or left none = left
fields_or left (some fs) = fs

abbrev pub as_string : Json → Option String
as_string (string s) = some s
as_string _ = none

abbrev pub string_or_empty : Json → String
string_or_empty (string s) = s
string_or_empty _ = ""

abbrev pub is_true : Json → Bool
is_true (bool b) = b
is_true _ = false

abbrev pub first_of : Option String → Option String → Option String
first_of none o = o
first_of (some s) o = some s

pub record Meta : Type 0 where
  pub model : String
  pub stream : Bool
  pub session_id : String

module _ (platform : Platform) where
  -- `parseRequestMeta`, with what `json.Unmarshal` leaves of a body in the map when it fails, and the
  -- header of the session.
  unfoldable pub parse_request_meta : (String → Fields) → String → String → Meta
  unfolding field_of
  parse_request_meta left_over body session_header =
      let payload = fields_or (left_over body) (payload_of (platform.decode body)) in
      record {
        model = string_or_empty (field_of "model" payload);
        stream = is_true (field_of "stream" payload);
        session_id =
            if str_eq session_header ""
            then string_or_empty (field_of "session_id" payload)
            else session_header;
      }

  abbrev pub payload_priority : Option Fields → Priority
  payload_priority none = normal
  payload_priority (some payload) =
      elim (first_of (as_string (field_of "priority" payload))
        (as_string (field_of "queue_priority" payload))) [
          | none ↦ normal
          | some priority ↦ normalize_queue_priority priority
        ]

  -- `parseRequestPriority`, with the header of the priority.
  unfoldable pub parse_request_priority : String → String → Priority
  unfolding field_of normalize_queue_priority
  parse_request_priority body priority_header =
      if str_eq priority_header ""
      then payload_priority (payload_of (platform.decode body))
      else normalize_queue_priority priority_header

  -- `payload[name] = value`
  unfoldable pub set_field : String → Json → Fields → Fields
  set_field name value end = field name value end
  set_field name value (field k v fs) =
      if str_eq k name then field k value fs else field k v (set_field name value fs)

  abbrev pub marshal_or_keep : String → Option String → String
  marshal_or_keep body none = body
  marshal_or_keep body (some out) = out

  abbrev pub rewritten : String → String → Option Fields → String
  rewritten body model none = body
  rewritten body model (some payload) =
      marshal_or_keep body (platform.marshal (object (set_field "model" (string model) payload)))

  unfoldable pub rewrite_model : String → String → String
  unfolding set_field
  rewrite_model body model =
      if str_eq model "" then body else rewritten body model (payload_of (platform.decode body))

  abbrev pub payload_debug : Option Fields → Bool
  payload_debug none = false
  payload_debug (some payload) = is_true (field_of "debug" payload)

  -- `consensusDebugRequested`, with the header that asks for it.
  unfoldable pub consensus_debug_requested : String → String → Bool
  unfolding field_of trim_space equal_fold
  consensus_debug_requested debug_header body =
      if equal_fold (trim_space debug_header) "true"
      then true
      else payload_debug (payload_of (platform.decode body))

-- `strings.TrimRight(s, "/")`
abbrev pub cons_unless_slash : Char → String → String
cons_unless_slash c String.[] = if code c == b'/' then String.[] else String.◌∷◌ c String.[]
cons_unless_slash c (String.◌∷◌ d s) = String.◌∷◌ c (String.◌∷◌ d s)

unfoldable pub trim_slashes : String → String
trim_slashes String.[] = String.[]
trim_slashes (String.◌∷◌ c s) = cons_unless_slash c (trim_slashes s)

abbrev pub subscriber_url : String → String → List SubscriberConfig → Option String
subscriber_url node_id path [] = none
subscriber_url node_id path (sub ∷ subs) =
    let rest = subscriber_url node_id path subs in
    if str_eq sub.node_id node_id
    then some (append_text (trim_slashes sub.url) (append_text "/subscriber/proxy" path))
    else rest

-- What `nodeProxyURL` reads of the state and of the configuration.
pub record Site (F : Type 0) : Type 0 where
  pub nodes : Dict (Node F)
  pub subscribers : List SubscriberConfig
  pub own_id : String
  pub ollama_url : String

module _ {F : Type 0} where
  abbrev pub own_node_id : Option (Node F) → String
  own_node_id none = ""
  own_node_id (some n) = n.node_id

  abbrev pub elsewhere_url : Site F → String → String → Option String → String
  elsewhere_url site node_id path (some url) = url
  elsewhere_url site node_id path none =
      if str_eq node_id site.own_id || str_eq node_id (own_node_id (lookup site.own_id site.nodes))
      then append_text site.ollama_url path
      else ""

  abbrev pub known_url : Site F → String → String → Option (Node F) → String
  known_url site node_id path (some n) =
      if str_eq n.url ""
      then append_text (trim_slashes site.ollama_url) path
      else append_text (trim_slashes n.url) (append_text "/subscriber/proxy" path)
  known_url site node_id path none =
      elsewhere_url site node_id path (subscriber_url node_id path site.subscribers)

  -- The URL of a node, empty where it has none.
  unfoldable pub node_proxy_url : Site F → String → String → String
  unfolding lookup trim_slashes
  node_proxy_url site node_id path = known_url site node_id path (lookup node_id site.nodes)
