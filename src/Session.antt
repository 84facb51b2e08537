-- ===== src/Session.antt =====
-- internal/session/session.go, `ApplyAffinity`, with `Session` and `UpdateSession` of
-- internal/appstate/state.go. The file that the store writes is left out, so is the write's error,
-- which `ApplyAffinity` drops. The store is never nil. `now` is the clock.
mod Tests
use llama_wrangler.Common.{
  ℕ, ◌≡◌, refl, sym, ap, subst, ◌∙◌, ◌⊎◌, inl, inr, Bool, true, false, not, ◌&&◌, ◌||◌, String,
  List, [], ◌∷◌, Option, none, some, if◌then◌else◌, In, Bool-cases, arith,
}
use llama_wrangler.Common.Text.{str_eq, eq_iff, eq_refl}
use llama_wrangler.Common.Dict.{Dict, lookup, insert, lookup-insert}

pub record Session : Type 0 where
  pub session_id : String
  pub affinity_mode : String
  pub node_id : String
  pub model : String
  pub last_request_id : String
  pub updated_at : ℕ

pub record Store : Type 0 where
  pub sessions : Dict Session
  pub updated_at : ℕ

unfoldable pub session : String → Store → Option Session
session id s = lookup id s.sessions

unfoldable pub update_session : ℕ → Session → Store → Store
update_session now x s = if str_eq x.session_id "" then s else record s {
  sessions = insert x.session_id (record x { updated_at = now }) s.sessions;
  updated_at = now;
}

unfoldable pub contains : List String → String → Bool
contains [] node = false
contains (n ∷ ns) node = str_eq n node || contains ns node

abbrev pub pins : String → Bool
pins affinity = str_eq affinity "strict" || str_eq affinity "task"

-- The node of the session where the affinity asks for it and it is eligible.
unfoldable pub pinned_node : String → String → List String → Option Session → String
unfolding contains
pinned_node affinity decision_node eligible_nodes none = decision_node
pinned_node affinity decision_node eligible_nodes (some existing) =
    if not (str_eq existing.node_id "") && (str_eq affinity "soft" || pins affinity)
    then if pins affinity && contains eligible_nodes existing.node_id
      then existing.node_id
      else decision_node
    else decision_node

-- What a request brings along.
pub record Call : Type 0 where
  pub session_id : String
  pub affinity : String
  pub decision_node : String
  pub model : String
  pub request_id : String
  pub eligible_nodes : List String

unfoldable pub apply_affinity : ℕ → Call → Store → Store × String
unfolding session update_session pinned_node
apply_affinity now c s =
    if str_eq c.session_id "" || str_eq c.affinity "none"
    then (s, c.decision_node)
    else let node =
        pinned_node c.affinity c.decision_node c.eligible_nodes (session c.session_id s) in
      (
        update_session now
            (record {
              session_id = c.session_id;
              affinity_mode = c.affinity;
              node_id = node;
              model = c.model;
              last_request_id = c.request_id;
              updated_at = 0;
            })
            s,
        node,
      )

pinned_eligible :
    (affinity node : String) (ns : List String) (o : Option Session)
    → contains ns node ≡ true
    → contains ns (pinned_node affinity node ns o) ≡ true
unfolding pinned_node
pinned_eligible affinity node ns none e = e
pinned_eligible affinity node ns (some x) e = ground (arith, e)

-- When the node that routing chose is eligible, so is the node that affinity settles on. No session
-- leads to a node that the policy excludes.
pub affinity_eligible :
    (now : ℕ) (c : Call) (s : Store)
    → contains c.eligible_nodes c.decision_node ≡ true
    → contains c.eligible_nodes (apply_affinity now c s).1 ≡ true
unfolding apply_affinity
affinity_eligible now c s e = ground (
  arith,
  e,
  pinned_eligible c.affinity c.decision_node c.eligible_nodes (session c.session_id s) e,
)

pinned :
    (affinity node : String) (ns : List String) (x : Session)
    → pins affinity ≡ true
    → str_eq x.node_id "" ≡ false
    → contains ns x.node_id ≡ true
    → pinned_node affinity node ns (some x) ≡ x.node_id
unfolding pinned_node
pinned affinity node ns x p n e = ground (arith, p, n, e)

not_none : (affinity : String) → pins affinity ≡ true → str_eq affinity "none" ≡ false
not_none affinity p = elim (Bool-cases (str_eq affinity "none")) [
  | inl q ↦
      let named : pins "none" ≡ true =
        subst (λ v. pins v ≡ true) ((eq_iff affinity "none").0 q) p in
      let no : ⊥ = ground (arith, named) in elim no [ ]
  | inr q ↦ q
]

applied :
    (now : ℕ) (c : Call) (s : Store)
    → str_eq c.session_id "" ≡ false
    → str_eq c.affinity "none" ≡ false
    → (apply_affinity now c s).1
      ≡ pinned_node c.affinity c.decision_node c.eligible_nodes (session c.session_id s)
unfolding apply_affinity
applied now c s i a = ground (arith, i, a)

abbrev entry : Call → Store → Session
entry c s = record {
  session_id = c.session_id;
  affinity_mode = c.affinity;
  node_id = pinned_node c.affinity c.decision_node c.eligible_nodes (session c.session_id s);
  model = c.model;
  last_request_id = c.request_id;
  updated_at = 0;
}

recorded :
    (now : ℕ) (c : Call) (s : Store)
    → str_eq c.session_id "" ≡ false
    → str_eq c.affinity "none" ≡ false
    → (apply_affinity now c s).0 ≡ update_session now (entry c s) s
unfolding apply_affinity
recorded now c s i a = rw (i, a) refl

updated :
    (now : ℕ) (x : Session) (s : Store)
    → str_eq x.session_id "" ≡ false
    → session x.session_id (update_session now x s) ≡ some (record x { updated_at = now })
unfolding update_session session
updated now x s i =
    let y = record x { updated_at = now } in
    rw (i) (
      lookup-insert x.session_id x.session_id y s.sessions
      ∙ ap (λ b. if b then some y else lookup x.session_id s.sessions) (eq_refl x.session_id))

stored :
    (now : ℕ) (c : Call) (s : Store)
    → str_eq c.session_id "" ≡ false
    → str_eq c.affinity "none" ≡ false
    → (x : Session) × session c.session_id (apply_affinity now c s).0 ≡ some x
      × x.node_id ≡ (apply_affinity now c s).1
stored now c s i a = (
  record (entry c s) { updated_at = now },
  ap (session c.session_id) (recorded now c s i a) ∙ updated now (entry c s) s i,
  sym (applied now c s i a),
)

-- Under `strict` or `task` affinity, a request of the same session gets the node of the request
-- before it, as long as this one is named and still eligible, whatever routing chooses.
pub affinity_sticks :
    (now later : ℕ) (c d : Call) (s : Store)
    → str_eq c.session_id "" ≡ false
    → str_eq c.affinity "none" ≡ false
    → d.session_id ≡ c.session_id
    → pins d.affinity ≡ true
    → let (t, node) = apply_affinity now c s in
      str_eq node "" ≡ false
      → contains d.eligible_nodes node ≡ true
      → (apply_affinity later d t).1 ≡ node
affinity_sticks now later c d s i a same p named e =
    let t = (apply_affinity now c s).0 in
    let (x, found, n) = stored now c s i a in
    let there : session d.session_id t ≡ some x = ap (λ id. session id t) same ∙ found in
    applied later d t (ap (λ id. str_eq id "") same ∙ i) (not_none d.affinity p)
    ∙ ap (pinned_node d.affinity d.decision_node d.eligible_nodes) there
    ∙ pinned d.affinity d.decision_node d.eligible_nodes x p (ap (λ v. str_eq v "") n ∙ named)
        (ap (contains d.eligible_nodes) n ∙ e)
    ∙ n
