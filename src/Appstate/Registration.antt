-- ===== src/Appstate/Registration.antt =====
-- internal/appstate/state.go, `RegisterEnrollmentNode`: what a registration stores.
use llama_wrangler.Common.{
  ℕ, ◌≡◌, refl, ap, subst, Bool, false, not, ◌&&◌, ◌||◌, String, List, [], ◌∷◌, ◌++◌, some, ltb,
  ◌==◌, if◌then◌else◌, arith, by_test,
}
use llama_wrangler.Common.Text.{str_eq, eq_iff, eq_refl}
use llama_wrangler.Common.Dict.{lookup, lookup-insert}
use llama_wrangler.Appstate.Node.{Node}
use llama_wrangler.Appstate.Normal.{Network, normal_approval, normalize_node}
use llama_wrangler.Appstate.Enrollment.{
  EnrollmentRequest, Registry, Verdict, token_not_found, token_expired, registered, claimed_node,
  registered_node, find_registration, register_with, register_enrollment_node,
  normalize_enrollment_request, registered_request, behind,
}
use llama_wrangler.Routing.Policy.{node_approved, classify}
use llama_wrangler.Appstate.Registered.{IsNormal, normalize_node-IsNormal, IsKept, kept_insert}

-- The new queue is the old one with a request that has the token, which is not empty, replaced by
-- another request at the same place.
abbrev pub IsReplaced :
    String → List EnrollmentRequest → EnrollmentRequest → List EnrollmentRequest → Type 0
IsReplaced token before r after =
    (q : EnrollmentRequest) × (xs : List EnrollmentRequest) × (ys : List EnrollmentRequest)
    × (q.token_hash ≡ token)
    × (str_eq token "" ≡ false)
    × (before ≡ xs ++ q ∷ ys)
    × (after ≡ xs ++ r ∷ ys)

IsReplaced-behind :
    (token : String) (q r : EnrollmentRequest) (before after : List EnrollmentRequest)
    → IsReplaced token before r after
    → IsReplaced token (q ∷ before) r (q ∷ after)
IsReplaced-behind token q r before after (p, xs, ys, used, named, old, new) =
    (p, q ∷ xs, ys, used, named, ap (◌∷◌ q) old, ap (◌∷◌ q) new)

queued_token :
    (net : Network) (token : String) (q : EnrollmentRequest)
    → let queued = normalize_enrollment_request net q in
      (str_eq queued.token_hash "" || not (str_eq queued.token_hash token)) ≡ false
      → (q.token_hash ≡ token) × (str_eq token "" ≡ false)
unfolding normalize_enrollment_request
queued_token net token q e =
    let same : q.token_hash ≡ token = (eq_iff q.token_hash token).0 (ground (arith, e)) in
    (same, subst (λ s. str_eq s "" ≡ false) same (ground (arith, e)))

module _ {F : Type 0} (net : Network) where
  -- The node is in shape and not approved, so that no request is routed to it; the request goes under
  -- its name and has no token any more.
  abbrev pub IsWaiting : EnrollmentRequest → Node F → Type 0
  IsWaiting r m =
      IsNormal m
      × (m.approved ≡ false)
      × ((consensus_mode : Bool) (now : ℕ) → (classify m consensus_mode now).eligible ≡ false)
      × (r.node_id ≡ m.node_id)
      × (r.token_hash ≡ "")

  -- What a verdict brings for a queue.
  abbrev IsPending : String → List EnrollmentRequest → Verdict F → Type 0
  IsPending token queue token_not_found = Unit {0}
  IsPending token queue token_expired = Unit {0}
  IsPending token queue (registered r m qs) = IsWaiting r m × IsReplaced token queue r qs

  -- What a verdict makes of the stored state. An error leaves it alone. A registration stores the
  -- node under its name, where it waits for approval, leaves the other nodes alone, and puts its
  -- request in the place of the one whose token it used.
  abbrev pub IsRegistered : String → Registry F → Registry F → Verdict F → Type 0
  IsRegistered token s t token_not_found = t ≡ s
  IsRegistered token s t token_expired = t ≡ s
  IsRegistered token s t (registered r m qs) =
      IsWaiting r m
      × (lookup m.node_id t.nodes ≡ some m)
      × ((id : String) → str_eq m.node_id id ≡ false → lookup id t.nodes ≡ lookup id s.nodes)
      × IsReplaced token s.enrollment_queue r t.enrollment_queue

  behind-IsPending :
      (token : String) (q : EnrollmentRequest) (qs : List EnrollmentRequest) (later : Verdict F)
      → IsPending token qs later
      → IsPending token (q ∷ qs) (behind q later)
  behind-IsPending token q qs token_not_found h = tt
  behind-IsPending token q qs token_expired h = tt
  behind-IsPending token q qs (registered r m rs) h = (h.0, IsReplaced-behind token q r qs rs h.1)

  unapproved : (m : Node F) → m.approved ≡ false → node_approved m ≡ false
  unfolding node_approved
  unapproved m e = ground (arith, e)

  not_admitted :
      (m : Node F) (consensus_mode : Bool) (now : ℕ)
      → m.approved ≡ false
      → (classify m consensus_mode now).eligible ≡ false
  unfolding classify
  not_admitted m consensus_mode now e = ground (arith, unapproved m e)

  found-IsPending :
      (now : ℕ) (token : String) (n : Node F) (req : EnrollmentRequest)
      (qs : List EnrollmentRequest)
      → IsPending token qs (find_registration net now token n req qs)
  unfolding find_registration registered_node registered_request normalize_node normal_approval
      claimed_node
  found-IsPending now token n req [] = tt
  found-IsPending now token n req (q ∷ qs) =
      let queued = normalize_enrollment_request net q in
      let later = find_registration net now token n req qs in
      let node = registered_node net now queued req n in
      let request = registered_request now queued req node in
      let found : Verdict F = registered request node (request ∷ qs) in
      let late = not (queued.expires_at == 0) && ltb queued.expires_at now in
      let other = str_eq queued.token_hash "" || not (str_eq queued.token_hash token) in
      let pending = IsPending token (q ∷ qs) in
      by_test pending other (behind q later) (if late then token_expired else found)
        (λ e. behind-IsPending token q qs later (found-IsPending now token n req qs))
        (λ e.
          by_test pending late token_expired found (λ u. tt)
            (λ u.
              let (used, named) = queued_token net token q e in
              (
                (
                  normalize_node-IsNormal net now (claimed_node queued req n),
                  refl,
                  λ cm t. not_admitted node cm t refl,
                  refl,
                  refl,
                ),
                (q, [], qs, used, named, refl, refl),
              )))

  registered-IsKept :
      (now : ℕ) (token : String) (s : Registry F) (v : Verdict F)
      → IsPending token s.enrollment_queue v
      → IsKept net s
      → IsKept net (register_with now s v)
  registered-IsKept now token s token_not_found p k = k
  registered-IsKept now token s token_expired p k = k
  registered-IsKept now token s (registered r m qs) p k = kept_insert net s m k p.0.0

  pending-IsRegistered :
      (now : ℕ) (token : String) (s : Registry F) (v : Verdict F)
      → IsPending token s.enrollment_queue v
      → IsRegistered token s (register_with now s v) v
  pending-IsRegistered now token s token_not_found p = refl
  pending-IsRegistered now token s token_expired p = refl
  pending-IsRegistered now token s (registered r m qs) p = (
    p.0,
    rw (lookup-insert m.node_id m.node_id m s.nodes, eq_refl m.node_id) refl,
    λ id e. rw (lookup-insert m.node_id id m s.nodes, e) refl,
    p.1,
  )

  -- A registration that fails stores nothing. One that succeeds stores a node in shape that is not
  -- approved, so that no request is routed to it, and leaves the other nodes alone; in the stored
  -- queue a request under the node's name that has no token takes the place of the one with the
  -- token. Whatever the verdict, stored nodes that are in shape and under their names stay so.
  pub register_enrollment_node_lem :
      (now : ℕ) (token : String) (n : Node F) (req : EnrollmentRequest) (s : Registry F)
      → IsKept net s
      → let (t, verdict) = register_enrollment_node net now token n req s in
        IsKept net t × IsRegistered token s t verdict
  unfolding register_enrollment_node
  register_enrollment_node_lem now token n req s k =
      let v = find_registration net now token n req s.enrollment_queue in
      let p = found-IsPending now token n req s.enrollment_queue in
      (registered-IsKept now token s v p k, pending-IsRegistered now token s v p)
