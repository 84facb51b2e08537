-- ===== src/Appstate/Registered.antt =====
-- internal/appstate/state.go: the stored nodes are in shape.
use llama_wrangler.Common.{
  ℕ, ◌≡◌, refl, sym, ◌⊎◌, inl, inr, Bool, true, false, not, ◌||◌, String, Option, none, some,
  if◌then◌else◌,
}
use llama_wrangler.Common.Text.{str_eq, equal_fold}
use llama_wrangler.Common.Dict.{AllEntries, insert-AllEntries, insert}
use llama_wrangler.Appstate.Node.{Node}
use llama_wrangler.Appstate.Normal.{Network, normal_control, normal_approval, normalize_node}
use llama_wrangler.Appstate.Enrollment.{Registry, upsert_node, named_node}

abbrev is_set : Option ℕ → Bool
is_set none = false
is_set (some t) = true

-- The flags of a node agree with its control level and its approval state.
pub record IsNormal {F : Type 0} (n : Node F) : Type 0 where
  pub control : (n.control_level ≡ "passive") ⊎ (n.control_level ≡ "managed")
  pub approval : n.approved ≡ str_eq n.approval_state "approved"
  pub management : n.management_supported ≡ not (str_eq n.control_level "passive")
  pub report : is_set n.last_reported_at ≡ not (str_eq n.control_level "passive")

report_agrees : (b : Bool) (t : ℕ) → is_set (if b then none else some t) ≡ not b
report_agrees true t = refl
report_agrees false t = refl

one_of_two :
    (b c d : Bool)
    → let s : String =
        if b then if c then "passive" else "managed" else if d then "passive" else "managed" in
      (s ≡ "passive") ⊎ (s ≡ "managed")
one_of_two true true d = inl refl
one_of_two true false d = inr refl
one_of_two false c true = inl refl
one_of_two false c false = inr refl

flag_agrees :
    (b c f : Bool) (s : String)
    → str_eq s "approved" ≡ b
    → let r =
        if◌then◌else◌ {A = String × Bool} b
          ("approved", true)
          (if c then (s, false) else ((if f then "approved" else "pending"), f)) in
      r.1 ≡ str_eq r.0 "approved"
flag_agrees true c f s e = refl
flag_agrees false true f s e = sym e
flag_agrees false false true s e = refl
flag_agrees false false false s e = refl

module _ {F : Type 0} (net : Network) where
  control_cases : (n : Node F) → (normal_control n ≡ "passive") ⊎ (normal_control n ≡ "managed")
  unfolding normal_control
  control_cases n =
      one_of_two (str_eq n.control_level "") (equal_fold n.role "passive")
        (str_eq n.control_level "passive")

  approval_agrees : (n : Node F) → (normal_approval n).1 ≡ str_eq (normal_approval n).0 "approved"
  unfolding normal_approval
  approval_agrees n =
      flag_agrees (str_eq n.approval_state "approved")
        (str_eq n.approval_state "pending"
          || str_eq n.approval_state "rejected"
          || str_eq n.approval_state "revoked")
        n.approved n.approval_state refl

  -- `normalizeNode` brings any node into shape.
  pub normalize_node-IsNormal : (now : ℕ) (n : Node F) → IsNormal (normalize_node net now n)
  unfolding normalize_node
  normalize_node-IsNormal now n = record {
    control = control_cases n;
    approval = approval_agrees n;
    management = refl;
    report = report_agrees (str_eq (normal_control n) "passive") _;
  }

  -- Every stored node is in shape and stands under its own name.
  abbrev pub IsKept : Registry F → Type 0
  IsKept s = AllEntries (λ id n. (id ≡ n.node_id) × IsNormal n) s.nodes

  pub kept_insert :
      (s : Registry F) (n : Node F)
      → IsKept s
      → IsNormal n
      → AllEntries (λ id m. (id ≡ m.node_id) × IsNormal m) (insert n.node_id n s.nodes)
  kept_insert s n k h =
      insert-AllEntries (λ id m. (id ≡ m.node_id) × IsNormal m) n.node_id n s.nodes (refl, h) k

  -- When every stored node is in shape and under its name, this holds after one more is stored.
  pub upsert_node-IsKept :
      (now : ℕ) (random : String) (n : Node F) (s : Registry F)
      → IsKept s
      → IsKept (upsert_node net now random n s)
  unfolding upsert_node
  upsert_node-IsKept now random n s k =
      kept_insert s (normalize_node net now (named_node now random n)) k
        (normalize_node-IsNormal now (named_node now random n))
