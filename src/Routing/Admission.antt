-- ===== src/Routing/Admission.antt =====
-- internal/routing/routing.go: which nodes `classify` admits.
use llama_wrangler.Common.{
  ℕ, ◌≡◌, refl, ◌↔◌, ◌<◌, ◌≤◌, ◌+◌, inl, inr, Bool, true, false, String, Option, none, some, ltb,
  ◌==◌, if◌then◌else◌, arith, Bool-cases,
}
use llama_wrangler.Common.Text.{str_eq}
use llama_wrangler.Appstate.Node.{Node}
use llama_wrangler.Routing.Policy.{
  classify, classify_trust, control_level, trust_level, node_approved, heartbeat_required,
  heartbeat_freshness, freshness, managed_heartbeat_freshness_window,
}

-- The last report is set and at most two minutes old.
abbrev pub IsTimely : ℕ → Option ℕ → Type 0
IsTimely now none = ⊥
IsTimely now (some t) = 0 < t × now ≤ t + 120_000_000_000

-- What the policy asks of a node.
pub record IsAdmitted {F : Type 0} (consensus_mode : Bool) (now : ℕ) (n : Node F) : Type 0 where
  pub enabled : n.enabled ≡ true
  pub approved : node_approved n ≡ true
  pub not_disabled : str_eq n.status "disabled" ≡ false
  pub not_failed : str_eq n.status "failed" ≡ false
  pub timely : heartbeat_required n ≡ true → IsTimely now n.last_reported_at
  pub not_external : str_eq (trust_level n) "external" ≡ false
  pub not_passive : consensus_mode ≡ true → str_eq (control_level n) "passive" ≡ false
  pub verified : consensus_mode ≡ true → str_eq (trust_level n) "lan_unverified" ≡ false

set_cases :
    (b c : Bool)
    → let s : String = if b then "missing" else if c then "stale" else "fresh" in
      ((str_eq s "missing" ≡ false) × (str_eq s "stale" ≡ false)) ↔ ((b ≡ false) × (c ≡ false))
set_cases true c = (λ h. ground (arith, h.0), λ h. ground (arith, h.0))
set_cases false true = (λ h. ground (arith, h.1), λ h. ground (arith, h.1))
set_cases false false = (λ h. (refl, refl), λ h. (refl, refl))

freshness_iff :
    (now : ℕ) (o : Option ℕ)
    → ((str_eq (freshness now o) "missing" ≡ false) × (str_eq (freshness now o) "stale" ≡ false))
      ↔ IsTimely now o
freshness_iff now none = (λ h. ground (arith, h.0), λ h. elim h [ ])
freshness_iff now (some t) =
    let c = set_cases (t == 0) (ltb (t + managed_heartbeat_freshness_window) now) in
    (
      λ h. let k = c.0 h in (ground (arith, k.0), ground (arith, k.1)),
      λ h. c.1 (ground (arith, h.0), ground (arith, h.1)),
    )

module _ {F : Type 0} where
  heartbeat_iff :
      (n : Node F) (now : ℕ)
      → ((str_eq (heartbeat_freshness n now) "missing" ≡ false)
          × (str_eq (heartbeat_freshness n now) "stale" ≡ false))
        ↔ IsTimely now n.last_reported_at
  unfolding heartbeat_freshness
  heartbeat_iff n now = freshness_iff now n.last_reported_at

  -- `classify` admits a node just when it is enabled, approved, neither disabled nor failed, not
  -- external, timely if its heartbeat is required, and in a consensus neither passive nor unverified.
  pub classify_iff :
      (n : Node F) (consensus_mode : Bool) (now : ℕ)
      → ((classify n consensus_mode now).eligible ≡ true) ↔ IsAdmitted consensus_mode now n
  unfolding classify classify_trust
  classify_iff n consensus_mode now =
      let f = heartbeat_iff n now in
      (
        λ ok. record {
          enabled = ground (arith, ok);
          approved = ground (arith, ok);
          not_disabled = ground (arith, ok);
          not_failed = ground (arith, ok);
          timely = λ r. f.0 (ground (arith, ok, r), ground (arith, ok, r));
          not_external = ground (arith, ok);
          not_passive = λ c. ground (arith, ok, c);
          verified = λ c. ground (arith, ok, c);
        },
        λ h. elim (Bool-cases (heartbeat_required n)) [
          | inl r ↦
              let (a, b) = f.1 (h.timely r) in
              ground (
                arith, a, b, h.enabled, h.approved, h.not_disabled, h.not_failed, h.not_external,
                h.not_passive, h.verified,
              )
          | inr r ↦ ground (
            arith, r, h.enabled, h.approved, h.not_disabled, h.not_failed, h.not_external,
            h.not_passive, h.verified,
          )
        ],
      )
