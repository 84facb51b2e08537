-- ===== src/Consensus/Grouping.antt =====
-- internal/consensus/engine.go: after the loop over the candidates the groups are a partition by
-- signature.
use llama_wrangler.Common.{
  ◌≡◌, refl, inl, inr, false, ◌||◌, String, List, [], ◌∷◌, arith, Bool-cases,
}
use llama_wrangler.Common.Text.{str_eq, eq_iff, eq_refl}
use llama_wrangler.Consensus.Engine.{
  Floats, Scored, Group, join_group, new_group, add_to_groups, group_all,
}
use llama_wrangler.Consensus.Groups.{
  count_signature, present, IsGroup, Differs, IsGrouped, IsCovered, rev_append, other-IsGroup,
  others-IsGrouped, joined-IsGroup,
}

module _ {F : Type 0} (floats : Floats F) where
  add_present :
      (x : Scored F) (gs : List (Group F)) (σ : String)
      → present σ (add_to_groups floats x gs) ≡ (str_eq x.signature σ || present σ gs)
  unfolding add_to_groups join_group new_group
  add_present x [] σ = refl
  add_present x (g ∷ gs) σ = ground (
    arith,
    eq_iff g.signature x.signature,
    eq_iff g.signature σ,
    eq_iff x.signature σ,
    add_present x gs σ,
  )

  add-Differs :
      (x : Scored F) (gs : List (Group F)) (σ : String)
      → str_eq x.signature σ ≡ false
      → Differs σ gs
      → Differs σ (add_to_groups floats x gs)
  unfolding add_to_groups join_group new_group
  add-Differs x [] σ e d = (e, tt)
  add-Differs x (g ∷ gs) σ e d = elim (Bool-cases (str_eq g.signature x.signature)) [
    | inl q ↦ rw (q, add_to_groups) d
    | inr q ↦ rw (q, add_to_groups) (d.0, add-Differs x gs σ e d.1)
  ]

  new-IsGroup :
      (x : Scored F) (xs : List (Scored F))
      → count_signature x.signature xs ≡ 0
      → IsGroup (x ∷ xs) (join_group floats x (new_group floats x))
  unfolding join_group new_group
  new-IsGroup x xs e = record {
    counted = rw (eq_refl x.signature) (omega (arith, e));
    nonempty = omega arith;
    own = ((refl, inl refl), tt);
  }

  sym_differs : (s t : String) → str_eq s t ≡ false → str_eq t s ≡ false
  sym_differs s t e = ground (arith, eq_iff s t, eq_iff t s)

  add-IsGrouped :
      (x : Scored F) (xs : List (Scored F)) (gs : List (Group F))
      → (present x.signature gs ≡ false → count_signature x.signature xs ≡ 0)
      → IsGrouped xs gs
      → IsGrouped (x ∷ xs) (add_to_groups floats x gs)
  unfolding add_to_groups join_group
  add-IsGrouped x xs [] new h = (new-IsGroup x xs (new refl), tt, tt)
  add-IsGrouped x xs (g ∷ gs) new h = elim (Bool-cases (str_eq g.signature x.signature)) [
    | inl q ↦
        let same = (eq_iff g.signature x.signature).0 q in
        rw (q, add_to_groups)
          (joined-IsGroup floats x xs g q h.0, h.1, others-IsGrouped x xs gs (rw (← same) h.1) h.2)
    | inr q ↦
        rw (q, add_to_groups)
          (
            other-IsGroup x xs g q h.0,
            add-Differs x gs g.signature (sym_differs g.signature x.signature q) h.1,
            add-IsGrouped x xs gs (λ e. new (ground arith)) h.2,
          )
  ]

  add-IsCovered :
      (x : Scored F) (xs : List (Scored F)) (gs : List (Group F))
      → IsCovered xs gs
      → IsCovered (x ∷ xs) (add_to_groups floats x gs)
  add-IsCovered x xs gs c σ e = ground (arith, add_present x gs σ, c σ)

  pub group_from-IsGrouped :
      (xs ys : List (Scored F)) (gs : List (Group F))
      → IsGrouped ys gs
      → IsCovered ys gs
      → IsGrouped (rev_append xs ys) (group_all floats xs gs)
        × IsCovered (rev_append xs ys) (group_all floats xs gs)
  unfolding group_all
  group_from-IsGrouped [] ys gs h c = (h, c)
  group_from-IsGrouped (x ∷ xs) ys gs h c =
      group_from-IsGrouped xs (x ∷ ys) (add_to_groups floats x gs)
        (add-IsGrouped x ys gs (c x.signature) h) (add-IsCovered x ys gs c)
