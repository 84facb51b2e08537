-- ===== src/Consensus/Best.antt =====
-- internal/consensus/engine.go: the largest group and the best member of a group, and the counts of
-- the candidates by signature.
use llama_wrangler.Common.{
  ℕ, ◌+◌, ◌≤◌, ◌<◌, ◌≡◌, refl, ◌⊎◌, inl, inr, Bool, true, false, String, List, [], ◌∷◌,
  if◌then◌else◌, length, All, In, arith,
}
use llama_wrangler.Common.Text.{str_eq, eq_iff, eq_refl}
use llama_wrangler.Consensus.Engine.{
  Floats, Scored, Group, better_group, best_group, better_member, best_member,
}
use llama_wrangler.Consensus.Groups.{count_signature, IsGroup, IsGrouped, rev_append}

module _ {F : Type 0} where
  pub count-rev_append :
      (σ : String) (xs ys : List (Scored F))
      → count_signature σ (rev_append xs ys) ≡ count_signature σ xs + count_signature σ ys
  count-rev_append σ [] ys = omega arith
  count-rev_append σ (x ∷ xs) ys = omega (arith, count-rev_append σ xs (x ∷ ys))

  pub length-rev_append :
      (xs ys : List (Scored F)) → length (rev_append xs ys) ≡ length xs + length ys
  length-rev_append [] ys = omega arith
  length-rev_append (x ∷ xs) ys = omega (arith, length-rev_append xs (x ∷ ys))

  pub In-rev_append :
      (m : Scored F) (xs ys : List (Scored F)) → In m (rev_append xs ys) → In m xs ⊎ In m ys
  In-rev_append m [] ys i = inr i
  In-rev_append m (x ∷ xs) ys i = elim (In-rev_append m xs (x ∷ ys) i) [
    | inl p ↦ inl (inr p)
    | inr (inl e) ↦ inl (inl e)
    | inr (inr p) ↦ inr p
  ]

  pub rev_append-In :
      (m : Scored F) (xs ys : List (Scored F)) → In m xs ⊎ In m ys → In m (rev_append xs ys)
  rev_append-In m [] ys (inl i) = elim i [ ]
  rev_append-In m [] ys (inr i) = i
  rev_append-In m (x ∷ xs) ys (inl (inl e)) = rev_append-In m xs (x ∷ ys) (inr (inl e))
  rev_append-In m (x ∷ xs) ys (inl (inr i)) = rev_append-In m xs (x ∷ ys) (inl i)
  rev_append-In m (x ∷ xs) ys (inr i) = rev_append-In m xs (x ∷ ys) (inr (inr i))

  pub In-group :
      (xs : List (Scored F)) (g : Group F) (gs : List (Group F))
      → IsGrouped xs gs
      → In g gs
      → IsGroup xs g
  In-group xs g [] a i = elim i [ ]
  In-group xs g (h ∷ gs) a (inl e) = rw e a.0
  In-group xs g (h ∷ gs) a (inr p) = In-group xs g gs a.2 p

  -- The members of a candidate's signature and those of another are different candidates.
  pub two_signatures :
      (σ τ : String) (xs : List (Scored F))
      → str_eq σ τ ≡ false
      → count_signature σ xs + count_signature τ xs ≤ length xs
  two_signatures σ τ [] d = omega arith
  two_signatures σ τ (x ∷ xs) d =
      ground
        (arith, two_signatures σ τ xs d, eq_iff x.signature σ, eq_iff x.signature τ, eq_iff σ τ)

  pub no_votes :
      (xs : List (Scored F)) (m : Scored F) → In m xs → 0 < count_signature m.signature xs
  no_votes [] m i = elim i [ ]
  no_votes (x ∷ xs) m (inl e) = rw (e, eq_refl x.signature) omega arith
  no_votes (x ∷ xs) m (inr p) = omega (arith, no_votes xs m p)

  module _ (floats : Floats F) where
    pick_member :
        (b : Bool) (g w : Scored F) (ms : List (Scored F)) (x : Scored F)
        → In x ((if b then g else w) ∷ ms)
        → In x (w ∷ g ∷ ms)
    pick_member true g w ms x i = inr i
    pick_member false g w ms x (inl e) = inl e
    pick_member false g w ms x (inr i) = inr (inr i)

    pub best_member-In :
        (w : Scored F) (ms : List (Scored F)) → In (best_member floats w ms) (w ∷ ms)
    unfolding best_member
    best_member-In w [] = inl refl
    best_member-In w (m ∷ ms) =
        pick_member (better_member floats m w) m w ms (best_member floats w (m ∷ ms))
          (best_member-In (if better_member floats m w then m else w) ms)

    pick_group :
        (b : Bool) (g w : Group F) (gs : List (Group F)) (x : Group F)
        → In x ((if b then g else w) ∷ gs)
        → In x (w ∷ g ∷ gs)
    pick_group true g w gs x i = inr i
    pick_group false g w gs x (inl e) = inl e
    pick_group false g w gs x (inr i) = inr (inr i)

    pub best_group-In : (w : Group F) (gs : List (Group F)) → In (best_group floats w gs) (w ∷ gs)
    unfolding best_group
    best_group-In w [] = inl refl
    best_group-In w (g ∷ gs) =
        pick_group (better_group floats g w) g w gs (best_group floats w (g ∷ gs))
          (best_group-In (if better_group floats g w then g else w) gs)

    larger_picked :
        (g w : Group F) (n : ℕ)
        → length (if better_group floats g w then g else w).members ≤ n
        → length w.members ≤ n × length g.members ≤ n
    unfolding better_group
    larger_picked g w n h = ground arith

    pub best_group_largest :
        (w : Group F) (gs : List (Group F))
        → All (λ g. length g.members ≤ length (best_group floats w gs).members) (w ∷ gs)
    unfolding best_group
    best_group_largest w [] = (omega arith, tt)
    best_group_largest w (g ∷ gs) =
        let rest = best_group_largest (if better_group floats g w then g else w) gs in
        let both = larger_picked g w (length (best_group floats w (g ∷ gs)).members) rest.0 in
        (both.0, (both.1, rest.1))
