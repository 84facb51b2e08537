-- ===== src/Consensus/Groups.antt =====
-- internal/consensus/engine.go: the loop over the candidates puts each into the group of its
-- signature, and nowhere else.
use llama_wrangler.Common.{
  ℕ, ◌+◌, ◌<◌, ◌≡◌, refl, sym, inl, inr, Bool, true, false, ◌||◌, String, List, [], ◌∷◌, ◌++◌,
  arith, if◌then◌else◌, length, length-append, All, In,
}
use llama_wrangler.Common.Text.{str_eq, eq_iff}
use llama_wrangler.Consensus.Engine.{Floats, Scored, Group, join_group}

module _ {F : Type 0} where
  -- The candidates of a signature.
  abbrev pub count_signature : String → List (Scored F) → ℕ
  count_signature σ [] = 0
  count_signature σ (x ∷ xs) = (if str_eq x.signature σ then 1 else 0) + count_signature σ xs

  -- The candidates in the order in which the loop leaves them behind.
  abbrev pub rev_append : List (Scored F) → List (Scored F) → List (Scored F)
  rev_append [] ys = ys
  rev_append (x ∷ xs) ys = rev_append xs (x ∷ ys)

  abbrev pub present : String → List (Group F) → Bool
  present σ [] = false
  present σ (g ∷ gs) = str_eq g.signature σ || present σ gs

  -- A group holds the candidates of its signature among `xs`, all of them.
  pub record IsGroup (xs : List (Scored F)) (g : Group F) : Type 0 where
    pub counted : length g.members ≡ count_signature g.signature xs
    pub nonempty : 0 < length g.members
    pub own : All (λ m. (m.signature ≡ g.signature) × In m xs) g.members

  abbrev pub Differs : String → List (Group F) → Type 0
  Differs σ gs = All (λ g. str_eq g.signature σ ≡ false) gs

  abbrev pub IsGrouped : List (Scored F) → List (Group F) → Type 0
  IsGrouped xs [] = Unit {0}
  IsGrouped xs (g ∷ gs) = IsGroup xs g × Differs g.signature gs × IsGrouped xs gs

  abbrev pub IsCovered : List (Scored F) → List (Group F) → Type 0
  IsCovered xs gs = (σ : String) → present σ gs ≡ false → count_signature σ xs ≡ 0

  pub own_later :
      (σ : String) (x : Scored F) (xs ms : List (Scored F))
      → All (λ m. (m.signature ≡ σ) × In m xs) ms
      → All (λ m. (m.signature ≡ σ) × In m (x ∷ xs)) ms
  own_later σ x xs [] a = tt
  own_later σ x xs (m ∷ ms) a = ((a.0.0, inr a.0.1), own_later σ x xs ms a.1)

  own_snoc :
      (σ : String) (x : Scored F) (xs ms : List (Scored F))
      → x.signature ≡ σ
      → All (λ m. (m.signature ≡ σ) × In m xs) ms
      → All (λ m. (m.signature ≡ σ) × In m (x ∷ xs)) (ms ++ x ∷ [])
  own_snoc σ x xs [] e a = ((e, inl refl), tt)
  own_snoc σ x xs (m ∷ ms) e a = ((a.0.0, inr a.0.1), own_snoc σ x xs ms e a.1)

  -- A candidate of another signature leaves a group as it was.
  pub other-IsGroup :
      (x : Scored F) (xs : List (Scored F)) (g : Group F)
      → str_eq g.signature x.signature ≡ false
      → IsGroup xs g
      → IsGroup (x ∷ xs) g
  other-IsGroup x xs g d h = record {
    counted =
        ground (arith, h.counted, eq_iff x.signature g.signature, eq_iff g.signature x.signature);
    nonempty = h.nonempty;
    own = own_later g.signature x xs g.members h.own;
  }

  pub others-IsGrouped :
      (x : Scored F) (xs : List (Scored F)) (gs : List (Group F))
      → Differs x.signature gs
      → IsGrouped xs gs
      → IsGrouped (x ∷ xs) gs
  others-IsGrouped x xs [] d h = tt
  others-IsGrouped x xs (g ∷ gs) d h =
      (other-IsGroup x xs g d.0 h.0, h.1, others-IsGrouped x xs gs d.1 h.2)

  module _ (floats : Floats F) where
    pub joined-IsGroup :
        (x : Scored F) (xs : List (Scored F)) (g : Group F)
        → str_eq g.signature x.signature ≡ true
        → IsGroup xs g
        → IsGroup (x ∷ xs) (join_group floats x g)
    unfolding join_group
    joined-IsGroup x xs g e h =
        let same : x.signature ≡ g.signature = sym ((eq_iff g.signature x.signature).0 e) in
        record {
          counted =
              omega (
                arith,
                length-append g.members (x ∷ []),
                h.counted,
                one_more x xs g.signature same,
              );
          nonempty = omega (arith, length-append g.members (x ∷ []));
          own = own_snoc g.signature x xs g.members same h.own;
        }
      where
        one_more :
            (x : Scored F) (xs : List (Scored F)) (σ : String)
            → x.signature ≡ σ
            → count_signature σ (x ∷ xs) ≡ 1 + count_signature σ xs
        one_more x xs σ e = ground (arith, eq_iff x.signature σ)
