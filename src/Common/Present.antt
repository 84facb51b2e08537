-- ===== src/Common/Present.antt =====
-- How many of some keys a Go map has, and how that number grows with the map.
use Prim.Native.Nat.{ℕ, ◌+◌, ◌≤◌}
use Prim.Native.String.{String}
use mathlib.Core.Path.{◌≡◌, refl, ap}
use mathlib.Core.Logic.{inl, inr}
use mathlib.Core.Bool.{Bool, true, false}
use mathlib.Core.List.{List, [], ◌∷◌}
use mathlib.Core.Option.{Option, none, some}
use native.Mathlib.Omega.{arith}
use llama_wrangler.Common.Tests.{if◌then◌else◌}
use llama_wrangler.Common.Lists.{length, In}
use llama_wrangler.Common.Text.{str_eq, eq_iff}
use llama_wrangler.Common.Dict.{Dict, lookup, insert, lookup-insert}

abbrev pub one_if_some : {V : Type 0} → Option V → ℕ
one_if_some none = 0
one_if_some (some v) = 1

abbrev pub one_if_none : {V : Type 0} → Option V → ℕ
one_if_none none = 1
one_if_none (some v) = 0

module _ {V : Type 0} where
  -- The number of the keys that are in the map.
  unfoldable pub present : Dict V → List String → ℕ
  unfolding lookup
  present m [] = 0
  present m (k ∷ ks) = one_if_some (lookup k m) + present m ks

  pub length-insert :
      (k : String) (v : V) (m : Dict V)
      → length (insert k v m) ≡ length m + one_if_none (lookup k m)
  unfolding insert lookup
  length-insert k v [] = refl
  length-insert k v ((j, w) ∷ m) = ground (arith, length-insert k v m)

  more_found :
      (same : Bool) (v : V) (o : Option V)
      → one_if_some o ≤ one_if_some (if same then some v else o)
  more_found true v none = omega arith
  more_found true v (some w) = omega arith
  more_found false v o = omega arith

  present_grows :
      (k : String) (v : V) (m : Dict V) (ks : List String)
      → present m ks ≤ present (insert k v m) ks
  unfolding present
  present_grows k v m [] = omega arith
  present_grows k v m (j ∷ ks) =
      let here = more_found (str_eq k j) v (lookup j m) in
      rw (lookup-insert k j v m) (omega (arith, here, present_grows k v m ks))

  found_now :
      (v : V) (o : Option V) (same : Bool)
      → same ≡ true
      → one_if_some o + one_if_none o ≤ one_if_some (if same then some v else o)
  found_now v none same e = rw (e) (omega arith)
  found_now v (some w) same e = rw (e) (omega arith)

  -- A key of the list that is new to the map counts for one more.
  pub present-insert :
      (k : String) (v : V) (m : Dict V) (ks : List String)
      → In k ks
      → present m ks + one_if_none (lookup k m) ≤ present (insert k v m) ks
  unfolding present
  present-insert k v m [] i = elim i [ ]
  present-insert k v m (j ∷ ks) (inl e) =
      let here = found_now v (lookup j m) (str_eq k j) ((eq_iff k j).1 e) in
      let none_here : one_if_none (lookup k m) ≡ one_if_none (lookup j m) =
        ap (λ x. one_if_none (lookup x m)) e in
      rw (lookup-insert k j v m) (omega (arith, here, none_here, present_grows k v m ks))
  present-insert k v m (j ∷ ks) (inr i) =
      let here = more_found (str_eq k j) v (lookup j m) in
      rw (lookup-insert k j v m) (omega (arith, here, present-insert k v m ks i))
