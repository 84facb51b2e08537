-- ===== src/Common/Dict.antt =====
-- Go's `map[string]V` as an association list. A missing key is `none`; the zero value that Go
-- returns there is written where the program reads it.
use Prim.Native.String.{String}
use mathlib.Core.Path.{◌≡◌, refl, sym, subst, subst₂}
use mathlib.Core.Logic.{inl, inr}
use llama_wrangler.Common.Split.{Bool-cases}
use mathlib.Core.List.{List, [], ◌∷◌}
use mathlib.Core.Option.{Option, none, some}
use native.Mathlib.Omega.{arith}
use llama_wrangler.Common.Tests.{if◌then◌else◌}
use llama_wrangler.Common.Text.{str_eq, eq_iff}

abbrev pub Dict {ℓ} : Type ℓ → Type ℓ
Dict V = List (String × V)

module _ {ℓ} {V : Type ℓ} where
  -- `m[key]`
  unfoldable pub lookup : String → Dict V → Option V
  lookup key [] = none
  lookup key ((here, value) ∷ rest) = if str_eq here key then some value else lookup key rest

  -- `m[key] = value`
  unfoldable pub insert : String → V → Dict V → Dict V
  insert key value [] = (key, value) ∷ []
  insert key value ((here, old) ∷ rest) =
      if str_eq here key then (here, value) ∷ rest else (here, old) ∷ insert key value rest

  -- `delete(m, k)`
  unfoldable pub erase : String → Dict V → Dict V
  erase k [] = []
  erase k ((j, w) ∷ m) = if str_eq j k then erase k m else (j, w) ∷ erase k m

  -- `for k, v := range m { m[k] = f(v) }`
  unfoldable pub map_values : (V → V) → Dict V → Dict V
  map_values f [] = []
  map_values f ((j, w) ∷ m) = (j, f w) ∷ map_values f m

  pub lookup-insert :
      (key asked : String) (value : V) (m : Dict V)
      → lookup asked (insert key value m)
        ≡ (if str_eq key asked then some value else lookup asked m)
  unfolding insert lookup
  lookup-insert key asked value [] = refl
  lookup-insert key asked value ((here, old) ∷ rest) = ground (
    arith,
    lookup-insert key asked value rest,
    eq_iff here key,
    eq_iff here asked,
    eq_iff key asked,
  )

  pub lookup-erase :
      (k j : String) (m : Dict V) → lookup j (erase k m) ≡ (if str_eq k j then none else lookup j m)
  unfolding lookup erase
  lookup-erase k j [] = ground arith
  lookup-erase k j ((i, w) ∷ m) =
      ground (arith, eq_iff k j, eq_iff i k, eq_iff i j, lookup-erase k j m)

  pub lookup-map_values :
      (f : V → V) (j : String) (m : Dict V)
      → lookup j (map_values f m) ≡ elim (lookup j m) [ none ↦ none | some v ↦ some (f v) ]
  unfolding lookup map_values
  lookup-map_values f j [] = refl
  lookup-map_values f j ((i, w) ∷ m) = ground (arith, lookup-map_values f j m)

-- A predicate of every key with its value.
abbrev pub AllEntries {ℓ κ} : {V : Type ℓ} → (String → V → Type κ) → Dict V → Type κ
AllEntries P [] = Unit
AllEntries P ((k, v) ∷ m) = P k v × AllEntries P m

module _ {ℓ κ} {V : Type ℓ} (P : String → V → Type κ) where
  pub insert-AllEntries :
      (k : String) (v : V) (m : Dict V) → P k v → AllEntries P m → AllEntries P (insert k v m)
  unfolding insert
  insert-AllEntries k v [] h a = (h, tt)
  insert-AllEntries k v ((j, w) ∷ m) h a = elim (Bool-cases (str_eq j k)) [
    | inl e ↦ rw (e, insert) (subst (λ x. P x v) (sym ((eq_iff j k).0 e)) h, a.1)
    | inr e ↦ rw (e, insert) (a.0, insert-AllEntries k v m h a.1)
  ]

  pub erase-AllEntries : (k : String) (m : Dict V) → AllEntries P m → AllEntries P (erase k m)
  unfolding erase
  erase-AllEntries k [] a = tt
  erase-AllEntries k ((j, w) ∷ m) a = elim (Bool-cases (str_eq j k)) [
    | inl e ↦ rw (e, erase) (erase-AllEntries k m a.1)
    | inr e ↦ rw (e, erase) (a.0, erase-AllEntries k m a.1)
  ]

  pub lookup-AllEntries :
      (k : String) (m : Dict V) (v : V) → AllEntries P m → lookup k m ≡ some v → P k v
  unfolding lookup
  lookup-AllEntries k [] v a e = cc
  lookup-AllEntries k ((j, w) ∷ m) v a e = elim (Bool-cases (str_eq j k)) [
    | inl q ↦
        let at_key : j ≡ k = (eq_iff j k).0 q in
        let at_value : w ≡ v = ground arith in subst₂ P at_key at_value a.0
    | inr q ↦ lookup-AllEntries k m v a.1 (ground arith)
  ]
