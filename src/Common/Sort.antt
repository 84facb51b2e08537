-- ===== src/Common/Sort.antt =====
-- `sort.SliceStable` with a function that says which of two elements comes first.
use llama_wrangler.Common.Tests.{if◌then◌else◌}
use llama_wrangler.Common.Lists.{length, In}
use Prim.Native.Nat.{suc}
use mathlib.Core.Path.{◌≡◌, refl, ap, ◌∙◌}
use mathlib.Core.Logic.{inl, inr}
use mathlib.Core.Bool.{Bool, true, false}
use mathlib.Core.List.{List, [], ◌∷◌}

module _ {A : Type 0} (less : A → A → Bool) where
  -- `x` comes before the elements that do not come before it.
  unfoldable pub insert_sorted : A → List A → List A
  insert_sorted x [] = x ∷ []
  insert_sorted x (y ∷ ys) = if less y x then y ∷ insert_sorted x ys else x ∷ y ∷ ys

  unfoldable pub sort_stable : List A → List A
  sort_stable [] = []
  sort_stable (x ∷ xs) = insert_sorted x (sort_stable xs)

  In-insert_cases :
      (b : Bool) (a x y : A) (ys zs : List A)
      → In a (if b then y ∷ zs else x ∷ y ∷ ys)
      → (In a zs → In a (x ∷ ys))
      → In a (x ∷ y ∷ ys)
  In-insert_cases true a x y ys zs (inl e) h = inr (inl e)
  In-insert_cases true a x y ys zs (inr i) h = elim (h i) [ inl e ↦ inl e | inr j ↦ inr (inr j) ]
  In-insert_cases false a x y ys zs i h = i

  In-insert_sorted : (a x : A) (ys : List A) → In a (insert_sorted x ys) → In a (x ∷ ys)
  unfolding insert_sorted
  In-insert_sorted a x [] i = i
  In-insert_sorted a x (y ∷ ys) i =
      In-insert_cases (less y x) a x y ys (insert_sorted x ys) i (In-insert_sorted a x ys)

  -- What is sorted holds nothing but the elements.
  pub In-sort_stable : (a : A) (xs : List A) → In a (sort_stable xs) → In a xs
  unfolding sort_stable
  In-sort_stable a [] i = i
  In-sort_stable a (x ∷ xs) i = elim (In-insert_sorted a x (sort_stable xs) i) [
    | inl e ↦ inl e
    | inr j ↦ inr (In-sort_stable a xs j)
  ]

  insert_sorted-cases :
      (b : Bool) (a x y : A) (ys zs : List A)
      → In a (x ∷ y ∷ ys)
      → (In a (x ∷ ys) → In a zs)
      → In a (if b then y ∷ zs else x ∷ y ∷ ys)
  insert_sorted-cases true a x y ys zs (inl e) h = inr (h (inl e))
  insert_sorted-cases true a x y ys zs (inr (inl e)) h = inl e
  insert_sorted-cases true a x y ys zs (inr (inr i)) h = inr (h (inr i))
  insert_sorted-cases false a x y ys zs i h = i

  insert_sorted-In : (a x : A) (ys : List A) → In a (x ∷ ys) → In a (insert_sorted x ys)
  unfolding insert_sorted
  insert_sorted-In a x [] i = i
  insert_sorted-In a x (y ∷ ys) i =
      insert_sorted-cases (less y x) a x y ys (insert_sorted x ys) i (insert_sorted-In a x ys)

  -- No element is lost.
  pub sort_stable-In : (a : A) (xs : List A) → In a xs → In a (sort_stable xs)
  unfolding sort_stable
  sort_stable-In a [] i = i
  sort_stable-In a (x ∷ xs) (inl e) = insert_sorted-In a x (sort_stable xs) (inl e)
  sort_stable-In a (x ∷ xs) (inr i) =
      insert_sorted-In a x (sort_stable xs) (inr (sort_stable-In a xs i))

  length-insert_sorted : (x : A) (ys : List A) → length (insert_sorted x ys) ≡ suc (length ys)
  unfolding insert_sorted
  length-insert_sorted x [] = refl
  length-insert_sorted x (y ∷ ys) =
      elim (less y x)
        as (λ b.
          length (if b then y ∷ insert_sorted x ys else x ∷ y ∷ ys) ≡ suc (suc (length ys))) [
            | true ↦ ap suc (length-insert_sorted x ys)
            | false ↦ refl
          ]

  pub length-sort_stable : (xs : List A) → length (sort_stable xs) ≡ length xs
  unfolding sort_stable
  length-sort_stable [] = refl
  length-sort_stable (x ∷ xs) =
      length-insert_sorted x (sort_stable xs) ∙ ap suc (length-sort_stable xs)
