-- ===== src/Base/Sort.antt =====
-- `ORDER BY` of a number: insertion sort, and what it keeps.
use mathlib.Core.Logic.{inl, inr}
use axmi_pusher.Base.Tests.{Bool-cases, leb→le, leb, if◌then◌else◌}
use axmi_pusher.Base.Lists.{take, All-take, length, All, count}
use Prim.Native.Nat.{zero, ℕ, suc, ◌≤◌}
use mathlib.Core.Path.{◌≡◌, refl, ap, ◌∙◌}
use mathlib.Core.Bool.{Bool}
use mathlib.Core.List.{List, [], ◌∷◌}
use native.Mathlib.Omega.{arith}

module _ {ℓ} {A : Type ℓ} (k : A → ℕ) where
  insert_by : A → List A → List A
  insert_by a [] = a ∷ []
  insert_by a (x ∷ xs) =
      let rest = insert_by a xs in if leb (k a) (k x) then a ∷ x ∷ xs else x ∷ rest

  unfoldable pub sort_by : List A → List A
  unfolding insert_by
  sort_by [] = []
  sort_by (x ∷ xs) = insert_by x (sort_by xs)

  -- Each element is at most those behind it.
  abbrev pub IsSorted : List A → Type 0
  IsSorted [] = Unit
  IsSorted (x ∷ xs) = All (λ y. k x ≤ k y) xs × IsSorted xs

module _ {ℓ} {A : Type ℓ} (k : A → ℕ) where
  All-insert_by : (P : A → Type 0) (a : A) (xs : List A) → P a → All P xs → All P (insert_by k a xs)
  unfolding insert_by
  All-insert_by P a [] p h = (p, tt)
  All-insert_by P a (x ∷ xs) p h = elim (Bool-cases (leb (k a) (k x))) [
    | inl before ↦ rw before (p, h)
    | inr behind ↦ rw behind (h.0, All-insert_by P a xs p h.1)
  ]

  pub All-sort_by : (P : A → Type 0) (xs : List A) → All P xs → All P (sort_by k xs)
  unfolding sort_by
  All-sort_by P [] h = h
  All-sort_by P (x ∷ xs) h = All-insert_by P x (sort_by k xs) h.0 (All-sort_by P xs h.1)

  All-above :
      (a x : A) (xs : List A) → k a ≤ k x → All (λ y. k x ≤ k y) xs → All (λ y. k a ≤ k y) xs
  All-above a x [] p h = h
  All-above a x (y ∷ ys) p h = (omega arith, All-above a x ys p h.1)

  IsSorted-insert_by : (a : A) (xs : List A) → IsSorted k xs → IsSorted k (insert_by k a xs)
  unfolding insert_by
  IsSorted-insert_by a [] h = (tt, tt)
  IsSorted-insert_by a (x ∷ xs) h = elim (Bool-cases (leb (k a) (k x))) [
    | inl before ↦
        let near = leb→le (k a) (k x) before in rw before ((near, All-above a x xs near h.0), h)
    | inr behind ↦
        let far : k x ≤ k a = ground arith in
        rw behind (All-insert_by (λ y. k x ≤ k y) a xs far h.0, IsSorted-insert_by a xs h.1)
  ]

  pub IsSorted-sort_by : (xs : List A) → IsSorted k (sort_by k xs)
  unfolding sort_by
  IsSorted-sort_by [] = tt
  IsSorted-sort_by (x ∷ xs) = IsSorted-insert_by x (sort_by k xs) (IsSorted-sort_by xs)

  count-insert_by :
      (p : A → Bool) (a : A) (xs : List A) → count p (insert_by k a xs) ≡ count p (a ∷ xs)
  unfolding insert_by
  count-insert_by p a [] = refl
  count-insert_by p a (x ∷ xs) = ground (arith, count-insert_by p a xs)

  pub count-sort_by : (p : A → Bool) (xs : List A) → count p (sort_by k xs) ≡ count p xs
  unfolding sort_by
  count-sort_by p [] = refl
  count-sort_by p (x ∷ xs) = ground (arith, count-insert_by p x (sort_by k xs), count-sort_by p xs)

  length-insert_by : (a : A) (xs : List A) → length (insert_by k a xs) ≡ suc (length xs)
  unfolding insert_by
  length-insert_by a [] = refl
  length-insert_by a (x ∷ xs) = ground (arith, length-insert_by a xs)

  pub length-sort_by : (xs : List A) → length (sort_by k xs) ≡ length xs
  unfolding sort_by
  length-sort_by [] = refl
  length-sort_by (x ∷ xs) = length-insert_by x (sort_by k xs) ∙ ap suc (length-sort_by xs)

  pub IsSorted-take : (n : ℕ) (xs : List A) → IsSorted k xs → IsSorted k (take n xs)
  IsSorted-take zero xs h = tt
  IsSorted-take (suc n) [] h = tt
  IsSorted-take (suc n) (x ∷ xs) h = (All-take _ n xs h.0, IsSorted-take n xs h.1)
