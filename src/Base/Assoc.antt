-- ===== src/Base/Assoc.antt =====
-- A Go map as an association list. The program ranges over such a map only after sorting its keys.
use axmi_pusher.Base.{◌≢◌}
use axmi_pusher.Base.Tests.{Eq, ◌==◌, if◌then◌else◌}
use mathlib.Core.Path.{◌≡◌, refl}
use mathlib.Core.Bool.{true, false}
use mathlib.Core.Option.{Option, none, some}
use mathlib.Core.List.{List, [], ◌∷◌}
use native.Mathlib.Omega.{arith}

abbrev pub Assoc {ℓ} : Type ℓ → Type ℓ → Type ℓ
Assoc K V = List (K × V)

module _ {ℓ} {K : Type ℓ} ⦃e : Eq K⦄ where
  pub beq_refl : (k : K) → (k == k) ≡ true
  beq_refl k = (e.beq_iff k k).1 refl

module _ {ℓ} {K V : Type ℓ} ⦃e : Eq K⦄ where
  -- m[k], with the second result of the Go lookup as `none`
  unfoldable pub lookup : K → Assoc K V → Option V
  lookup k [] = none
  lookup k ((j, v) ∷ m) = let rest = lookup k m in if j == k then some v else rest

  -- m[k] = v
  unfoldable pub insert : K → V → Assoc K V → Assoc K V
  insert k v [] = (k, v) ∷ []
  insert k v ((j, w) ∷ m) = let rest = insert k v m in if j == k then (k, v) ∷ m else (j, w) ∷ rest

  -- delete(m, k)
  unfoldable pub remove : K → Assoc K V → Assoc K V
  remove k [] = []
  remove k ((j, v) ∷ m) = let rest = remove k m in if j == k then rest else (j, v) ∷ rest

  pub lookup-insert :
      (at asked : K) (new : V) (m : Assoc K V)
      → lookup asked (insert at new m) ≡ (if at == asked then some new else lookup asked m)
  unfolding lookup insert
  lookup-insert at asked new [] = refl
  lookup-insert at asked new ((i, w) ∷ m) =
      ground
        (arith, e.beq_iff at asked, e.beq_iff i at, e.beq_iff i asked, lookup-insert at asked new m)

  pub lookup-remove :
      (k j : K) (m : Assoc K V) → lookup j (remove k m) ≡ (if k == j then none else lookup j m)
  unfolding lookup remove
  lookup-remove k j [] = ground arith
  lookup-remove k j ((i, w) ∷ m) =
      ground (arith, e.beq_iff k j, e.beq_iff i k, e.beq_iff i j, lookup-remove k j m)

  pub lookup-insert_self : (k : K) (v : V) (m : Assoc K V) → lookup k (insert k v m) ≡ some v
  lookup-insert_self k v m = simp (lookup-insert, beq_refl)

  pub lookup-insert_ne :
      (k j : K) (v : V) (m : Assoc K V) → (k == j) ≡ false → lookup j (insert k v m) ≡ lookup j m
  lookup-insert_ne k j v m h = simp (lookup-insert, h)

module _ {ℓ} {K V : Type ℓ} ⦃e : Eq K⦄ where
  pub insert-ne-nil : (k : K) (v : V) (m : Assoc K V) → insert k v m ≢ []
  unfolding insert
  insert-ne-nil k v [] h = cc
  insert-ne-nil k v ((j, w) ∷ m) h = ground arith
