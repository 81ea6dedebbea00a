-- ===== src/Base/Lists.antt =====
-- Lists measured and cut by native numbers, under the library's names, with Boolean filters.
use Prim.Native.Nat.{ℕ, zero, suc, ◌+◌, ◌≤◌, min}
use mathlib.Core.Path.{◌≡◌, refl, ap, sym, subst}
use mathlib.Core.Bool.{◌&&◌, true, Bool}
use mathlib.Core.List.{List, [], ◌∷◌, ◌++◌}
use mathlib.Core.Option.{Option, none, some}
use native.Mathlib.Omega.{arith}
use mathlib.Core.Logic.{inl, inr, ◌⊎◌}
use axmi_pusher.Base.Tests.{Bool-cases, if◌then◌else◌}

module _ {ℓ} {A : Type ℓ} where
  abbrev pub length : List A → ℕ
  length [] = 0
  length (x ∷ xs) = suc (length xs)

  abbrev pub take : ℕ → List A → List A
  take zero xs = []
  take (suc n) [] = []
  take (suc n) (x ∷ xs) = x ∷ take n xs

  abbrev pub drop : ℕ → List A → List A
  drop zero xs = xs
  drop (suc n) [] = []
  drop (suc n) (x ∷ xs) = drop n xs

  -- The elements that pass a test, in order: `WHERE`.
  abbrev pub select : (A → Bool) → List A → List A
  select p [] = []
  select p (x ∷ xs) = let rest = select p xs in if p x then x ∷ rest else rest

  -- The first element that passes: `First`.
  abbrev pub first : (A → Bool) → List A → Option A
  first p [] = none
  first p (x ∷ xs) = let rest = first p xs in if p x then some x else rest

  -- The elements that pass are changed, the others kept: `UPDATE … WHERE`.
  abbrev pub update : (A → Bool) → (A → A) → List A → List A
  update p f [] = []
  update p f (x ∷ xs) = (if p x then f x else x) ∷ update p f xs

  -- How many elements pass: `COUNT(*)`.
  abbrev pub count : (A → Bool) → List A → ℕ
  count p [] = 0
  count p (x ∷ xs) = let rest = count p xs in if p x then suc rest else rest

  abbrev pub replicate : ℕ → A → List A
  replicate zero a = []
  replicate (suc n) a = a ∷ replicate n a

  abbrev pub All {κ} : (A → Type κ) → List A → Type κ
  All P [] = Unit
  All P (x ∷ xs) = P x × All P xs

module _ {ℓ} {A : Type ℓ} where
  pub length-append : (xs ys : List A) → length (xs ++ ys) ≡ length xs + length ys
  length-append [] ys = omega arith
  length-append (x ∷ xs) ys = omega (arith, length-append xs ys)

  pub length-take : (n : ℕ) (xs : List A) → length (take n xs) ≡ min n (length xs)
  length-take zero xs = omega arith
  length-take (suc n) [] = omega arith
  length-take (suc n) (x ∷ xs) = omega (arith, length-take n xs)

  pub length-update : (p : A → Bool) (f : A → A) (xs : List A) → length (update p f xs) ≡ length xs
  length-update p f [] = refl
  length-update p f (x ∷ xs) = ap suc (length-update p f xs)

  pub count-append : (p : A → Bool) (xs ys : List A) → count p (xs ++ ys) ≡ count p xs + count p ys
  count-append p [] ys = omega arith
  count-append p (x ∷ xs) ys = ground (arith, count-append p xs ys)

  pub count-le-length : (p : A → Bool) (xs : List A) → count p xs ≤ length xs
  count-le-length p [] = omega arith
  count-le-length p (x ∷ xs) = ground (arith, count-le-length p xs)

  pub All-append {κ} : (P : A → Type κ) (xs ys : List A) → All P xs → All P ys → All P (xs ++ ys)
  All-append P [] ys none_yet rest = rest
  All-append P (x ∷ xs) ys (here, more) rest = (here, All-append P xs ys more rest)

  pub All-select : (p : A → Bool) (xs : List A) → All (λ x. p x ≡ true) (select p xs)
  All-select p [] = tt
  All-select p (x ∷ xs) = elim (Bool-cases (p x)) [
    | inl passes ↦ rw passes (passes, All-select p xs)
    | inr fails ↦ rw fails (All-select p xs)
  ]

  pub All-take {κ} : (P : A → Type κ) (n : ℕ) (xs : List A) → All P xs → All P (take n xs)
  All-take P zero xs h = tt
  All-take P (suc n) [] h = h
  All-take P (suc n) (x ∷ xs) h = (h.0, All-take P n xs h.1)

  pub length-select : (p : A → Bool) (xs : List A) → length (select p xs) ≡ count p xs
  length-select p [] = refl
  length-select p (x ∷ xs) = ground (arith, length-select p xs)

  pub count-select :
      (p q : A → Bool) (xs : List A) → count q (select p xs) ≡ count (λ x. q x && p x) xs
  count-select p q [] = refl
  count-select p q (x ∷ xs) = ground (arith, count-select p q xs)

  pub count-take-le : (p : A → Bool) (n : ℕ) (xs : List A) → count p (take n xs) ≤ count p xs
  count-take-le p zero xs = omega arith
  count-take-le p (suc n) [] = omega arith
  count-take-le p (suc n) (x ∷ xs) = ground (arith, count-take-le p n xs)

  pub count-take-drop :
      (p : A → Bool) (n : ℕ) (xs : List A) → count p (take n xs) + count p (drop n xs) ≡ count p xs
  count-take-drop p zero xs = omega arith
  count-take-drop p (suc n) [] = omega arith
  count-take-drop p (suc n) (x ∷ xs) = ground (arith, count-take-drop p n xs)

  pub count-and-le : (p q : A → Bool) (xs : List A) → count (λ x. p x && q x) xs ≤ count p xs
  count-and-le p q [] = omega arith
  count-and-le p q (x ∷ xs) = ground (arith, count-and-le p q xs)

  -- Rows that an update keeps in `p` are counted as before.
  pub count-update_same :
      (p q : A → Bool) (f : A → A) (xs : List A)
      → ((x : A) → p (f x) ≡ p x)
      → count p (update q f xs) ≡ count p xs
  count-update_same p q f [] h = refl
  count-update_same p q f (x ∷ xs) h = ground (arith, h x, count-update_same p q f xs h)

module _ {ℓ} {A : Type ℓ} where
  pub All-update :
      (P : A → Type 0) (q : A → Bool) (f : A → A) (xs : List A)
      → All P xs
      → ((x : A) → q x ≡ true → P x → P (f x))
      → All P (update q f xs)
  All-update P q f [] h k = tt
  All-update P q f (x ∷ xs) h k = elim (Bool-cases (q x)) [
    | inl hit ↦ rw hit (k x hit h.0, All-update P q f xs h.1 k)
    | inr miss ↦ rw miss (h.0, All-update P q f xs h.1 k)
  ]

  -- An update that meets no row changes nothing.
  pub update_none : (q : A → Bool) (f : A → A) (xs : List A) → count q xs ≡ 0 → update q f xs ≡ xs
  update_none q f [] h = refl
  update_none q f (x ∷ xs) h = ground (arith, update_none q f xs)

module _ {ℓ} {A : Type ℓ} where
  pub first_passes : (p : A → Bool) (xs : List A) (a : A) → first p xs ≡ some a → p a ≡ true
  first_passes p [] a h = cc
  first_passes p (x ∷ xs) a h = ground (arith, first_passes p xs a)

  -- A row that is read is the first, and the reading was not refused.
  pub read_first :
      (refused : Bool) (p : A → Bool) (xs : List A) (a : A)
      → (if refused then none else first p xs) ≡ some a
      → first p xs ≡ some a
  read_first refused p xs a h = ground arith

abbrev pub Listed : {A : Type 0} → A → List A → Type 0
Listed a [] = ⊥
Listed a (x ∷ xs) = (a ≡ x) ⊎ Listed a xs

module _ {A : Type 0} where
  pub Listed-append : (a : A) (xs ys : List A) → Listed a ys → Listed a (xs ++ ys)
  Listed-append a [] ys h = h
  Listed-append a (x ∷ xs) ys h = inr (Listed-append a xs ys h)

  pub All-Listed : (P : A → Type 0) (xs : List A) (a : A) → All P xs → Listed a xs → P a
  All-Listed P [] a every listed = elim listed [ ]
  All-Listed P (x ∷ xs) a (here, later) (inl same) = subst P (sym same) here
  All-Listed P (x ∷ xs) a (here, later) (inr listed) = All-Listed P xs a later listed
