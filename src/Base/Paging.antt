-- ===== src/Base/Paging.antt =====
-- The idiom of every list endpoint: a page number from 1, a size from 1 to 100, and a slice of the
-- rows. The offset is an int64 product, and one that is not positive is no offset.
use axmi_pusher.Base.Tests.{if◌then◌else◌, leb}
use axmi_pusher.Base.Lists.{length, take, drop, All, All-take, length-take}
use axmi_pusher.Base.Int.{ℤ, pos, negsuc, of_bits, positive_or}
use Prim.Native.Nat.{ℕ, zero, suc, ◌+◌, ◌-◌, ◌*◌, ◌%◌, ◌^◌, ◌≤◌, ◌<◌}
use native.Mathlib.Nat.{zero-add, suc-add, zero-mul}
use mathlib.Core.Path.{ap₂, ◌≡◌, refl, ap, ◌∙◌}
use mathlib.Core.List.{List, [], ◌∷◌, ◌++◌}
use native.Mathlib.Omega.{arith}

-- if page < 1 { page = 1 }
abbrev pub page_of : ℤ → ℕ
page_of = positive_or 1

-- if size < 1 || size > 100 { size = 20 }
abbrev pub size_of : ℤ → ℕ
size_of (pos zero) = 20
size_of (pos (suc n)) = if leb (suc n) 100 then suc n else 20
size_of (negsuc n) = 20

abbrev pub to_offset : ℤ → ℕ
to_offset (pos n) = n
to_offset (negsuc n) = 0

-- .Offset((page - 1) * size).Limit(size)
unfoldable pub slice {ℓ} : {A : Type ℓ} → ℤ → ℤ → List A → List A
slice page size rows =
    let k = size_of size in
    take k (drop (to_offset (of_bits ((page_of page - 1) * k % 2 ^ 64))) rows)

pub size_of_bounds : (size : ℤ) → (1 ≤ size_of size) × (size_of size ≤ 100)
size_of_bounds (pos zero) = omega arith
size_of_bounds (pos (suc n)) = ground arith
size_of_bounds (negsuc n) = omega arith

-- An offset below 2^63 is what it says.
offset_fits : (o : ℕ) → o < 2 ^ 63 → to_offset (of_bits (o % 2 ^ 64)) ≡ o
offset_fits o h = ground arith

module _ {ℓ} {A : Type ℓ} where
  -- The pages 1 to n, one behind the other.
  unfoldable pub pages : ℕ → ℤ → List A → List A
  pages zero size rows = []
  pages (suc n) size rows = pages n size rows ++ slice (pos (suc n)) size rows

  take-nil : (n : ℕ) → ◌≡◌ {A = List A} (take n []) []
  take-nil zero = refl
  take-nil (suc n) = refl

  take-append_drop : (m k : ℕ) (xs : List A) → take m xs ++ take k (drop m xs) ≡ take (m + k) xs
  take-append_drop zero k xs = rw zero-add
  take-append_drop (suc m) k [] = rw (suc-add, take-nil)
  take-append_drop (suc m) k (x ∷ xs) = rw (suc-add, take-append_drop m k xs)

  -- Reading page after page gives each row once, in order, while the offsets fit in an int64.
  pub pages-eq-take :
      (n : ℕ) (size : ℤ) (rows : List A)
      → n * size_of size < 2 ^ 63
      → pages n size rows ≡ take (n * size_of size) rows
  unfolding pages slice
  pages-eq-take zero size rows h = rw zero-mul
  pages-eq-take (suc n) size rows h =
      let k = size_of size in
      let before : n * k < 2 ^ 63 = grind arith in
      let at : to_offset (of_bits ((suc n - 1) * k % 2 ^ 64)) ≡ n * k =
        ap (λ o. to_offset (of_bits (o * k % 2 ^ 64))) (omega arith) ∙ offset_fits (n * k) before in
      ap₂ ◌++◌ (pages-eq-take n size rows before) (ap (λ o. take k (drop o rows)) at)
      ∙ take-append_drop (n * k) k rows
      ∙ ap (λ m. take m rows) (grind arith)

  pub length-slice-le :
      (page size : ℤ) (rows : List A) → length (slice page size rows) ≤ size_of size
  unfolding slice
  length-slice-le page size rows = omega (
    arith,
    length-take (size_of size)
        (drop (to_offset (of_bits ((page_of page - 1) * size_of size % 2 ^ 64))) rows),
  )

  All-drop : (P : A → Type 0) (n : ℕ) (xs : List A) → All P xs → All P (drop n xs)
  All-drop P zero xs h = h
  All-drop P (suc n) [] h = h
  All-drop P (suc n) (x ∷ xs) h = All-drop P n xs h.1

  pub All-slice :
      (P : A → Type 0) (page size : ℤ) (rows : List A) → All P rows → All P (slice page size rows)
  unfolding slice
  All-slice P page size rows h = All-take P _ _ (All-drop P _ rows h)
