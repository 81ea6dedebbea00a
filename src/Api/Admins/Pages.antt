-- ===== src/Api/Admins/Pages.antt =====
-- The page that ListAdmins cuts out by hand.
use axmi_pusher.Base.{
  ℕ, Bool, List, [], ◌∷◌, true, false, some, none, inl, inr, ◌≡◌, refl, ◌+◌, ◌*◌, ◌-◌, ◌%◌, ◌^◌,
  ◌≤◌, length, take, drop, ltb, if◌then◌else◌, arith, ap, Bool-cases,
}
use axmi_pusher.Base.Int.{ℤ, pos, negsuc, of_bits}
use axmi_pusher.Base.Paging.{to_offset, page_of, size_of, slice}
use axmi_pusher.Accounts.{Table}
use axmi_pusher.Accounts.Admins.{list_admins}
use axmi_pusher.Api.{ok}
use axmi_pusher.Api.Admins.{cut, cut_at, list_admins_handler}
use mathlib.Core.List.{reverse}

-- Whether the int64 product (page - 1) * size is negative.
abbrev pub is_negative : ℤ → Bool
is_negative (pos n) = false
is_negative (negsuc n) = true

abbrev pub offset : ℤ → ℤ → ℤ
offset page size = of_bits ((page_of page - 1) * size_of size % 2 ^ 64)

module _ {ℓ} {A : Type ℓ} where
  take_all : (n : ℕ) (xs : List A) → length xs ≤ n → take n xs ≡ xs
  take_all ℕ.zero [] h = refl
  take_all ℕ.zero (x ∷ xs) h = absurd (omega arith)
  take_all (ℕ.suc n) [] h = refl
  take_all (ℕ.suc n) (x ∷ xs) h = ap (λ t. x ∷ t) (take_all n xs (omega arith))

  drop_all : (n : ℕ) (xs : List A) → length xs ≤ n → drop n xs ≡ []
  drop_all ℕ.zero [] h = refl
  drop_all ℕ.zero (x ∷ xs) h = absurd (omega arith)
  drop_all (ℕ.suc n) [] h = refl
  drop_all (ℕ.suc n) (x ∷ xs) h = drop_all n xs (omega arith)

  take-nil : (n : ℕ) → ◌≡◌ {A = List A} (take n []) []
  take-nil ℕ.zero = refl
  take-nil (ℕ.suc n) = refl

  length-drop : (n : ℕ) (xs : List A) → length (drop n xs) ≡ length xs - n
  length-drop ℕ.zero xs = omega arith
  length-drop (ℕ.suc n) [] = omega arith
  length-drop (ℕ.suc n) (x ∷ xs) = omega (arith, length-drop n xs)

  -- xs[start:end], cut to the length.
  between :
      (n k : ℕ) (xs : List A)
      → (let start = if ltb (length xs) n then length xs else n in
          let end = if ltb (length xs) (start + k) then length xs else start + k in
          take (end - start) (drop start xs))
        ≡ take k (drop n xs)
  between n k xs = elim (Bool-cases (ltb (length xs) n)) [
    | inl over ↦ rw (
      over,
      drop_all (length xs) xs (omega arith),
      drop_all n xs (ground arith),
      take-nil,
      take-nil,
    )
    | inr within ↦ elim (Bool-cases (ltb (length xs) (n + k))) [
      | inl last ↦
          let all : length (drop n xs) ≤ length xs - n = omega (arith, length-drop n xs) in
          let few : length (drop n xs) ≤ k = ground (arith, length-drop n xs) in
          rw (within, last, take_all (length xs - n) (drop n xs) all, take_all k (drop n xs) few)
      | inr full ↦ rw (within, full) (ap (λ m. take m (drop n xs)) (omega arith))
    ]
  ]

  cut_at-slice :
      (k : ℕ) (o : ℤ) (xs : List A)
      → cut_at k o xs ≡ (if is_negative o then none else some (take k (drop (to_offset o) xs)))
  unfolding cut_at
  cut_at-slice k (pos n) xs = ap some (between n k xs)
  cut_at-slice k (negsuc n) xs = refl

-- ListAdmins cuts the same page out of its list, by hand, as the other lists leave to the database,
-- and counts all rows; only a page whose int64 offset is negative makes it panic.
pub list_admins_handler-slice :
    (page size : ℤ) (admins : Table)
    → list_admins_handler false page size admins ≡ (
        if is_negative (offset page size)
        then none
        else some (ok (slice page size (reverse admins), length (reverse admins))))
unfolding list_admins_handler list_admins slice cut
list_admins_handler-slice page size admins =
    ground (arith, cut_at-slice (size_of size) (offset page size) (reverse admins))
