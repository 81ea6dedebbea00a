-- ===== src/Api/Users/Written.antt =====
-- Writes to the users that leave the platform administrators among them alone.
use axmi_pusher.Base.{
  ℕ, Bool, [], ◌∷◌, ◌++◌, false, some, ◌≡◌, refl, arith, ◌==◌, ◌&&◌, ◌≤◌, nat_eq, string_eq, count,
  update, select, first, first_passes, nat_beq_iff, sym, count-and-le,
}
use mathlib.Core.Path.{subst}
use axmi_pusher.Accounts.{Account, Table}
use axmi_pusher.Accounts.Calls.Rows.{HasUniqueAccounts}
use axmi_pusher.Api.Users.{is_platform}

-- Keys and addresses stay unique, and the platform administrators among the users are as they were.
pub record IsKept (before after : Table) : Type 0 where
  pub unique : HasUniqueAccounts after
  pub platform : select is_platform after ≡ select is_platform before

pub select-append_other :
    (users : Table) (u : Account)
    → is_platform u ≡ false
    → select is_platform (users ++ (u ∷ [])) ≡ select is_platform users
select-append_other [] u h = ground arith
select-append_other (r ∷ users) u h = ground (arith, select-append_other users u h)

-- A write to rows that are no platform administrators, which makes none.
select-update_other :
    (q : Account → Bool) (f : Account → Account) (users : Table)
    → ((a : Account) → (f a).role ≡ a.role)
    → count (λ a. q a && is_platform a) users ≡ 0
    → select is_platform (update q f users) ≡ select is_platform users
select-update_other q f [] same h = refl
select-update_other q f (r ∷ users) same h =
    ground (arith, select-update_other q f users same, same r)

-- The row of a key is no platform administrator, where the row that is read is none.
other_row :
    (id : ℕ) (users : Table) (u : Account)
    → count (λ a. a.id == id) users ≤ 1
    → first (λ a. a.id == id) users ≡ some u
    → is_platform u ≡ false
    → count (λ a. a.id == id && is_platform a) users ≡ 0
other_row id [] u once read other = refl
other_row id (r ∷ users) u once read other =
    ground (arith, other_row id users u, count-and-le (λ a. a.id == id) is_platform users)

module _ (users : Table) (kept : HasUniqueAccounts users) where
  pub same-IsKept : IsKept users users
  same-IsKept = record { unique = kept; platform = refl }

  pub write-IsKept :
      (u : Account) (id : ℕ) (f : Account → Account)
      → first (λ a. a.id == id) users ≡ some u
      → is_platform u ≡ false
      → ((a : Account) → (f a).role ≡ a.role)
      → HasUniqueAccounts (update (λ a. a.id == u.id) f users)
      → IsKept users (update (λ a. a.id == u.id) f users)
  write-IsKept u id f read other same unique =
      let same_id : u.id ≡ id =
        (nat_beq_iff u.id id).0 (first_passes (λ a. a.id == id) users u read) in
      record {
        unique = unique;
        platform =
            select-update_other (λ a. a.id == u.id) f users same
              (other_row u.id users u (kept.by_id u.id)
                (subst (λ i. first (λ a. a.id == i) users ≡ some u) (sym same_id) read) other);
      }
