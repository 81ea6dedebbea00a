-- ===== src/Accounts/Calls/Rows.antt =====
-- Writes to the rows of a table that keep the keys and the addresses unique.
use axmi_pusher.Base.{
  ℕ, String, Bool, [], ◌∷◌, ◌++◌, ◌≡◌, refl, arith, ◌==◌, ◌≤◌, ◌+◌, ◌&&◌, if◌then◌else◌, nat_eq,
  string_eq, update, not, count, count-update_same, count-append, nat_beq_iff, eq_iff,
}
use axmi_pusher.Models.{RowStatus}
use axmi_pusher.Accounts.{Account, Table}
use axmi_pusher.Accounts.Login.{logged_in}

pub record HasUniqueAccounts (rows : Table) : Type 0 where
  pub by_id : (i : ℕ) → count (λ a. a.id == i) rows ≤ 1
  pub by_email : (e : String) → count (λ a. a.email == e) rows ≤ 1

-- A write that changes no key and no address.
pub Unique-update :
    (q : Account → Bool) (f : Account → Account) (rows : Table)
    → ((a : Account) → (f a).id ≡ a.id)
    → ((a : Account) → (f a).email ≡ a.email)
    → HasUniqueAccounts rows
    → HasUniqueAccounts (update q f rows)
Unique-update q f rows same_id same_email u = record {
  by_id =
      λ i. rw (count-update_same (λ a. a.id == i) q f rows (λ a. rw (same_id a) refl)) (u.by_id i);
  by_email = λ e.
      rw (count-update_same (λ a. a.email == e) q f rows (λ a. rw (same_email a) refl))
        (u.by_email e);
}

pub Unique-append :
    (rows : Table) (a : Account)
    → count (λ r. r.id == a.id) rows ≡ 0
    → count (λ r. r.email == a.email) rows ≡ 0
    → HasUniqueAccounts rows
    → HasUniqueAccounts (rows ++ (a ∷ []))
Unique-append rows a fresh free u = record {
  by_id = λ i.
      ground
        (arith, count-append (λ r. r.id == i) rows (a ∷ []), nat_beq_iff a.id i, u.by_id i, fresh);
  by_email = λ e.
      ground (
        arith,
        count-append (λ r. r.email == e) rows (a ∷ []),
        eq_iff a.email e,
        u.by_email e,
        free,
      );
}

-- The rows with an address after it was given to the row of a key.
count-address :
    (id : ℕ) (email e : String) (f : Account → Account) (rows : Table)
    → ((a : Account) → (f a).email ≡ email)
    → count (λ a. a.email == e) (update (λ a. a.id == id) f rows) ≤ (
        if email == e
        then count (λ a. a.id == id) rows + count (λ a. a.email == email && not (a.id == id)) rows
        else count (λ a. a.email == e) rows)
count-address id email e f [] gives = ground arith
count-address id email e f (r ∷ rows) gives =
    ground (arith, count-address id email e f rows gives, eq_iff email e, gives r)

module _ (rows : Table) (u : HasUniqueAccounts rows) (id : ℕ) where
  pub totp-Unique :
      (secret : String) (enabled : Bool)
      → HasUniqueAccounts (
          update
            (λ a. a.id == id)
            (λ a. record a { totp_secret = secret; totp_enabled = enabled })
            rows)
  totp-Unique secret enabled = Unique-update _ _ rows (λ a. refl) (λ a. refl) u

  pub hash-Unique :
      (hash : String)
      → HasUniqueAccounts (update (λ a. a.id == id) (λ a. record a { password_hash = hash }) rows)
  hash-Unique hash = Unique-update _ _ rows (λ a. refl) (λ a. refl) u

  pub status-Unique :
      (status : RowStatus)
      → HasUniqueAccounts (update (λ a. a.id == id) (λ a. record a { status = status }) rows)
  status-Unique status = Unique-update _ _ rows (λ a. refl) (λ a. refl) u

  pub login-Unique :
      (now : ℕ) (ip : String) → HasUniqueAccounts (update (λ a. a.id == id) (logged_in now ip) rows)
  login-Unique now ip = Unique-update _ _ rows (λ a. refl) (λ a. refl) u

pub profile-Unique :
    (rows : Table) (row : ℕ) (nickname qq : String)
    → HasUniqueAccounts rows
    → HasUniqueAccounts (
        update
          (λ a. a.id == row)
          (λ a. record a { nickname = if nickname == "" then a.nickname else nickname; qq = qq })
          rows)
profile-Unique rows row nickname qq u = Unique-update _ _ rows (λ a. refl) (λ a. refl) u

-- An address that no other row has may be given to a row.
pub address-Unique :
    (id : ℕ) (email : String) (f : Account → Account) (rows : Table)
    → ((a : Account) → (f a).email ≡ email)
    → ((a : Account) → (f a).id ≡ a.id)
    → count (λ a. a.email == email && not (a.id == id)) rows ≡ 0
    → HasUniqueAccounts rows
    → HasUniqueAccounts (update (λ a. a.id == id) f rows)
address-Unique id email f rows gives keeps free u = record {
  by_id = λ i.
      rw (count-update_same (λ a. a.id == i) (λ a. a.id == id) f rows (λ a. rw (keeps a) refl))
        (u.by_id i);
  by_email =
      λ e. ground (arith, count-address id email e f rows gives, u.by_id id, u.by_email e, free);
}
