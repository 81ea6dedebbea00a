-- ===== src/Accounts/Keys/Lives.antt =====
-- The life of an API key: from its creation, across calls on other keys, to its revocation.
use axmi_pusher.Base.{
  ℕ, String, Text, Bool, Option, List, [], ◌∷◌, ◌++◌, true, false, some, none, inl, inr, ◌≡◌, refl,
  arith, ◌==◌, ◌&&◌, ◌||◌, if◌then◌else◌, nat_eq, string_eq, update, first, not, count, Bool-cases,
  nat_beq_iff, eq_iff, All,
}
use axmi_pusher.Models.{disabled}
use axmi_pusher.Accounts.{ApiKey, Crypto}
use axmi_pusher.Accounts.Keys.{
  create_api_key, resolve_api_key, revoke_api_key, used_key, opens, has_expired,
}

-- A call on the keys: whether the statements are refused comes first.
pub data KeyCall : Type 0 where
  create : Bool → ℕ → ℕ → Text → String → String → Option ℕ → KeyCall
  resolve : Bool → Bool → ℕ → Text → KeyCall
  revoke : Bool → ℕ → ℕ → KeyCall

module _ (crypto : Crypto) where
  -- The keys after a call, and after several.
  unfoldable pub after_call : KeyCall → List ApiKey → List ApiKey
  after_call (create refused id tenant plain name scopes expires_at) keys =
      (create_api_key crypto refused id tenant plain name scopes expires_at keys).0
  after_call (resolve refused refused' now plain) keys =
      (resolve_api_key crypto refused refused' now plain keys).0
  after_call (revoke refused tenant id) keys = (revoke_api_key refused tenant id keys).0

  unfoldable pub after_calls : List KeyCall → List ApiKey → List ApiKey
  after_calls [] keys = keys
  after_calls (c ∷ cs) keys = after_calls cs (after_call c keys)

-- A call that does not revoke the key of a tenant.
abbrev pub IsNotRevoking : ℕ → ℕ → KeyCall → Type 0
IsNotRevoking tenant id (revoke refused t i) = (i == id && t == tenant) ≡ false
IsNotRevoking tenant id _ = Unit

-- The text of a key finds a row of a tenant.
pub record Finds (crypto : Crypto) (plain : Text) (tenant id : ℕ) (expires_at : Option ℕ)
    (keys : List ApiKey) : Type 0 where
  pub row : ApiKey
  pub read : first (opens crypto plain) keys ≡ some row
  pub of_tenant : row.tenant_id ≡ tenant
  pub of_id : row.id ≡ id
  pub expiry : row.expires_at ≡ expires_at

module _ (crypto : Crypto) (plain : Text) where
  first-append :
      (keys more : List ApiKey) (r : ApiKey)
      → first (opens crypto plain) keys ≡ some r
      → first (opens crypto plain) (keys ++ more) ≡ some r
  first-append [] more r h = cc
  first-append (k ∷ keys) more r h = ground (arith, first-append keys more r)

  first-append_new :
      (keys : List ApiKey) (k : ApiKey)
      → count (λ r. r.key_hash == crypto.digest plain) keys ≡ 0
      → opens crypto plain k ≡ true
      → first (opens crypto plain) (keys ++ (k ∷ [])) ≡ some k
  first-append_new [] k none_yet h = ground arith
  first-append_new (r ∷ keys) k none_yet h = ground (arith, first-append_new keys k)

  first-used :
      (id now : ℕ) (keys : List ApiKey) (r : ApiKey)
      → first (opens crypto plain) keys ≡ some r
      → first
          (opens crypto plain)
          (update (λ k. k.id == id) (λ k. record k { last_used_at = some now }) keys)
        ≡ some (if r.id == id then record r { last_used_at = some now } else r)
  first-used id now [] r h = cc
  first-used id now (k ∷ keys) r h = ground (arith, first-used id now keys r)

  first-revoked :
      (tenant id : ℕ) (keys : List ApiKey) (r : ApiKey)
      → first (opens crypto plain) keys ≡ some r
      → (id == r.id && tenant == r.tenant_id) ≡ false
      → first (opens crypto plain) (
          update
            (λ k. k.id == id && k.tenant_id == tenant)
            (λ k. record k { status = disabled })
            keys)
        ≡ some r
  first-revoked tenant id [] r h other = cc
  first-revoked tenant id (k ∷ keys) r h other = ground (
    arith,
    first-revoked tenant id keys r,
    nat_beq_iff k.id id,
    nat_beq_iff id k.id,
    nat_beq_iff k.tenant_id tenant,
    nat_beq_iff tenant k.tenant_id,
  )

module _ (crypto : Crypto) (plain : Text) (tenant id : ℕ) (expires_at : Option ℕ) where
  used_key-Finds :
      (refused : Bool) (now : ℕ) (keys : List ApiKey) (o : Option ApiKey)
      → Finds crypto plain tenant id expires_at keys
      → Finds crypto plain tenant id expires_at (used_key crypto refused now keys o).0
  unfolding used_key
  used_key-Finds refused now keys none f = f
  used_key-Finds refused now keys (some k) f =
      let noted : Finds crypto plain tenant id expires_at
          (update (λ r. r.id == k.id) (λ r. record r { last_used_at = some now }) keys) =
        record {
          row = if f.row.id == k.id then record f.row { last_used_at = some now } else f.row;
          read = first-used crypto plain k.id now keys f.row f.read;
          of_tenant = ground arith;
          of_id = ground arith;
          expiry = ground arith;
        } in
      elim (Bool-cases (has_expired crypto now k)) [
        | inl expired ↦ rw expired f
        | inr valid ↦ elim (Bool-cases refused) [
          | inl no_note ↦ rw (valid, no_note) f
          | inr note ↦ rw (valid, note) noted
        ]
      ]

  created-Finds :
      (refused : Bool) (id' tenant' : ℕ) (plain' : Text) (name scopes : String) (e : Option ℕ)
      (keys : List ApiKey)
      → Finds crypto plain tenant id expires_at keys
      → Finds crypto plain tenant id expires_at
          (create_api_key crypto refused id' tenant' plain' name scopes e keys).0
  unfolding create_api_key
  created-Finds refused id' tenant' plain' name scopes e keys f =
      elim (Bool-cases
        (refused || not (count (λ r. r.key_hash == crypto.digest plain') keys == 0))) [
          | inl no_row ↦ rw no_row f
          | inr made ↦ rw made (record {
            row = f.row;
            read = first-append crypto plain keys _ f.row f.read;
            of_tenant = f.of_tenant;
            of_id = f.of_id;
            expiry = f.expiry;
          })
        ]

  revoked-Finds :
      (refused : Bool) (tenant' id' : ℕ) (keys : List ApiKey)
      → (id' == id && tenant' == tenant) ≡ false
      → Finds crypto plain tenant id expires_at keys
      → Finds crypto plain tenant id expires_at (revoke_api_key refused tenant' id' keys).0
  unfolding revoke_api_key
  revoked-Finds refused tenant' id' keys other f = elim (Bool-cases refused) [
    | inl no_write ↦ rw no_write f
    | inr write ↦ rw write (record {
      row = f.row;
      read =
          first-revoked crypto plain tenant' id' keys f.row f.read
            (rw (f.of_id, f.of_tenant) other);
      of_tenant = f.of_tenant;
      of_id = f.of_id;
      expiry = f.expiry;
    })
  ]

  after_call-Finds :
      (c : KeyCall) (keys : List ApiKey)
      → IsNotRevoking tenant id c
      → Finds crypto plain tenant id expires_at keys
      → Finds crypto plain tenant id expires_at (after_call crypto c keys)
  unfolding after_call resolve_api_key
  after_call-Finds (create refused id' tenant' plain' name scopes e) keys other f =
      created-Finds refused id' tenant' plain' name scopes e keys f
  after_call-Finds (resolve refused refused' now plain') keys other f =
      used_key-Finds refused' now keys _ f
  after_call-Finds (revoke refused tenant' id') keys other f =
      revoked-Finds refused tenant' id' keys other f

  pub after_calls-Finds :
      (cs : List KeyCall) (keys : List ApiKey)
      → All (IsNotRevoking tenant id) cs
      → Finds crypto plain tenant id expires_at keys
      → Finds crypto plain tenant id expires_at (after_calls crypto cs keys)
  unfolding after_calls
  after_calls-Finds [] keys others f = f
  after_calls-Finds (c ∷ cs) keys (other, others) f =
      after_calls-Finds cs (after_call crypto c keys) others (after_call-Finds c keys other f)

  pub create-Finds :
      (refused : Bool) (name scopes : String) (keys : List ApiKey) (made : ApiKey × Text)
      → (create_api_key crypto refused id tenant plain name scopes expires_at keys).1 ≡ inr made
      → Finds crypto plain tenant id expires_at
          (create_api_key crypto refused id tenant plain name scopes expires_at keys).0
  unfolding create_api_key
  create-Finds refused name scopes keys made h =
      elim (Bool-cases
        (refused || not (count (λ r. r.key_hash == crypto.digest plain) keys == 0))) [
          | inl no_row ↦ absurd (ground arith)
          | inr is_made ↦ rw is_made (record {
            row = _;
            read =
                first-append_new crypto plain keys _ (ground arith)
                  (ground (arith, eq_iff (crypto.digest plain) (crypto.digest plain)));
            of_tenant = refl;
            of_id = refl;
            expiry = refl;
          })
        ]
