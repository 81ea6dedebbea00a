-- ===== src/Accounts/Register/Codes.antt =====
-- The accounts that Register makes and the codes that were asked for.
use axmi_pusher.Base.{
  ℕ, String, Bool, Option, List, [], ◌∷◌, true, false, some, none, inl, inr, ◌⊎◌, ◌≡◌, refl, ◌+◌,
  ◌≤◌, ◌==◌, ◌≢◌, if◌then◌else◌, nat_eq, string_eq, arith, ap, sym, ◌∙◌, eq_iff,
}
use Prim.Native.String.{◌++◌ as string_append}
use text.Mathlib.TextLemmas.{append_cancel_left, append_assoc, append_inj}
use axmi_pusher.Service.CodeStore.{Call, CodeOp, set_code, consume_code, code_exists}
use axmi_pusher.Service.CodeStore.Once.{OneTime, sets, wins}
use axmi_pusher.Accounts.{Account, Table, Crypto, AuthError}
use axmi_pusher.Accounts.Profile.{Refusals}
use axmi_pusher.Accounts.Register.{
  code_key, cooldown_key, StoreCalls, store_call, make_user, register, registered,
  send_register_code, after_check, keep_code, after_code, after_cooldown,
}

code_key_inj : (d e : String) → code_key d ≡ code_key e → d ≡ e
code_key_inj d e h = append_cancel_left "regcode:" d e h

-- The sixth letters of the two prefixes differ.
cooldown-ne-code : (d e : String) → cooldown_key d ≢ code_key e
cooldown-ne-code d e h =
    let split : string_append "regcoo" (string_append "ldown:" d)
        ≡ string_append "regcod" (string_append "e:" e) =
      sym (append_assoc "regcoo" "ldown:" d) ∙ h ∙ append_assoc "regcod" "e:" e in
    let letters : ◌≡◌ {A = String} "regcoo" "regcod" = (append_inj split refl).0 in
    let same : ◌≡◌ {A = Bool} false true = (eq_iff "regcoo" "regcod").1 letters in cc

-- The requests that use the codes: a code for an address, and a registration with one.
pub data SignUp : Type 0 where
  ask : Refusals → StoreCalls → Option Bool → Bool → String → Option String → SignUp
  sign_up : Refusals → StoreCalls → ℕ → ℕ → String → String → String → String → SignUp
  change_users : Table → SignUp

-- Whether a request asks for a code for an address.
abbrev pub asked : String → SignUp → ℕ
asked e (ask env calls host sent email code) = if email == e then 1 else 0
asked e _ = 0

abbrev made : String → String → AuthError ⊎ Account → ℕ
made e email (inl error) = 0
made e email (inr u) = if email == e then 1 else 0

module _ {S : Type 0} (api : OneTime S) (crypto : Crypto) where
  -- One request: the state after it, and how many accounts it made for an address.
  unfoldable pub respond : String → SignUp → S × Table → (S × Table) × ℕ
  respond e (ask env calls host sent email code) (store, users) =
      (((send_register_code api calls host sent email env code users store).0, users), 0)
  respond e (sign_up env calls salt id email password nickname code) (store, users) =
      let (store', users', result) =
        register api crypto env calls salt id email password nickname code store users in
      ((store', users'), made e email result)
  respond e (change_users users') (store, users) = ((store, users'), 0)

  -- A call on another key, or one that stores nothing, leaves no more under a key.
  held_other :
      (e : String) (c : Call) (s : S)
      → sets (code_key e) c ≡ 0
      → api.held (code_key e) (api.call c s).0 ≤ api.held (code_key e) s
  held_other e c s none_set = omega (arith, api.used_up (code_key e) c s)

  sets_code :
      (calls : StoreCalls) (n : ℕ) (digits email e : String)
      → sets (code_key e) (store_call calls n (set_code digits 300000000000) (code_key email))
        ≡ (if email == e then 1 else 0)
  unfolding sets
  sets_code calls n digits email e =
      ground (arith, eq_iff email e, eq_iff (code_key email) (code_key e), code_key_inj email e)

  sets_cooldown :
      (calls : StoreCalls) (n : ℕ) (op : CodeOp) (email e : String)
      → sets (code_key e) (store_call calls n op (cooldown_key email)) ≡ 0
  unfolding sets
  sets_cooldown calls n op email e =
      ground (arith, eq_iff (cooldown_key email) (code_key e), cooldown-ne-code email e)

  after_cooldown_store :
      (calls : StoreCalls) (host : Option Bool) (sent : Bool) (email : String) (store : S)
      (cooled : Option Bool)
      → (after_cooldown api calls host sent email store cooled).0 ≡ store
  unfolding after_cooldown
  after_cooldown_store calls host sent email store none = refl
  after_cooldown_store calls host sent email store (some _) = refl

  after_code-held :
      (calls : StoreCalls) (host : Option Bool) (sent : Bool) (email e : String) (store : S)
      (kept : Option Bool)
      → api.held (code_key e) (after_code api calls host sent email store kept).0
        ≤ api.held (code_key e) store
  unfolding after_code
  after_code-held calls host sent email e store none = omega arith
  after_code-held calls host sent email e store (some _) =
      let c = store_call calls 2 (set_code "1" 60000000000) (cooldown_key email) in
      rw (after_cooldown_store calls host sent email (api.call c store).0 (api.call c store).1)
        (held_other e c store (sets_cooldown calls 2 (set_code "1" 60000000000) email e))

  keep_code-held :
      (calls : StoreCalls) (host : Option Bool) (sent : Bool) (email e : String) (store : S)
      (code : Option String)
      → api.held (code_key e) (keep_code api calls host sent email store code).0
        ≤ (if email == e then 1 else 0) + api.held (code_key e) store
  unfolding keep_code sets
  keep_code-held calls host sent email e store none = omega arith
  keep_code-held calls host sent email e store (some digits) =
      let c = store_call calls 1 (set_code digits 300000000000) (code_key email) in
      let after =
        after_code-held calls host sent email e (api.call c store).0 (api.call c store).1 in
      let used = api.used_up (code_key e) c store in
      ground (arith, sets_code calls 1 digits email e)

  after_check-held :
      (calls : StoreCalls) (host : Option Bool) (sent : Bool) (email e : String)
      (code : Option String) (store : S) (cooling : Option Bool)
      → api.held (code_key e) (after_check api calls host sent email code store cooling).0
        ≤ (if email == e then 1 else 0) + api.held (code_key e) store
  unfolding after_check
  after_check-held calls host sent email e code store none = omega arith
  after_check-held calls host sent email e code store (some true) = omega arith
  after_check-held calls host sent email e code store (some false) =
      keep_code-held calls host sent email e store code

  send-held :
      (env : Refusals) (calls : StoreCalls) (host : Option Bool) (sent : Bool) (email e : String)
      (code : Option String) (users : Table) (store : S)
      → api.held (code_key e) (send_register_code api calls host sent email env code users store).0
        ≤ (if email == e then 1 else 0) + api.held (code_key e) store
  unfolding send_register_code
  send-held env calls host sent email e code users store =
      let c = store_call calls 0 code_exists (cooldown_key email) in
      let after =
        after_check-held calls host sent email e code (api.call c store).0 (api.call c store).1 in
      let other = held_other e c store (sets_cooldown calls 0 code_exists email e) in ground arith

  consumed_wins :
      (calls : StoreCalls) (email code e : String)
      → (if email == e then 1 else 0)
        ≤ wins (code_key e) (store_call calls 0 (consume_code code) (code_key email)) (some true)
  unfolding wins
  consumed_wins calls email code e = ground (
    arith,
    eq_iff email e,
    eq_iff (code_key email) (code_key e),
    λ (same : email ≡ e). ap code_key same,
  )

  made-le :
      (e email : String) (r : AuthError ⊎ Account) → made e email r ≤ (if email == e then 1 else 0)
  made-le e email (inl error) = omega arith
  made-le e email (inr u) = omega arith

  registered-made :
      (env : Refusals) (calls : StoreCalls) (salt id : ℕ) (email password nickname code e : String)
      (users : Table) (answer : Option Bool)
      → made e email (registered crypto env salt id email password nickname users answer).1
        ≤ wins (code_key e) (store_call calls 0 (consume_code code) (code_key email)) answer
  unfolding registered
  registered-made env calls salt id email password nickname code e users none = omega arith
  registered-made env calls salt id email password nickname code e users (some false) = omega arith
  registered-made env calls salt id email password nickname code e users (some true) = omega (
    arith,
    made-le e email (make_user crypto env salt id email password nickname users).1,
    consumed_wins calls email code e,
  )

  sets_consume :
      (calls : StoreCalls) (code email e : String)
      → sets (code_key e) (store_call calls 0 (consume_code code) (code_key email)) ≡ 0
  unfolding sets
  sets_consume calls code email e = ground arith

  register-held :
      (env : Refusals) (calls : StoreCalls) (salt id : ℕ) (email password nickname code e : String)
      (store : S) (users : Table)
      → let r = register api crypto env calls salt id email password nickname code store users in
        made e email r.2 + api.held (code_key e) r.0 ≤ api.held (code_key e) store
  unfolding register
  register-held env calls salt id email password nickname code e store users =
      let c = store_call calls 0 (consume_code code) (code_key email) in
      let used = api.used_up (code_key e) c store in
      let none_set = sets_consume calls code email e in
      let won =
        registered-made env calls salt id email password nickname code e users
          (api.call c store).1 in
      ground arith

  respond-held :
      (e : String) (r : SignUp) (store : S) (users : Table)
      → (respond e r (store, users)).1 + api.held (code_key e) (respond e r (store, users)).0.0
        ≤ asked e r + api.held (code_key e) store
  unfolding respond
  respond-held e (ask env calls host sent email code) store users =
      omega (arith, send-held env calls host sent email e code users store)
  respond-held e (sign_up env calls salt id email password nickname code) store users =
      omega (arith, register-held env calls salt id email password nickname code e store users)
  respond-held e (change_users users') store users = omega arith

  -- The requests, one after another: the accounts made for an address, and the codes asked for.
  unfoldable pub sign_ups : String → List SignUp → S × Table → ℕ × ℕ
  sign_ups e [] s = (0, 0)
  sign_ups e (r ∷ rs) s =
      let (s', n) = respond e r s in
      let (accounts, codes_asked) = sign_ups e rs s' in (n + accounts, asked e r + codes_asked)

  -- Over any sequence of requests, whatever errors the store of codes and the database have and
  -- however the users change in between, Register makes for an address at most as many accounts as
  -- codes were asked for it by SendRegisterCode, and as many more as codes were held for it before.
  pub accounts-le-codes :
      (e : String) (rs : List SignUp) (store : S) (users : Table)
      → (sign_ups e rs (store, users)).0
        ≤ (sign_ups e rs (store, users)).1 + api.held (code_key e) store
  unfolding sign_ups
  accounts-le-codes e [] store users = omega arith
  accounts-le-codes e (r ∷ rs) store users =
      let s = (respond e r (store, users)).0 in
      omega (arith, respond-held e r store users, accounts-le-codes e rs s.0 s.1)
