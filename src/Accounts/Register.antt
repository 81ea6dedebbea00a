-- ===== src/Accounts/Register.antt =====
-- Register and SendRegisterCode, over a store of codes. Set, Exists and Consume are calls on that
-- store, each with the time at which it runs and with what a client of Redis sees of it.
pub mod Codes
use axmi_pusher.Base.{
  ℕ, String, Bool, Option, [], ◌∷◌, ◌++◌, true, false, some, none, inl, inr, ◌⊎◌, count, ◌==◌,
  if◌then◌else◌, not, nat_eq, string_eq,
}
use Prim.Native.String.{◌++◌ as string_append}
use axmi_pusher.Service.RateLimit.{Reply}
use axmi_pusher.Service.CodeStore.{Call, CodeOp, set_code, consume_code, code_exists}
use axmi_pusher.Service.CodeStore.Once.{OneTime}
use axmi_pusher.Accounts.{
  Account, Table, Crypto, AuthError, refused, email_exists, short_password, hash_failed, bad_code,
  store_failed, code_too_frequent, smtp_not_configured, mail_failed, role_tenant_admin,
  is_long_enough,
}
use axmi_pusher.Accounts.Admins.{new_account}
use axmi_pusher.Accounts.Profile.{Refusals}

abbrev pub code_key : String → String
code_key email = string_append "regcode:" email

abbrev pub cooldown_key : String → String
cooldown_key email = string_append "regcooldown:" email

-- defaultIfEmpty
abbrev pub default_if_empty : String → String → String
default_if_empty v fallback = if v == "" then fallback else v

-- The calls on the store of one request: when each runs, and its reply.
pub record StoreCalls : Type 0 where
  pub at : ℕ → ℕ
  pub reply : ℕ → Reply

abbrev pub store_call : StoreCalls → ℕ → CodeOp → String → Call
store_call calls n op key = record { op = op; key = key; at = calls.at n; reply = calls.reply n }

module _ (crypto : Crypto) where
  -- The transaction of Register.
  unfoldable pub make_user :
      Refusals → ℕ → ℕ → String → String → String → Table → Table × (AuthError ⊎ Account)
  make_user env salt id email password nickname users =
      if env.counting
      then (users, inl refused)
      else (if not (count (λ u. u.email == email) users == 0)
          then (users, inl email_exists)
          else elim (crypto.generate salt password) [
            | none ↦ (users, inl hash_failed)
            | some hash ↦
                let u =
                  new_account id email hash (default_if_empty nickname email) role_tenant_admin in
                if env.writing then (users, inl refused) else (users ++ (u ∷ []), inr u)
          ])

  unfoldable pub registered :
      Refusals
      → ℕ
      → ℕ
      → String
      → String
      → String
      → Table
      → Option Bool
      → Table × (AuthError ⊎ Account)
  unfolding make_user
  registered env salt id email password nickname users none = (users, inl store_failed)
  registered env salt id email password nickname users (some matches) =
      if matches then make_user env salt id email password nickname users else (users, inl bad_code)

module _ {S : Type 0} (api : OneTime S) (crypto : Crypto) where
  -- Register: the code is used up before the transaction.
  unfoldable pub register :
      Refusals
      → StoreCalls
      → ℕ
      → ℕ
      → String
      → String
      → String
      → String
      → S
      → Table
      → S × Table × (AuthError ⊎ Account)
  unfolding registered
  register env calls salt id email password nickname code store users =
      if not (is_long_enough password)
      then (store, users, inl short_password)
      else (let (store', answer) =
            api.call (store_call calls 0 (consume_code code) (code_key email)) store in
          let (users', made) = registered crypto env salt id email password nickname users answer in
          (store', users', made))

-- What reading the setting "smtp" and sending the mail say: `host` is whether a host is set, if the
-- setting can be read, and `sent` whether the mail goes out.
unfoldable pub mail_code : Option Bool → Bool → Option AuthError
mail_code none sent = some refused
mail_code (some false) sent = some smtp_not_configured
mail_code (some true) sent = if sent then none else some mail_failed

module _ {S : Type 0} (api : OneTime S) (calls : StoreCalls) (host : Option Bool) (sent : Bool)
    (email : String) where
  unfoldable pub after_cooldown : S → Option Bool → S × Option AuthError
  after_cooldown store none = (store, some store_failed)
  after_cooldown store (some _) = (store, mail_code host sent)

  unfoldable pub after_code : S → Option Bool → S × Option AuthError
  unfolding after_cooldown
  after_code store none = (store, some store_failed)
  after_code store (some _) =
      let (store', kept) =
        api.call (store_call calls 2 (set_code "1" 60000000000) (cooldown_key email)) store in
      after_cooldown store' kept

  unfoldable pub keep_code : S → Option String → S × Option AuthError
  unfolding after_code
  keep_code store none = (store, some store_failed)
  keep_code store (some digits) =
      let (store', kept) =
        api.call (store_call calls 1 (set_code digits 300000000000) (code_key email)) store in
      after_code store' kept

  unfoldable pub after_check : Option String → S → Option Bool → S × Option AuthError
  unfolding keep_code
  after_check code store none = (store, some store_failed)
  after_check code store (some true) = (store, some code_too_frequent)
  after_check code store (some false) = keep_code store code

  -- SendRegisterCode: `code` is the random text of six digits, if there is one.
  unfoldable pub send_register_code : Refusals → Option String → Table → S → S × Option AuthError
  unfolding after_check
  send_register_code env code users store =
      if env.counting
      then (store, some refused)
      else (if not (count (λ u. u.email == email) users == 0)
          then (store, some email_exists)
          else (let (store', cooling) =
                api.call (store_call calls 0 code_exists (cooldown_key email)) store in
              after_check code store' cooling))
