-- ===== src/Api/Sessions/Sequences.antt =====
-- The factors behind every request of a person, over all sequences of requests.
use axmi_pusher.Base.{
  ℕ, Text, Bool, Option, [], ◌++◌, true, false, some, ◌≡◌, if◌then◌else◌, All, All-append, nat_eq,
  text_eq,
}
use axmi_pusher.Models.{is_active}
use axmi_pusher.Accounts.{Account, Table, Crypto, TokenKind, user_token, admin_token}
use axmi_pusher.Api.{Answer}
use axmi_pusher.Api.Auth.{Context, require_auth, require_admin_auth}
use axmi_pusher.Api.Sessions.{LoginEnv}
use axmi_pusher.Api.Sessions.Factors.{
  LoginRequest, first_step, second_step, World, tokens_of, Backed, All-Backed-append, shows,
  handled, Proven, Factors,
}
use axmi_pusher.Service.CodeStore.Once.{OneTime}
use axmi_pusher.Api.Sessions.SignUp.{
  RegisterEnv, RegisterRequest, register_handler, shows_new, register_handler-Backed,
}
use axmi_pusher.Api.Sessions.Steps.{HasJwt, IsKnown, handled-Backed}

abbrev pub is_admin_request : LoginRequest → Bool
is_admin_request (first_step is_admin email secret) = is_admin
is_admin_request (second_step is_admin token digits) = is_admin

module _ (crypto : Crypto) (ttl : ℕ) where
  -- The world after a login, successful or not.
  unfoldable pub logged : LoginEnv → LoginRequest → World → World
  logged env r w =
      let (rows, answer) = handled crypto ttl env r w in
      record {
        users = if is_admin_request r then w.users else rows;
        admins = if is_admin_request r then rows else w.admins;
        issued = tokens_of answer ++ w.issued;
        shown = shows crypto ttl env r w ++ w.shown;
      }

module _ {S : Type 0} (api : OneTime S) (crypto : Crypto) (ttl : ℕ) where
  -- The world after a request to register, successful or not.
  unfoldable pub signed_up : RegisterEnv → RegisterRequest → S → World → World
  signed_up env req store w =
      let (store', users, answer) = register_handler api crypto ttl env req store w.users in
      record w {
        users = users;
        issued = tokens_of answer ++ w.issued;
        shown = shows_new api crypto ttl env answer ++ w.shown;
      }

  -- Logins and registrations in any order, with any change of the tables between them.
  pub data Reach : World → Type 0 where
    start :
        (users admins : Table)
        → Reach (record { users = users; admins = admins; issued = []; shown = [] })
    log_in :
        {w : World} (env : LoginEnv) (r : LoginRequest)
        → Reach w
        → IsKnown crypto env.now r w
        → Reach (logged crypto ttl env r w)
    sign_up :
        {w : World} (env : RegisterEnv) (req : RegisterRequest) (store : S)
        → Reach w
        → Reach (signed_up env req store w)
    change :
        {w : World} (users admins : Table)
        → Reach w
        → Reach (record w { users = users; admins = admins })

  pub Reach-Backed : HasJwt crypto → {w : World} → Reach w → All (Backed crypto w.shown) w.issued
  unfolding logged signed_up
  Reach-Backed jwt (start users admins) = tt
  Reach-Backed jwt (log_in {w} env r before known) =
      let backed = Reach-Backed jwt before in
      All-append _ _ _ (handled-Backed crypto jwt ttl env w backed r known)
        (All-Backed-append crypto _ _ _ backed)
  Reach-Backed jwt (sign_up {w} env req store before) =
      All-append _ _ _ (register_handler-Backed api crypto ttl env req store w)
        (All-Backed-append crypto _ _ _ (Reach-Backed jwt before))
  Reach-Backed jwt (change users admins before) = Reach-Backed jwt before

-- RequireAdminAuth or RequireAuth, and the account that the handler is given.
abbrev pub entered : Bool → Crypto → ℕ → Bool → Text → World → Context → Answer Context
entered true crypto now find_refused header w ctx =
    require_admin_auth crypto now find_refused find_refused header w.admins ctx
entered false crypto now find_refused header w ctx =
    require_auth crypto now find_refused find_refused header w.users ctx

abbrev pub caller : Bool → Context → Option Account
caller true ctx = ctx.admin
caller false ctx = ctx.user

abbrev session_kind : Bool → TokenKind
session_kind true = admin_token
session_kind false = user_token

-- What a person who enters has shown, and that the account is active.
pub record HasEntered (is_admin : Bool) (w : World) (ctx : Context) : Type 0 where
  pub account : Account
  pub named : caller is_admin ctx ≡ some account
  pub active : is_active account.status ≡ true
  pub proven : Proven is_admin account.id w.shown
