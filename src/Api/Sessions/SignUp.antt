-- ===== src/Api/Sessions/SignUp.antt =====
-- internal/api/handler/auth.go: Register, which answers with a token of its own.
use axmi_pusher.Base.{
  ℕ, String, Text, Bool, Option, List, [], ◌∷◌, ◌++◌, true, false, some, none, inl, inr, ◌⊎◌, ◌≡◌,
  refl, if◌then◌else◌, ◌==◌, string_eq, not, ◌&&◌, All, Bool-cases,
}
use axmi_pusher.Accounts.{Account, Table, Crypto, AuthError, JwtClaims, bad_code}
use axmi_pusher.Accounts.Profile.{Refusals}
use axmi_pusher.Accounts.Register.{StoreCalls, register}
use axmi_pusher.Accounts.Tokens.{create_token, user_claims}
use axmi_pusher.Service.CodeStore.Once.{OneTime}
use axmi_pusher.Api.{Answer, bad_request, conflict, ok}
use axmi_pusher.Api.Sessions.{Grant, session, signed_session}
use axmi_pusher.Api.Sessions.Factors.{Proof, password, Factors, World, tokens_of, Backed}

pub record RegisterRequest : Type 0 where
  pub email : String
  pub secret : String
  pub confirm : String
  pub nickname : String
  pub code : String

-- What Register meets: the refusals of the database, the calls on the store of codes, the salt of the
-- hash, the key that the database gives, and the time at which the token is made.
pub record RegisterEnv : Type 0 where
  pub refusals : Refusals
  pub calls : StoreCalls
  pub salt : ℕ
  pub id : ℕ
  pub signing : ℕ

abbrev is_bad_code : AuthError → Bool
is_bad_code bad_code = true
is_bad_code _ = false

module _ {S : Type 0} (api : OneTime S) (crypto : Crypto) (ttl : ℕ) (env : RegisterEnv) where
  unfoldable pub granted_new : AuthError ⊎ Account → Answer Grant
  granted_new (inl e) = if is_bad_code e then bad_request else conflict
  granted_new (inr u) = signed_session u (create_token crypto env.signing ttl u)

  -- Register
  unfoldable pub register_handler : RegisterRequest → S → Table → S × Table × Answer Grant
  unfolding granted_new
  register_handler req store users =
      let (store', users', made) =
        register api crypto env.refusals env.calls env.salt env.id req.email req.secret req.nickname
          req.code store users in
      if not (req.confirm == "") && not (req.confirm == req.secret)
      then (store, users, bad_request)
      else (store', users', granted_new made)

  -- Whoever is given an account has shown its password, and was asked for no code.
  unfoldable pub shows_new : Answer Grant → List Proof
  shows_new (ok (session t u)) = password false u.id false ∷ []
  shows_new _ = []

  new-Backed :
      (old : List Proof) (u : Account) (c : JwtClaims) (o : Option Text)
      → crypto.sign c ≡ o
      → Factors c.kind c (password false u.id false ∷ old)
      → All (Backed crypto (shows_new (signed_session u o) ++ old)) (tokens_of (signed_session u o))
  unfolding shows_new
  new-Backed old u c none e f = tt
  new-Backed old u c (some t) e f = (record { claims = c; signed = e; factors = f }, tt)

  granted_new-Backed :
      (old : List Proof) (made : AuthError ⊎ Account)
      → All (Backed crypto (shows_new (granted_new made) ++ old)) (tokens_of (granted_new made))
  unfolding granted_new create_token
  granted_new-Backed old (inl e) = elim (Bool-cases (is_bad_code e)) [
    | inl bad ↦ rw bad tt
    | inr other ↦ rw other tt
  ]
  granted_new-Backed old (inr u) =
      new-Backed old u (user_claims env.signing ttl u) _ refl (inl (inl refl))

  pub register_handler-Backed :
      (req : RegisterRequest) (store : S) (w : World)
      → let answer = (register_handler req store w.users).2 in
        All (Backed crypto (shows_new answer ++ w.shown)) (tokens_of answer)
  unfolding register_handler
  register_handler-Backed req store w =
      elim (Bool-cases (not (req.confirm == "") && not (req.confirm == req.secret))) [
        | inl typo ↦ rw typo tt
        | inr same ↦ rw same (granted_new-Backed w.shown _)
      ]
