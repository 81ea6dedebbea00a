-- ===== src/Tests/Accounts.antt =====
-- The accounts and the keys at concrete inputs.
use axmi_pusher.Base.Keys.{codes}
use axmi_pusher.Base.{
  Text, List, [], ◌∷◌, ◌++◌, true, false, some, none, inr, ◌≡◌, refl, if◌then◌else◌, nat_eq,
  string_eq, text_eq, ◌≢◌, ◌≤◌, ◌+◌, count,
}
use axmi_pusher.Models.{active, disabled}
use axmi_pusher.Base.{text_beq}
use axmi_pusher.Compat.{trim_space, trim_left}
use axmi_pusher.Base.{length}
use mathlib.Core.List.{reverse}
use axmi_pusher.Base.Int.{pos}
use axmi_pusher.Base.Paging.{slice}
use axmi_pusher.Models.{is_active}
use axmi_pusher.Accounts.{bad_old_pass}
use axmi_pusher.Accounts.Admins.{written_status, check_status, checked_status}
use axmi_pusher.Accounts.Profile.{change_password}
use axmi_pusher.Accounts.Calls.{call, put_password, add_admin}
use axmi_pusher.Accounts.Calls.Unique.{call-Unique}
use axmi_pusher.Accounts.Calls.Rows.{HasUniqueAccounts}
use axmi_pusher.Accounts.Calls.Errors.{failed_call_unchanged}
use axmi_pusher.Api.Admins.{list_admins_handler}
use axmi_pusher.Api.Admins.Raced.{others_active, disable_each_other}
use axmi_pusher.Api.Admins.Pages.{is_negative, offset, list_admins_handler-slice}
use axmi_pusher.Accounts.{is_long_enough, byte_length, ApiKey}
use axmi_pusher.Accounts.Keys.{create_api_key, resolve_api_key, used_key, revoke_api_key}
use axmi_pusher.Accounts.Keys.Lives.{KeyCall, create, resolve, revoke, after_calls}
use axmi_pusher.Accounts.Register.{code_key, StoreCalls}
use axmi_pusher.Accounts.Register.Codes.{SignUp, ask, sign_up, sign_ups, accounts-le-codes}
use axmi_pusher.Service.RateLimit.{replied}
use axmi_pusher.Service.CodeStore.Once.{memory_code_store}
use axmi_pusher.Api.Auth.{require_auth_or_api_key, passed_either}
use axmi_pusher.Api.Auth.KeyAccess.{EntersFor, new_key_opens, revoked_key_shut}
use axmi_pusher.Api.{ok}
use axmi_pusher.Api.Auth.{empty_context, extract_bearer, bearer_of, split_space, is_bearer}
use axmi_pusher.Tests.Toy.{toy, admins, well, admins-Unique}

wrong_password :
    (call toy well 0 0 (put_password 1 "guess" "a new password") admins).1 ≡ some bad_old_pass
unfolding call change_password is_long_enough byte_length
wrong_password = refl

disable_each_other_example :
    count
      (λ r. is_active r.status)
      (written_status well disabled (written_status well disabled admins (inr 2)).0 (inr 1)).0
    ≡ others_active 1 2 admins
unfolding check_status checked_status
disable_each_other_example = disable_each_other well well 1 2 2 1 admins refl refl refl refl

list_admins_handler-slice_example : list_admins_handler false (pos 2) (pos 1) admins ≡ (
    if is_negative (offset (pos 2) (pos 1))
    then none
    else some (ok (slice (pos 2) (pos 1) (reverse admins), length (reverse admins))))
list_admins_handler-slice_example = list_admins_handler-slice (pos 2) (pos 1) admins

call-Unique_example :
    HasUniqueAccounts
      (call toy well 0 0 (add_admin 3 "third@x.org" "a long password" "third") admins).0
call-Unique_example =
    call-Unique toy well 0 0 (add_admin 3 "third@x.org" "a long password" "third") admins refl
      admins-Unique

failed_call_unchanged_example :
    (call toy well 0 0 (put_password 1 "guess" "a new password") admins).0 ≡ admins
failed_call_unchanged_example =
    failed_call_unchanged toy well 0 0 (put_password 1 "guess" "a new password") admins bad_old_pass
      tt wrong_password

abbrev plain_key : Text
plain_key = codes "ak_secret_text"

abbrev new_key : ApiKey
new_key = record {
  id = 7;
  tenant_id = 42;
  name = "phone";
  key_prefix = codes "ak_secre";
  key_hash = "digest";
  scopes = "send";
  status = active;
  expires_at = some 900;
  last_used_at = none;
}

-- Calls on another key after the creation.
abbrev on_others : List KeyCall
on_others =
    create false 8 42 (codes "ak_other_text") "tablet" "send" none
    ∷ resolve false false 100 (codes "ak_other_text")
    ∷ revoke false 42 8
    ∷ []

key_made :
    (create_api_key toy false 7 42 plain_key "phone" "send" (some 900) []).1
    ≡ inr (new_key, plain_key)
unfolding create_api_key text_beq
key_made = refl

plain_trimmed : trim_space plain_key ≡ plain_key
unfolding trim_space trim_left
plain_trimmed = refl

new_key_opens_example :
    EntersFor 42
      (require_auth_or_api_key toy 500 false false false
        (codes "bearer" ++ (32 ∷ plain_key))
        (after_calls toy on_others
          (create_api_key toy false 7 42 plain_key "phone" "send" (some 900) []).0)
        []
        empty_context).1
unfolding is_bearer text_beq
new_key_opens_example =
    new_key_opens toy 500 42 7 false false false (codes "bearer") plain_key "phone" "send"
      (some 900) [] [] (new_key, plain_key) on_others key_made (tt, (tt, (refl, tt))) refl
      plain_trimmed refl refl

-- A revoked key among others: the request is let in by the other one.
abbrev other_key : ApiKey
other_key = record new_key { id = 8; key_hash = "other"; expires_at = none }

other_opens :
    (require_auth_or_api_key toy 500 false false false
      (codes "Bearer" ++ (32 ∷ codes "ak_other_text"))
      (after_calls toy [] (revoke_api_key false 42 7 (new_key ∷ other_key ∷ [])).0)
      []
      empty_context).1
    ≡ ok (record empty_context {
      tenant = some 42;
      api_key = some (record other_key { last_used_at = some 500 });
    })
unfolding require_auth_or_api_key extract_bearer bearer_of split_space is_bearer text_beq trim_space
    trim_left resolve_api_key used_key passed_either after_calls revoke_api_key
other_opens = refl

revoked_key_shut_example : other_key.id ≢ 7
revoked_key_shut_example =
    revoked_key_shut toy 500 42 7 false false false (codes "Bearer" ++ (32 ∷ codes "ak_other_text"))
      (new_key ∷ other_key ∷ []) [] []
      (record empty_context {
        tenant = some 42;
        api_key = some (record other_key { last_used_at = some 500 });
      })
      (record other_key { last_used_at = some 500 }) refl tt other_opens refl

abbrev store_calls : StoreCalls
store_calls = record { at = λ n. 1000 + n; reply = λ n. replied }

abbrev sign_up_requests : List SignUp
sign_up_requests =
    ask well store_calls (some true) true "new@x.org" (some "123456")
    ∷ sign_up well store_calls 0 5 "new@x.org" "a long password" "" "123456"
    ∷ sign_up well store_calls 0 6 "new@x.org" "a long password" "" "123456"
    ∷ []

accounts-le-codes_example :
    (sign_ups memory_code_store toy "new@x.org" sign_up_requests ([], [])).0
    ≤ (sign_ups memory_code_store toy "new@x.org" sign_up_requests ([], [])).1
      + memory_code_store.held (code_key "new@x.org") []
accounts-le-codes_example =
    accounts-le-codes memory_code_store toy "new@x.org" sign_up_requests [] []
