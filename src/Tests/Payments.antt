-- ===== src/Tests/Payments.antt =====
-- Payments at concrete inputs: an amount is a number of cents, and the digest is the text itself.
use axmi_pusher.Service.Payment.Signature.{signature_ignores_order}
use axmi_pusher.Base.Keys.{codes}
use axmi_pusher.Base.Assoc.{lookup, Assoc}
use axmi_pusher.Base.{
  text_eq, ap, ◌≢◌, Option, arith, ◌<◌, true, not, nat_eq, text_beq, ◌*◌, none, ◌⊎◌, refl, select,
  length, ◌+◌, ◌≡◌, Bool, first, ◌∷◌, [], ◌==◌, false, ℕ, Text, ◌≤◌, some,
}
use axmi_pusher.Base.Int.{pos}
use axmi_pusher.Models.{active}
use axmi_pusher.Service.Payment.Orders.{payable}
use axmi_pusher.Service.Payment.Checkout.{
  CheckoutApi, create_order, order_plan, place_order, build_pay_url,
}
use axmi_pusher.Service.Payment.Placed.{created_order_is_payable}
use axmi_pusher.Service.Payment.{
  text_leb, sort_texts, EpayConfig, MoneyApi, order_pending, PaymentOrder, Plan, PaymentDb,
  load_config, param, sign_params, verify_notify,
}
use axmi_pusher.Service.Payment.Orders.{
  judge, judge_status, subscribe_to, subscribe, start_of, handle_notify, pay, activate, is_live_of,
  add_duration, plan_duration, committed,
}
use axmi_pusher.Service.Payment.Notify.{IsGenuine, notify_believed}
use axmi_pusher.Service.Payment.Paid.{paid_once}
use axmi_pusher.Service.Payment.Subscriptions.{
  begins, renewed, activate-renews, paid_twice_when_concurrent,
}
use axmi_pusher.Service.Payment.Durations.{subscription_ends}

abbrev cents : MoneyApi ℕ
cents = record { is_zero = λ n. n == 0; parse = λ t. length t; differs = λ a b. not (a == b) }

abbrev plain : Text → Text
plain t = t

abbrev epay : EpayConfig
epay = record { gateway = codes "g"; pid = codes "7"; key = codes "k" }

abbrev order : PaymentOrder ℕ
order = record {
  id = 1;
  tenant_id = 5;
  plan_id = 3;
  type = codes "alipay";
  out_trade_no = codes "MP1";
  epay_trade_no = [];
  amount = 3;
  status = order_pending;
  expired_at = 0;
  paid_at = none;
  notify_data = [];
}

abbrev monthly : Plan ℕ
monthly = record {
  id = 3;
  name = codes "m";
  price = 3;
  duration_days = pos 30;
  status = active;
  sort_order = pos 0;
}

abbrev before_payment : PaymentDb ℕ
before_payment = record {
  orders = order ∷ [];
  plans = monthly ∷ [];
  subscriptions = [];
  users = record { id = 5; plan_id = 0 } ∷ [];
}

abbrev granted : ℕ → Bool
granted k = false

abbrev notification : Assoc Text Text
notification =
    (codes "pid", codes "7")
    ∷ (codes "trade_status", codes "TRADE_SUCCESS")
    ∷ (codes "out_trade_no", codes "MP1")
    ∷ (codes "money", codes "abc")
    ∷ (codes "sign", codes "money=abc&out_trade_no=MP1&pid=7&trade_status=TRADE_SUCCESS&key=k")
    ∷ []

notification_signed : verify_notify plain epay notification ≡ true
unfolding verify_notify sign_params sort_texts text_leb param lookup text_beq
notification_signed = refl

abbrev after_payment : PaymentDb ℕ
after_payment =
    (handle_notify cents plain granted (some epay) false notification 100 before_payment).0

notify_believed_example :
    ((handle_notify cents plain granted (some epay) false notification 100 before_payment).0
      ≡ before_payment)
    ⊎ ((cfg : EpayConfig) × ((load_config (some epay) ≡ some cfg)
          × ((o : PaymentOrder ℕ) × (IsGenuine cents plain cfg notification before_payment o
                × ((handle_notify cents plain granted
                      (some epay)
                      false
                      notification
                      100
                      before_payment).0
                    ≡ (committed cents plain before_payment
                        (pay granted notification 100 o before_payment)).0)))))
notify_believed_example =
    notify_believed cents plain granted (some epay) false notification 100 before_payment

paid_once_example :
    (handle_notify cents plain granted (some epay) false notification 200 after_payment).0
    ≡ after_payment
unfolding handle_notify judge load_config text_beq param lookup verify_notify sign_params sort_texts
    text_leb judge_status pay activate subscribe_to subscribe
paid_once_example =
    paid_once cents plain granted granted (some epay) (some epay) false false notification
      notification 100 200 before_payment after_payment refl refl

-- What a transaction leaves, or the tables before it.
abbrev left_by : Option (PaymentDb ℕ) → PaymentDb ℕ
left_by none = before_payment
left_by (some db) = db

abbrev renewed_db : PaymentDb ℕ
renewed_db = left_by (activate granted 5 3 100 before_payment)

activate-renews_example :
    (p : Plan ℕ) × ((first (λ q. q.id == 3) before_payment.plans ≡ some p)
      × (select (is_live_of 5) renewed_db.subscriptions
          ≡ renewed 5 p 100 before_payment.subscriptions ∷ []))
unfolding activate subscribe_to subscribe
activate-renews_example = activate-renews granted 5 3 100 before_payment renewed_db refl refl refl

abbrev paid_db : PaymentDb ℕ
paid_db = left_by (pay granted notification 100 order before_payment)

abbrev paid_again_db : PaymentDb ℕ
paid_again_db = left_by (pay granted notification 101 order paid_db)

paid_twice_when_concurrent_example : select (is_live_of 5) paid_again_db.subscriptions ≡ (
    let once = renewed 5 monthly 100 before_payment.subscriptions in
    record once {
      start_at = once.end_at;
      end_at = add_duration once.end_at (plan_duration monthly.duration_days);
    }
    ∷ [])
unfolding pay activate subscribe_to subscribe renewed begins start_of add_duration plan_duration
paid_twice_when_concurrent_example =
    paid_twice_when_concurrent granted granted notification notification 100 101 order monthly
      before_payment paid_db paid_again_db (refl, refl) (refl, refl) refl refl refl (omega arith)

subscription_ends_example :
    ((200000 ≤ 106751)
      × (add_duration 5 (plan_duration (pos 200000)) ≡ 5 + 200000 * 86400000000000))
    ⊎ ((106752 ≤ 200000) × (add_duration 5 (plan_duration (pos 200000)) < 5))
subscription_ends_example = subscription_ends 5 200000 (omega arith) (omega arith) (omega arith)

abbrev checkout : CheckoutApi ℕ
checkout = record {
  money = cents;
  format = λ n. codes "3.00";
  escape = plain;
  md5 = plain;
  base_url = codes "u/";
}

abbrev no_orders : PaymentDb ℕ
no_orders = record before_payment { orders = [] }

abbrev placed : PaymentOrder ℕ
placed = record order { expired_at = 1800000000100 }

created_order_is_payable_example :
    judge cents plain
      (some epay)
      false
      notification
      (record before_payment { orders = placed ∷ [] })
    ≡ payable placed
unfolding create_order order_plan place_order load_config verify_notify sign_params sort_texts
    text_leb param lookup text_beq
created_order_is_payable_example =
    created_order_is_payable checkout granted (some epay) 1 (codes "MP1") 5 3 [] 100 no_orders
      (record before_payment { orders = placed ∷ [] }) placed
      (build_pay_url checkout epay placed monthly) epay notification refl refl refl refl refl refl
      refl refl

keys_differ : codes "c" ≢ codes "a"
unfolding text_beq
keys_differ e = absurd (unequal (ap (λ t. t == codes "a") e))
  where
    unequal : false ≡ true → ⊥
    unequal p = cc

signature_ignores_order_example :
    sign_params plain
      ((codes "b", codes "2") ∷ (codes "c", []) ∷ (codes "a", codes "1") ∷ [])
      (codes "k")
    ≡ sign_params plain
        ((codes "b", codes "2") ∷ (codes "a", codes "1") ∷ (codes "c", []) ∷ [])
        (codes "k")
signature_ignores_order_example =
    signature_ignores_order plain (codes "k") ((codes "b", codes "2") ∷ []) [] (codes "c", [])
      (codes "a", codes "1") keys_differ
