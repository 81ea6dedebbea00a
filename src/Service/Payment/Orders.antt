-- ===== src/Service/Payment/Orders.antt =====
-- internal/service/payment.go: activateSubscription, CreateOrder, HandleNotify and the queries.
-- `refuses k` says whether the database refuses the k-th statement of an operation.
use axmi_pusher.Base.Keys.{codes}
use axmi_pusher.Base.Assoc.{Assoc}
use axmi_pusher.Base.{
  [], ◌∷◌, text_eq, suc, ◌++◌, not, ◌-◌, ◌^◌, true, first, nat_eq, ◌%◌, ◌||◌, ltb, false, none, ◌+◌,
  ◌*◌, update, ◌&&◌, ◌==◌, List, some, if◌then◌else◌, Text, ℕ, Bool, Option,
}
use axmi_pusher.Service.Payment.{
  OrderStatus, codes, Assoc, Text, Bool, ℕ, Option, EpayConfig, MoneyApi, order_pending, order_paid,
  order_closed, PaymentOrder, Plan, Subscription, PaymentDb, load_config, param, verify_notify,
  format_params,
}
use axmi_pusher.Base.Int.{negsuc, positive_or, pos, ℤ, of_bits}

-- The nanoseconds of time.Duration(duration) * 24 * time.Hour, an int64, for a duration that is
-- positive: 30 days where the plan has none.
unfoldable pub plan_duration : ℤ → ℤ
plan_duration days = of_bits (positive_or 30 days * 86400000000000 % 2 ^ 64)

-- start.Add
unfoldable pub add_duration : ℕ → ℤ → ℕ
add_duration t (pos n) = t + n
add_duration t (negsuc n) = t - suc n

abbrev pub is_live_of : ℕ → Subscription → Bool
is_live_of tenant s = s.tenant_id == tenant && s.is_live

-- Where a subscription begins: at the end of the live one of the same plan, or now.
unfoldable pub start_of : Option Subscription → ℕ → ℕ → ℕ
start_of none plan now = now
start_of (some old) plan now = if old.plan_id == plan && ltb now old.end_at then old.end_at else now

unfoldable pub expire_all : Bool → ℕ → List Subscription → List Subscription
expire_all refused tenant subs =
    if refused
    then subs
    else update (λ s. s.tenant_id == tenant) (λ s. record s { is_live = false }) subs

module _ {M : Type 0} where
  unfoldable pub subscribe : (ℕ → Bool) → ℕ → Plan M → ℕ → PaymentDb M → Option (PaymentDb M)
  subscribe refuses tenant plan now db =
      let old = if refuses 1 then none else first (is_live_of tenant) db.subscriptions in
      let start = start_of old plan.id now in
      let sub : Subscription = record {
        tenant_id = tenant;
        plan_id = plan.id;
        start_at = start;
        end_at = add_duration start (plan_duration plan.duration_days);
        is_live = true;
      } in
      if refuses 3 || refuses 4
      then none
      else some (record db {
        subscriptions = expire_all (refuses 2) tenant db.subscriptions ++ (sub ∷ []);
        users = update (λ u. u.id == tenant) (λ u. record u { plan_id = plan.id }) db.users;
      })

  unfoldable pub subscribe_to :
      (ℕ → Bool) → ℕ → Option (Plan M) → ℕ → PaymentDb M → Option (PaymentDb M)
  subscribe_to refuses tenant none now db = none
  subscribe_to refuses tenant (some p) now db = subscribe refuses tenant p now db

  -- activateSubscription; an error of its second and third statements is ignored.
  unfoldable pub activate : (ℕ → Bool) → ℕ → ℕ → ℕ → PaymentDb M → Option (PaymentDb M)
  activate refuses tenant plan now db =
      subscribe_to refuses tenant (if refuses 0 then none else first (λ p. p.id == plan) db.plans)
        now db

  -- The order with the write of its payment.
  unfoldable pub mark_paid : Assoc Text Text → ℕ → PaymentOrder M → PaymentOrder M
  mark_paid params now o = record o {
    status = order_paid;
    epay_trade_no = param (codes "trade_no") params;
    paid_at = some now;
    notify_data = format_params params;
  }

  -- The transaction: it writes the row of the order that was read, whatever its state is by now.
  -- The statements of `activate` come first in the count of refusals, then the write, at 5, and the
  -- commit, at 6.
  unfoldable pub pay :
      (ℕ → Bool) → Assoc Text Text → ℕ → PaymentOrder M → PaymentDb M → Option (PaymentDb M)
  pay refuses params now o db =
      let written : PaymentDb M = record db {
        orders = update (λ r. r.id == o.id) (mark_paid params now) db.orders;
      } in
      if refuses 5 || refuses 6 then none else activate refuses o.tenant_id o.plan_id now written

pub data NotifyError : Type 0 where
  not_configured wrong_pid wrong_sign not_successful no_order order_was_closed wrong_amount
        not_committed :
      NotifyError

-- What the checks of HandleNotify decide: an error, nothing to do, or an order to pay.
pub data Verdict (M : Type 0) : Type 0 where
  rejected : NotifyError → Verdict M
  settled : Verdict M
  payable : PaymentOrder M → Verdict M

module _ {M : Type 0} (money : MoneyApi M) (md5 : Text → Text) where
  unfoldable pub judge_status : Assoc Text Text → PaymentOrder M → OrderStatus → Verdict M
  judge_status params o order_paid = settled
  judge_status params o order_closed = rejected order_was_closed
  judge_status params o order_pending =
      if money.differs o.amount (money.parse (param (codes "money") params))
      then rejected wrong_amount
      else payable o

  unfoldable pub judge_order : Assoc Text Text → Option (PaymentOrder M) → Verdict M
  judge_order params none = rejected no_order
  judge_order params (some o) = judge_status params o o.status

  unfoldable pub judge_signed : EpayConfig → Bool → Assoc Text Text → PaymentDb M → Verdict M
  judge_signed cfg refused params db =
      let found =
        if refused
        then none
        else first (λ o. o.out_trade_no == param (codes "out_trade_no") params) db.orders in
      if not (param (codes "pid") params == cfg.pid)
      then rejected wrong_pid
      else (if not (verify_notify md5 cfg params)
          then rejected wrong_sign
          else (if not (param (codes "trade_status") params == codes "TRADE_SUCCESS")
              then rejected not_successful
              else judge_order params found))

  -- The checks, up to the transaction, on the configuration that the settings hold.
  unfoldable pub judge : Option EpayConfig → Bool → Assoc Text Text → PaymentDb M → Verdict M
  unfolding judge_signed judge_order
  judge settings refused params db = elim (load_config settings) [
    | none ↦ rejected not_configured
    | some cfg ↦ judge_signed cfg refused params db
  ]

  unfoldable pub committed : PaymentDb M → Option (PaymentDb M) → PaymentDb M × Option NotifyError
  committed db none = (db, some not_committed)
  committed db (some db') = (db', none)

  -- HandleNotify, with its error.
  unfoldable pub handle_notify :
      (ℕ → Bool)
      → Option EpayConfig
      → Bool
      → Assoc Text Text
      → ℕ
      → PaymentDb M
      → PaymentDb M × Option NotifyError
  unfolding committed
  handle_notify refuses settings refused params now db = elim (judge settings refused params db) [
    | rejected e ↦ (db, some e)
    | settled ↦ (db, none)
    | payable o ↦ committed db (pay refuses params now o db)
  ]
