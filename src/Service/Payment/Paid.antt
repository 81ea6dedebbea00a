-- ===== src/Service/Payment/Paid.antt =====
-- An order is paid once, however often its notification comes, one after another.
use mathlib.Core.Path.{subst}
use axmi_pusher.Base.Keys.{codes}
use axmi_pusher.Base.Assoc.{Assoc}
use axmi_pusher.Base.{
  nat_beq_iff, ap, false, ◌∙◌, nat_eq, sym, refl, ◌||◌, inr, if◌then◌else◌, Bool-cases, inl, none,
  [], arith, text_eq, ◌∷◌, ◌==◌, update, some, first, true, ◌≡◌, List, Option, ℕ, Text, Bool,
}
use axmi_pusher.Service.Payment.Notify.{judge-payable, guards_pass, unless_refused, notify_believed}
use axmi_pusher.Service.Payment.{
  codes, Assoc, Text, ℕ, Bool, EpayConfig, MoneyApi, OrderStatus, order_pending, order_paid,
  order_closed, PaymentOrder, Plan, PaymentDb, load_config, param, verify_notify,
}
use axmi_pusher.Service.Payment.Orders.{
  not_configured, wrong_pid, wrong_sign, not_successful, subscribe_to, activate, subscribe, judge,
  judge_signed, judge_order, judge_status, pay, mark_paid, handle_notify, committed, rejected,
  settled, payable, NotifyError, Verdict,
}

first-update_hit :
    {A : Type 0} (p q : A → Bool) (f : A → A) (a : A) (xs : List A)
    → ((x : A) → p (f x) ≡ p x)
    → q a ≡ true
    → first p xs ≡ some a
    → first p (update q f xs) ≡ some (f a)
first-update_hit p q f a [] keeps hit h = cc
first-update_hit p q f a (x ∷ xs) keeps hit h =
    grind (arith, keeps x, first-update_hit p q f a xs keeps hit)

module _ {M : Type 0} where
  KeepsOrders : PaymentDb M → Option (PaymentDb M) → Type 0
  KeepsOrders db none = Unit
  KeepsOrders db (some db') = db'.orders ≡ db.orders

  activate-KeepsOrders :
      (refuses : ℕ → Bool) (tenant plan now : ℕ) (db : PaymentDb M)
      → KeepsOrders db (activate refuses tenant plan now db)
  unfolding activate subscribe subscribe_to KeepsOrders
  activate-KeepsOrders refuses tenant plan now db =
      subscribed (if refuses 0 then none else first (λ p. p.id == plan) db.plans)
    where
      subscribed : (p : Option (Plan M)) → KeepsOrders db (subscribe_to refuses tenant p now db)
      subscribed none = tt
      subscribed (some p) = elim (Bool-cases (refuses 3 || refuses 4)) [
        | inl refused ↦ rw (refused, subscribe, KeepsOrders) tt
        | inr taken ↦ rw (taken, subscribe, KeepsOrders) refl
      ]

  PaidIn : Text → List (PaymentOrder M) → Type 0
  PaidIn number orders =
      (o : PaymentOrder M) × ((first (λ r. r.out_trade_no == number) orders ≡ some o)
        × (o.status ≡ order_paid))

module _ {M : Type 0} (money : MoneyApi M) (md5 : Text → Text) where
  pay-PaidIn :
      (refuses : ℕ → Bool) (params : Assoc Text Text) (now : ℕ) (number : Text) (o : PaymentOrder M)
      (db db' : PaymentDb M)
      → first (λ r. r.out_trade_no == number) db.orders ≡ some o
      → pay refuses params now o db ≡ some db'
      → PaidIn number db'.orders
  unfolding pay PaidIn mark_paid KeepsOrders
  pay-PaidIn refuses params now number o db db' found h =
      elim (Bool-cases (refuses 5 || refuses 6)) [
        | inl refused ↦ absurd (ground (arith, refused, h))
        | inr taken ↦ (
          mark_paid params now o,
          (
            ap (first (λ r. r.out_trade_no == number)) (kept taken)
                ∙ first-update_hit (λ r. r.out_trade_no == number) (λ r. r.id == o.id)
                    (mark_paid params now) o db.orders (λ r. refl) ((nat_beq_iff o.id o.id).1 refl)
                    found,
            refl,
          ),
        )
      ]
    where
      written : PaymentDb M
      written = record db { orders = update (λ r. r.id == o.id) (mark_paid params now) db.orders }

      activated :
          (refuses 5 || refuses 6) ≡ false
          → activate refuses o.tenant_id o.plan_id now written ≡ some db'
      activated taken = (rw (taken, pay) refl) ∙ h

      kept : (refuses 5 || refuses 6) ≡ false → db'.orders ≡ written.orders
      kept taken =
          subst (KeepsOrders written) (activated taken)
            (activate-KeepsOrders refuses o.tenant_id o.plan_id now written)

  PaidIn-unchanged :
      (refuses : ℕ → Bool) (settings : Option EpayConfig) (refused : Bool)
      (params : Assoc Text Text) (now : ℕ) (db : PaymentDb M)
      → PaidIn (param (codes "out_trade_no") params) db.orders
      → (handle_notify money md5 refuses settings refused params now db).0 ≡ db
  unfolding PaidIn
  PaidIn-unchanged refuses settings refused params now db (o, (found, paid)) =
      elim (notify_believed money md5 refuses settings refused params now db) [
        | inl same ↦ same
        | inr (cfg, (loads, (o', (genuine, e)))) ↦
            absurd (clash (sym found ∙ genuine.found) paid genuine.is_pending)
      ]
    where
      clash :
          {a b : PaymentOrder M}
          → ◌≡◌ {A = Option (PaymentOrder M)} (some a) (some b)
          → a.status ≡ order_paid
          → b.status ≡ order_pending
          → ⊥
      clash same p q = cc

  judge_status-settled :
      (params : Assoc Text Text) (o : PaymentOrder M) (status : OrderStatus)
      → judge_status money md5 params o status ≡ settled
      → status ≡ order_paid
  unfolding judge_status
  judge_status-settled params o order_paid h = refl
  judge_status-settled params o order_closed h = cc
  judge_status-settled params o order_pending h = ground arith

  judge_order-settled :
      (params : Assoc Text Text) (refused : Bool) (db : PaymentDb M)
      (found : Option (PaymentOrder M))
      → (if refused
          then none
          else first (λ o. o.out_trade_no == param (codes "out_trade_no") params) db.orders)
        ≡ found
      → judge_order money md5 params found ≡ settled
      → PaidIn (param (codes "out_trade_no") params) db.orders
  unfolding judge_order PaidIn
  judge_order-settled params refused db none there h = cc
  judge_order-settled params refused db (some o) there h = (
    o,
    (
      unless_refused refused
          (first (λ r. r.out_trade_no == param (codes "out_trade_no") params) db.orders) o there,
      judge_status-settled params o o.status h,
    ),
  )

  judge-settled :
      (settings : Option EpayConfig) (refused : Bool) (params : Assoc Text Text) (db : PaymentDb M)
      → judge money md5 settings refused params db ≡ settled
      → PaidIn (param (codes "out_trade_no") params) db.orders
  unfolding judge judge_signed
  judge-settled settings refused params db h = loaded (load_config settings) h
    where
      found : Option (PaymentOrder M)
      found =
          if refused
          then none
          else first (λ o. o.out_trade_no == param (codes "out_trade_no") params) db.orders

      loaded :
          (c : Option EpayConfig)
          → ◌≡◌ {A = Verdict M}
              (elim c [
                | none ↦ rejected not_configured
                | some cfg ↦ judge_signed money md5 cfg refused params db
              ])
              settled
          → PaidIn (param (codes "out_trade_no") params) db.orders
      loaded none e = cc
      loaded (some cfg) e =
          judge_order-settled params refused db found refl
            (guards_pass (param (codes "pid") params == cfg.pid) (verify_notify md5 cfg params)
              (param (codes "trade_status") params == codes "TRADE_SUCCESS") wrong_pid wrong_sign
              not_successful (judge_order money md5 params found) settled (λ x k. cc) e).1.1.1

  committed-some :
      (db db' : PaymentDb M) (r : Option (PaymentDb M))
      → committed money md5 db r ≡ (db', none)
      → r ≡ some db'
  unfolding committed
  committed-some db db' none h = cc
  committed-some db db' (some d) h = ap some (ap (λ z. z.0) h)

  -- The order that an answer without error speaks of is paid afterwards.
  handled-PaidIn :
      (refuses : ℕ → Bool) (settings : Option EpayConfig) (refused : Bool)
      (params : Assoc Text Text) (now : ℕ) (db db' : PaymentDb M)
      → handle_notify money md5 refuses settings refused params now db ≡ (db', none)
      → PaidIn (param (codes "out_trade_no") params) db'.orders
  unfolding handle_notify
  handled-PaidIn refuses settings refused params now db db' h =
      judged (judge money md5 settings refused params db) refl h
    where
      outcome : Verdict M → PaymentDb M × Option NotifyError
      outcome v = elim v [
        | rejected e ↦ (db, some e)
        | settled ↦ (db, none)
        | payable o ↦ committed money md5 db (pay refuses params now o db)
      ]

      judged :
          (v : Verdict M)
          → judge money md5 settings refused params db ≡ v
          → outcome v ≡ (db', none)
          → PaidIn (param (codes "out_trade_no") params) db'.orders
      judged (rejected e) same k = absurd (ground (arith, k))
      judged settled same k =
          subst (λ (z : PaymentDb M). PaidIn (param (codes "out_trade_no") params) z.orders)
            (ap (λ z. z.0) k) (judge-settled settings refused params db same)
      judged (payable o) same k =
          let (cfg, (loads, genuine)) = judge-payable money md5 settings refused params db o same in
          pay-PaidIn refuses params now (param (codes "out_trade_no") params) o db db' genuine.found
            (committed-some db db' (pay refuses params now o db) k)

  -- After a notification that was answered without an error, no notification for the same order
  -- changes anything, whatever else it says, whatever the settings are by then, and whatever the
  -- database refuses: the order is paid, and its subscription activated, once. The two are handled
  -- one after the other.
  pub paid_once :
      (refuses refuses' : ℕ → Bool) (settings settings' : Option EpayConfig)
      (refused refused' : Bool) (params params' : Assoc Text Text) (now now' : ℕ)
      (db db' : PaymentDb M)
      → handle_notify money md5 refuses settings refused params now db ≡ (db', none)
      → param (codes "out_trade_no") params' ≡ param (codes "out_trade_no") params
      → (handle_notify money md5 refuses' settings' refused' params' now' db').0 ≡ db'
  paid_once refuses refuses' settings settings' refused refused' params params' now now' db db' h
        same =
      PaidIn-unchanged refuses' settings' refused' params' now' db' (
        subst (λ number. PaidIn number db'.orders) (sym same)
          (handled-PaidIn refuses settings refused params now db db' h))
