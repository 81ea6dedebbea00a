-- ===== src/Service/Payment/Notify.antt =====
-- A notification is believed only if it is genuine, and pays an order once.
use axmi_pusher.Base.Keys.{codes}
use axmi_pusher.Base.Assoc.{Assoc}
use axmi_pusher.Base.{
  ◌≢◌, ◌⊎◌, ℕ, inr, refl, inl, not, if◌then◌else◌, none, ◌∙◌, sym, ap, arith, text_eq, false, first,
  true, some, ◌≡◌, Option, ◌==◌, Bool, Text,
}
use axmi_pusher.Service.Payment.{
  codes, Assoc, Text, EpayConfig, MoneyApi, OrderStatus, order_pending, order_paid, order_closed,
  PaymentOrder, PaymentDb, load_config, param, verify_notify,
}
use axmi_pusher.Service.Payment.Orders.{
  not_configured, wrong_pid, wrong_sign, not_successful, judge, judge_signed, judge_order,
  judge_status, pay, handle_notify, committed, rejected, settled, payable, NotifyError, Verdict,
}

-- Three guards in a row give a verdict that is no rejection only if none of them stops it.
pub guards_pass :
    {M : Type 0} (a b c : Bool) (x y z : NotifyError) (v w : Verdict M)
    → ((e : NotifyError) → rejected e ≢ w)
    → (if not a
        then rejected x
        else (if not b then rejected y else (if not c then rejected z else v)))
      ≡ w
    → (a ≡ true) × ((b ≡ true) × ((c ≡ true) × (v ≡ w)))
guards_pass false b c x y z v w n h = absurd (n x h)
guards_pass true false c x y z v w n h = absurd (n y h)
guards_pass true true false x y z v w n h = absurd (n z h)
guards_pass true true true x y z v w n h = (refl, (refl, (refl, h)))

pub unless_refused :
    {A : Type 0} (refused : Bool) (f : Option A) (a : A)
    → (if refused then none else f) ≡ some a
    → f ≡ some a
unless_refused true f a h = cc
unless_refused false f a h = h

module _ {M : Type 0} (money : MoneyApi M) (md5 : Text → Text) where
  -- What must hold of a notification and its order before anything is written.
  pub record IsGenuine (cfg : EpayConfig) (params : Assoc Text Text) (db : PaymentDb M)
      (o : PaymentOrder M) : Type 0 where
    pub of_merchant : (param (codes "pid") params == cfg.pid) ≡ true
    pub is_signed : verify_notify md5 cfg params ≡ true
    pub succeeded : (param (codes "trade_status") params == codes "TRADE_SUCCESS") ≡ true
    pub found :
        first (λ r. r.out_trade_no == param (codes "out_trade_no") params) db.orders ≡ some o
    pub is_pending : o.status ≡ order_pending
    pub same_amount : money.differs o.amount (money.parse (param (codes "money") params)) ≡ false

  judge_status-payable :
      (params : Assoc Text Text) (r o : PaymentOrder M) (status : OrderStatus)
      → judge_status money md5 params r status ≡ payable o
      → (r ≡ o)
        × ((status ≡ order_pending)
            × (money.differs r.amount (money.parse (param (codes "money") params)) ≡ false))
  unfolding judge_status
  judge_status-payable params r o order_paid h = cc
  judge_status-payable params r o order_closed h = cc
  judge_status-payable params r o order_pending h = ground arith

  judge_order-payable :
      (params : Assoc Text Text) (found : Option (PaymentOrder M)) (o : PaymentOrder M)
      → judge_order money md5 params found ≡ payable o
      → (found ≡ some o)
        × ((o.status ≡ order_pending)
            × (money.differs o.amount (money.parse (param (codes "money") params)) ≡ false))
  unfolding judge_order
  judge_order-payable params none o h = cc
  judge_order-payable params (some r) o h =
      let (same, (waits, amount)) = judge_status-payable params r o r.status h in
      (
        ap some same,
        (
          ap (λ (x : PaymentOrder M). x.status) (sym same) ∙ waits,
          ap
                (λ (x : PaymentOrder M).
                  money.differs x.amount (money.parse (param (codes "money") params)))
                (sym same)
              ∙ amount,
        ),
      )

  judge_signed-payable :
      (cfg : EpayConfig) (refused : Bool) (params : Assoc Text Text) (db : PaymentDb M)
      (o : PaymentOrder M)
      → judge_signed money md5 cfg refused params db ≡ payable o
      → IsGenuine cfg params db o
  unfolding judge_signed
  judge_signed-payable cfg refused params db o h =
      let found =
        if refused
        then none
        else first (λ (r : PaymentOrder M). r.out_trade_no == param (codes "out_trade_no") params)
            db.orders in
      let (p, (v, (t, judged))) =
        guards_pass (param (codes "pid") params == cfg.pid) (verify_notify md5 cfg params)
          (param (codes "trade_status") params == codes "TRADE_SUCCESS") wrong_pid wrong_sign
          not_successful (judge_order money md5 params found) (payable o) (λ e k. cc) h in
      let (there, (waits, amount)) = judge_order-payable params found o judged in
      record {
        of_merchant = p;
        is_signed = v;
        succeeded = t;
        is_pending = waits;
        same_amount = amount;
        found =
            unless_refused refused
              (first (λ r. r.out_trade_no == param (codes "out_trade_no") params) db.orders) o
              there;
      }

  pub judge-payable :
      (settings : Option EpayConfig) (refused : Bool) (params : Assoc Text Text) (db : PaymentDb M)
      (o : PaymentOrder M)
      → judge money md5 settings refused params db ≡ payable o
      → (cfg : EpayConfig) × ((load_config settings ≡ some cfg) × IsGenuine cfg params db o)
  unfolding judge
  judge-payable settings refused params db o h = loaded (load_config settings) h
    where
      loaded :
          (c : Option EpayConfig)
          → ◌≡◌ {A = Verdict M}
              (elim c [
                | none ↦ rejected not_configured
                | some cfg ↦ judge_signed money md5 cfg refused params db
              ])
              (payable o)
          → (cfg : EpayConfig) × ((c ≡ some cfg) × IsGenuine cfg params db o)
      loaded none e = cc
      loaded (some cfg) e = (cfg, (refl, judge_signed-payable cfg refused params db o e))

  -- A notification that the merchant's key has not signed, that is for another merchant, or not of
  -- success, or of the wrong amount, or for an order that is not pending, changes nothing: if
  -- HandleNotify changes the tables at all, all of that is right, for the order of its number.
  pub notify_believed :
      (refuses : ℕ → Bool) (settings : Option EpayConfig) (refused : Bool)
      (params : Assoc Text Text) (now : ℕ) (db : PaymentDb M)
      → ((handle_notify money md5 refuses settings refused params now db).0 ≡ db)
        ⊎ ((cfg : EpayConfig) × ((load_config settings ≡ some cfg)
              × ((o : PaymentOrder M) × (IsGenuine cfg params db o
                    × ((handle_notify money md5 refuses settings refused params now db).0
                        ≡ (committed money md5 db (pay refuses params now o db)).0)))))
  unfolding handle_notify
  notify_believed refuses settings refused params now db =
      judged (judge money md5 settings refused params db) refl
    where
      outcome : Verdict M → PaymentDb M
      outcome v =
          (elim v as (λ (_ : Verdict M). PaymentDb M × Option NotifyError) [
            | rejected e ↦ (db, some e)
            | settled ↦ (db, none)
            | payable o ↦ committed money md5 db (pay refuses params now o db)
          ]).0

      judged :
          (v : Verdict M)
          → judge money md5 settings refused params db ≡ v
          → (outcome v ≡ db)
            ⊎ ((cfg : EpayConfig) × ((load_config settings ≡ some cfg)
                  × ((o : PaymentOrder M) × (IsGenuine cfg params db o
                        × (outcome v ≡ (committed money md5 db (pay refuses params now o db)).0)))))
      judged (rejected e) same = inl refl
      judged settled same = inl refl
      judged (payable o) same =
          let (cfg, (loads, genuine)) = judge-payable settings refused params db o same in
          inr (cfg, (loads, (o, (genuine, refl))))
