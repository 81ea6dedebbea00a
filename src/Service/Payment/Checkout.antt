-- ===== src/Service/Payment/Checkout.antt =====
-- internal/service/payment.go: CreateOrder with its URL, and the queries. strconv.FormatFloat and
-- url.QueryEscape are parameters, and so is the number that genOutTradeNo draws.
use axmi_pusher.Base.Keys.{codes}
use axmi_pusher.Base.Assoc.{insert, Assoc}
use axmi_pusher.Base.{
  count, not, text_eq, ◌||◌, nat_eq, first, ◌+◌, ◌&&◌, some, ◌==◌, ◌++◌, none, [], if◌then◌else◌,
  ◌∷◌, Option, List, Bool, Text, ℕ, ◌⊎◌, inl, inr,
}
use axmi_pusher.Models.{is_active}
use axmi_pusher.Service.Payment.{
  codes, Assoc, EpayConfig, MoneyApi, order_pending, order_paid, PaymentOrder, Plan, Subscription,
  PaymentDb, load_config, param, sign_params, sort_texts, all_keys,
}
use axmi_pusher.Service.Payment.Orders.{activate, is_live_of}

-- strings.TrimRight(s, "/")
unfoldable pub trim_slashes : Text → Text
trim_slashes [] = []
trim_slashes (c ∷ s) = let rest = trim_slashes s in if c == b'/' && rest == [] then [] else c ∷ rest

unfoldable pub escaped_pairs : (Text → Text) → Assoc Text Text → List Text → Text
escaped_pairs escape params [] = []
escaped_pairs escape params (k ∷ []) = k ++ (b'=' ∷ escape (param k params))
escaped_pairs escape params (k ∷ j ∷ ks) =
    k ++ (b'=' ∷ (escape (param k params) ++ (b'&' ∷ escaped_pairs escape params (j ∷ ks))))

pub record CheckoutApi (M : Type 0) : Type 0 where
  pub money : MoneyApi M
  pub format : M → Text
  pub escape : Text → Text
  pub md5 : Text → Text
  pub base_url : Text

pub data OrderError : Type 0 where
  plan_invalid order_not_configured order_refused : OrderError

module _ {M : Type 0} (api : CheckoutApi M) where
  unfoldable pub pay_params : EpayConfig → PaymentOrder M → Plan M → Assoc Text Text
  pay_params cfg o plan =
      let base = trim_slashes api.base_url in
      (codes "pid", cfg.pid)
      ∷ (codes "type", o.type)
      ∷ (codes "out_trade_no", o.out_trade_no)
      ∷ (codes "notify_url", base ++ codes "/api/v1/pay/notify")
      ∷ (codes "return_url", base ++ (codes "/api/v1/pay/return?out_trade_no=" ++ o.out_trade_no))
      ∷ (codes "name", plan.name)
      ∷ (codes "money", api.format o.amount)
      ∷ []

  -- BuildPayURL
  unfoldable pub build_pay_url : EpayConfig → PaymentOrder M → Plan M → Text
  build_pay_url cfg o plan =
      let params = pay_params cfg o plan in
      let signed = insert (codes "sign") (sign_params api.md5 params cfg.key) params in
      trim_slashes cfg.gateway
      ++ (codes "/submit.php?" ++ escaped_pairs api.escape signed (sort_texts (all_keys signed)))

  -- A free plan is activated at once, in a transaction.
  unfoldable pub take_free :
      (ℕ → Bool)
      → ℕ
      → Plan M
      → ℕ
      → PaymentDb M
      → PaymentDb M × (OrderError ⊎ (PaymentOrder M × Text))
  take_free refuses tenant plan now db =
      let o : PaymentOrder M = record {
        id = 0;
        tenant_id = 0;
        plan_id = plan.id;
        type = codes "free";
        out_trade_no = [];
        epay_trade_no = [];
        amount = plan.price;
        status = order_paid;
        expired_at = 0;
        paid_at = none;
        notify_data = [];
      } in
      elim (if refuses 6 then none else activate (λ k. refuses (k + 1)) tenant plan.id now db) [
        | none ↦ (db, inl order_refused)
        | some db' ↦ (db', inr (o, []))
      ]

  -- The order of a plan that has a price; the number must be new, and its key comes from the database.
  unfoldable pub place_order :
      (ℕ → Bool)
      → ℕ
      → Text
      → ℕ
      → Plan M
      → Text
      → ℕ
      → EpayConfig
      → PaymentDb M
      → PaymentDb M × (OrderError ⊎ (PaymentOrder M × Text))
  place_order refuses id number tenant plan pay_type now cfg db =
      let o : PaymentOrder M = record {
        id = id;
        tenant_id = tenant;
        plan_id = plan.id;
        type = if pay_type == [] then codes "alipay" else pay_type;
        out_trade_no = number;
        epay_trade_no = [];
        amount = plan.price;
        status = order_pending;
        expired_at = now + 1800000000000;
        paid_at = none;
        notify_data = [];
      } in
      if refuses 1 || not (count (λ r. r.out_trade_no == number) db.orders == 0)
      then (db, inl order_refused)
      else (record db { orders = db.orders ++ (o ∷ []) }, inr (o, build_pay_url cfg o plan))

  unfoldable pub order_plan :
      (ℕ → Bool)
      → Option EpayConfig
      → ℕ
      → Text
      → ℕ
      → Option (Plan M)
      → Text
      → ℕ
      → PaymentDb M
      → PaymentDb M × (OrderError ⊎ (PaymentOrder M × Text))
  order_plan refuses settings id number tenant none pay_type now db = (db, inl plan_invalid)
  order_plan refuses settings id number tenant (some plan) pay_type now db =
      if api.money.is_zero plan.price
      then take_free refuses tenant plan now db
      else (elim (load_config settings) [
        | none ↦ (db, inl order_not_configured)
        | some cfg ↦ place_order refuses id number tenant plan pay_type now cfg db
      ])

  -- CreateOrder
  unfoldable pub create_order :
      (ℕ → Bool)
      → Option EpayConfig
      → ℕ
      → Text
      → ℕ
      → ℕ
      → Text
      → ℕ
      → PaymentDb M
      → PaymentDb M × (OrderError ⊎ (PaymentOrder M × Text))
  unfolding order_plan
  create_order refuses settings id number tenant plan pay_type now db =
      order_plan refuses settings id number tenant
        (if refuses 0 then none else first (λ p. p.id == plan && is_active p.status) db.plans)
        pay_type now db

module _ {M : Type 0} where
  unfoldable pub query_order : Bool → ℕ → ℕ → PaymentDb M → Option (PaymentOrder M)
  query_order refused tenant id db =
      if refused then none else first (λ o. o.id == id && o.tenant_id == tenant) db.orders

  -- CurrentSubscription: an error, or the live subscription with its plan, if there is one.
  unfoldable pub current_subscription :
      Bool → Bool → ℕ → PaymentDb M → Option (Option (Subscription × Plan M))
  current_subscription refused refused' tenant db =
      if refused then none else (elim (first (is_live_of tenant) db.subscriptions) [
        | none ↦ some none
        | some s ↦ elim (if refused' then none else first (λ p. p.id == s.plan_id) db.plans) [
          | none ↦ none
          | some p ↦ some (some (s, p))
        ]
      ])
