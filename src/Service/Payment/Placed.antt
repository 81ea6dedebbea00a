-- ===== src/Service/Payment/Placed.antt =====
-- An order that was created can be paid.
use axmi_pusher.Base.Keys.{codes}
use axmi_pusher.Base.Assoc.{Assoc}
use mathlib.Core.Path.{subst}
use axmi_pusher.Base.{
  ◌∙◌, ap, false, ◌&&◌, refl, [], ◌∷◌, ◌++◌, arith, ◌+◌, not, true, none, ◌==◌, if◌then◌else◌,
  first, ◌||◌, count, some, Option, Option-cases, ◌≡◌, List, Bool-cases, Text, ℕ, Bool, ◌⊎◌, inl,
  inr, nat_eq, text_eq,
}
use axmi_pusher.Service.Payment.{
  verify_notify, codes, param, Assoc, EpayConfig, order_pending, PaymentOrder, Plan, PaymentDb,
  load_config,
}
use axmi_pusher.Models.{is_active}
use axmi_pusher.Service.Payment.Orders.{
  payable, judge_status, judge_order, judge_signed, judge, activate,
}
use axmi_pusher.Service.Payment.Checkout.{
  create_order, CheckoutApi, OrderError, take_free, place_order, order_plan,
}

first-append_new :
    {A : Type 0} (p : A → Bool) (a : A) (xs : List A)
    → count p xs ≡ 0
    → p a ≡ true
    → first p (xs ++ (a ∷ [])) ≡ some a
first-append_new p a [] h hit = rw hit refl
first-append_new p a (x ∷ xs) h hit = ground (arith, first-append_new p a xs)

module _ {M : Type 0} where
  -- The order of an answer, if it is still to be paid, is the one that its number finds.
  OrderKnown : PaymentDb M → OrderError ⊎ (PaymentOrder M × Text) → Type 0
  OrderKnown db (inl e) = Unit
  OrderKnown db (inr (o, url)) =
      o.status ≡ order_pending → first (λ r. r.out_trade_no == o.out_trade_no) db.orders ≡ some o

module _ {M : Type 0} (api : CheckoutApi M) where
  place_order-OrderKnown :
      (refuses : ℕ → Bool) (id : ℕ) (number : Text) (tenant : ℕ) (plan : Plan M) (pay_type : Text)
      (now : ℕ) (cfg : EpayConfig) (db : PaymentDb M)
      → OrderKnown
          (place_order api refuses id number tenant plan pay_type now cfg db).0
          (place_order api refuses id number tenant plan pay_type now cfg db).1
  unfolding place_order OrderKnown
  place_order-OrderKnown refuses id number tenant plan pay_type now cfg db =
      elim (Bool-cases (refuses 1 || not (count (λ r. r.out_trade_no == number) db.orders == 0))) [
        | inl refused ↦ rw refused tt
        | inr taken ↦ rw taken (λ waits.
            first-append_new (λ (r : PaymentOrder M). r.out_trade_no == number) _ db.orders
              (ground arith) ((text_eq.beq_iff number number).1 refl))
      ]

  take_free-OrderKnown :
      (refuses : ℕ → Bool) (tenant : ℕ) (plan : Plan M) (now : ℕ) (db : PaymentDb M)
      → OrderKnown
          (take_free api refuses tenant plan now db).0
          (take_free api refuses tenant plan now db).1
  unfolding take_free OrderKnown
  take_free-OrderKnown refuses tenant plan now db =
      elim (Option-cases
        (if refuses 6 then none else activate (λ k. refuses (k + 1)) tenant plan.id now db)) [
          | inl failed ↦ rw (failed, take_free) tt
          | inr (db', taken) ↦ rw (taken, take_free) (λ waits. cc)
        ]

  order_plan-OrderKnown :
      (refuses : ℕ → Bool) (settings : Option EpayConfig) (id : ℕ) (number : Text) (tenant : ℕ)
      (plan : Option (Plan M)) (pay_type : Text) (now : ℕ) (db : PaymentDb M)
      → OrderKnown
          (order_plan api refuses settings id number tenant plan pay_type now db).0
          (order_plan api refuses settings id number tenant plan pay_type now db).1
  unfolding order_plan OrderKnown
  order_plan-OrderKnown refuses settings id number tenant none pay_type now db = tt
  order_plan-OrderKnown refuses settings id number tenant (some plan) pay_type now db =
      elim (Bool-cases (api.money.is_zero plan.price)) [
        | inl free ↦ rw free (take_free-OrderKnown refuses tenant plan now db)
        | inr priced ↦ rw priced (elim (Option-cases (load_config settings)) [
          | inl missing ↦ rw missing tt
          | inr (cfg, loads) ↦
              rw loads (place_order-OrderKnown refuses id number tenant plan pay_type now cfg db)
        ])
      ]

  created-OrderKnown :
      (refuses : ℕ → Bool) (settings : Option EpayConfig) (id : ℕ) (number : Text) (tenant plan : ℕ)
      (pay_type : Text) (now : ℕ) (db db' : PaymentDb M) (o : PaymentOrder M) (url : Text)
      → create_order api refuses settings id number tenant plan pay_type now db
        ≡ (db', inr (o, url))
      → OrderKnown db' (inr (o, url))
  unfolding create_order
  created-OrderKnown refuses settings id number tenant plan pay_type now db db' o url h =
      subst (λ (z : PaymentDb M × (OrderError ⊎ (PaymentOrder M × Text))). OrderKnown z.0 z.1) h
        (order_plan-OrderKnown refuses settings id number tenant
          (if refuses 0 then none else first (λ p. p.id == plan && is_active p.status) db.plans)
          pay_type now db)

  -- An order that CreateOrder has made and that is to be paid passes the checks of HandleNotify
  -- for a notification of its number that is signed, of the merchant, of success and of the right
  -- amount: where the read of the order is not refused, they find it and let it through.
  pub created_order_is_payable :
      (refuses : ℕ → Bool) (settings : Option EpayConfig) (id : ℕ) (number : Text) (tenant plan : ℕ)
      (pay_type : Text) (now : ℕ) (db db' : PaymentDb M) (o : PaymentOrder M) (url : Text)
      (cfg : EpayConfig) (params : Assoc Text Text)
      → create_order api refuses settings id number tenant plan pay_type now db
        ≡ (db', inr (o, url))
      → o.status ≡ order_pending
      → load_config settings ≡ some cfg
      → (param (codes "pid") params == cfg.pid) ≡ true
      → verify_notify api.md5 cfg params ≡ true
      → (param (codes "trade_status") params == codes "TRADE_SUCCESS") ≡ true
      → param (codes "out_trade_no") params ≡ o.out_trade_no
      → api.money.differs o.amount (api.money.parse (param (codes "money") params)) ≡ false
      → judge api.money api.md5 settings false params db' ≡ payable o
  unfolding judge judge_signed judge_order judge_status OrderKnown
  created_order_is_payable refuses settings id number tenant plan pay_type now db db' o url cfg
        params h waits loads merchant signed paid numbered amount =
      let found : first
            (λ (r : PaymentOrder M). r.out_trade_no == param (codes "out_trade_no") params)
            db'.orders
          ≡ some o =
        ap (λ n. first (λ (r : PaymentOrder M). r.out_trade_no == n) db'.orders) numbered
        ∙ created-OrderKnown refuses settings id number tenant plan pay_type now db db' o url h
            waits in
      rw (loads, judge, merchant, signed, paid, found)
        (ap (judge_status api.money api.md5 params o) waits ∙ rw amount refl)
