-- ===== src/Service/Payment/Subscriptions.antt =====
-- The subscription that a payment leaves, and what two payments at once do.
use mathlib.Core.Path.{subst}
use Prim.Native.Nat.{max}
use axmi_pusher.Base.Assoc.{Assoc}
use axmi_pusher.Base.{
  sym, update, ◌<◌, Text, ap, if◌then◌else◌, inr, inl, ◌||◌, nat_beq_iff, Bool-cases, none, ◌∙◌,
  refl, arith, nat_eq, true, [], ◌==◌, ◌∷◌, ◌++◌, some, select, false, first, ◌≡◌, Option, List, ℕ,
  Bool,
}
use axmi_pusher.Service.Payment.Notify.{unless_refused}
use axmi_pusher.Service.Payment.{Assoc, ℕ, Bool, PaymentOrder, Plan, Subscription, PaymentDb}
use axmi_pusher.Service.Payment.Orders.{
  activate, subscribe, subscribe_to, pay, mark_paid, is_live_of, start_of, expire_all, add_duration,
  plan_duration,
}

select-append :
    {A : Type 0} (p : A → Bool) (xs ys : List A) → select p (xs ++ ys) ≡ select p xs ++ select p ys
select-append p [] ys = refl
select-append p (x ∷ xs) ys = ground (arith, select-append p xs ys)

first-select :
    {A : Type 0} (p : A → Bool) (xs : List A) (a : A) → select p xs ≡ a ∷ [] → first p xs ≡ some a
first-select p [] a h = cc
first-select p (x ∷ xs) a h = grind (arith, first-select p xs a)

none_live :
    (tenant : ℕ) (subs : List Subscription)
    → select (is_live_of tenant) (expire_all false tenant subs) ≡ []
unfolding expire_all
none_live tenant [] = refl
none_live tenant (s ∷ subs) = ground (arith, none_live tenant subs)

-- When a subscription to a plan that is paid now begins, after the live one: at once, or behind it
-- if that is of the same plan and has not ended.
unfoldable pub begins : Option Subscription → ℕ → ℕ → ℕ
begins none plan now = now
begins (some old) plan now = if old.plan_id == plan then max now old.end_at else now

start_of_lem :
    (old : Option Subscription) (plan now : ℕ) → start_of old plan now ≡ begins old plan now
unfolding start_of begins
start_of_lem none plan now = refl
start_of_lem (some old) plan now = ground arith

-- The subscription that a payment of a plan at a time makes for a tenant.
unfoldable pub renewed : {M : Type 0} → ℕ → Plan M → ℕ → List Subscription → Subscription
renewed tenant p now subs =
    let start = begins (first (is_live_of tenant) subs) p.id now in
    record {
      tenant_id = tenant;
      plan_id = p.id;
      start_at = start;
      end_at = add_duration start (plan_duration p.duration_days);
      is_live = true;
    }

some_inj : {A : Type 0} {a b : A} → ◌≡◌ {A = Option A} (some a) (some b) → a ≡ b
some_inj {a} e = ap (λ o. elim o [ none ↦ a | some x ↦ x ]) e

begins-in_time :
    (old : Subscription) (plan now : ℕ)
    → old.plan_id ≡ plan
    → now < old.end_at
    → begins (some old) plan now ≡ old.end_at
unfolding begins
begins-in_time old plan now same later = ground (arith, nat_beq_iff old.plan_id plan)

-- The live subscription of the plan, if it has not run out, is prolonged.
prolonged :
    {M : Type 0} (tenant : ℕ) (p : Plan M) (now now' : ℕ) (subs subs' : List Subscription)
    → first (is_live_of tenant) subs' ≡ some (renewed tenant p now subs)
    → now' < (renewed tenant p now subs).end_at
    → renewed tenant p now' subs' ≡ (
        let once = renewed tenant p now subs in
        record once {
          start_at = once.end_at;
          end_at = add_duration once.end_at (plan_duration p.duration_days);
        })
unfolding renewed
prolonged tenant p now now' subs subs' live later =
    ap
      (λ start. record {
        tenant_id = tenant;
        plan_id = p.id;
        start_at = start;
        end_at = add_duration start (plan_duration p.duration_days);
        is_live = true;
      })
      (ap (λ old. begins old p.id now') live ∙ in_time)
  where
    in_time :
        begins (some (renewed tenant p now subs)) p.id now' ≡ (renewed tenant p now subs).end_at
    in_time = begins-in_time (renewed tenant p now subs) p.id now' refl later

module _ {M : Type 0} where
  SubscriptionsAre : List (Plan M) → List Subscription → Option (PaymentDb M) → Type 0
  SubscriptionsAre plans subs none = Unit
  SubscriptionsAre plans subs (some db) = (db.subscriptions ≡ subs) × (db.plans ≡ plans)

  subscribe-appends :
      (refuses : ℕ → Bool) (tenant : ℕ) (p : Plan M) (now : ℕ) (db : PaymentDb M)
      → refuses 1 ≡ false
      → refuses 2 ≡ false
      → SubscriptionsAre db.plans
          (expire_all false tenant db.subscriptions ++ (renewed tenant p now db.subscriptions ∷ []))
          (subscribe refuses tenant p now db)
  unfolding SubscriptionsAre subscribe renewed
  subscribe-appends refuses tenant p now db reads expires =
      elim (Bool-cases (refuses 3 || refuses 4)) [
        | inl refused ↦ rw (refused, subscribe, SubscriptionsAre) tt
        | inr taken ↦
            rw
              (
                taken,
                reads,
                expires,
                start_of_lem (first (is_live_of tenant) db.subscriptions) p.id now,
                subscribe,
                SubscriptionsAre,
              )
              (refl, refl)
      ]

  live_alone :
      (tenant : ℕ) (p : Plan M) (now : ℕ) (subs : List Subscription)
      → select
          (is_live_of tenant)
          (expire_all false tenant subs ++ (renewed tenant p now subs ∷ []))
        ≡ renewed tenant p now subs ∷ []
  unfolding renewed
  live_alone tenant p now subs =
      select-append (is_live_of tenant) (expire_all false tenant subs)
        (renewed tenant p now subs ∷ [])
      ∙ rw (none_live tenant subs) (ground (arith, nat_beq_iff tenant tenant))

  activate-plan :
      (refuses : ℕ → Bool) (tenant plan now : ℕ) (db db' : PaymentDb M)
      → refuses 1 ≡ false
      → refuses 2 ≡ false
      → activate refuses tenant plan now db ≡ some db'
      → (p : Plan M) × ((first (λ q. q.id == plan) db.plans ≡ some p)
          × SubscriptionsAre db.plans
              (expire_all false tenant db.subscriptions
                ++ (renewed tenant p now db.subscriptions ∷ []))
              (some db'))
  unfolding activate subscribe_to
  activate-plan refuses tenant plan now db db' reads expires h =
      subscribed (if refuses 0 then none else first (λ q. q.id == plan) db.plans) refl h
    where
      subscribed :
          (q : Option (Plan M))
          → (if refuses 0 then none else first (λ q. q.id == plan) db.plans) ≡ q
          → subscribe_to refuses tenant q now db ≡ some db'
          → (p : Plan M) × ((first (λ q. q.id == plan) db.plans ≡ some p)
              × SubscriptionsAre db.plans
                  (expire_all false tenant db.subscriptions
                    ++ (renewed tenant p now db.subscriptions ∷ []))
                  (some db'))
      subscribed none there k = cc
      subscribed (some p) there k = (
        p,
        (
          unless_refused (refuses 0) (first (λ q. q.id == plan) db.plans) p there,
          subst
              (SubscriptionsAre db.plans (
                expire_all false tenant db.subscriptions
                ++ (renewed tenant p now db.subscriptions ∷ [])))
              k (subscribe-appends refuses tenant p now db reads expires),
        ),
      )

  -- An activation that the database takes leaves the tenant one live subscription: of the plan asked
  -- for, beginning where the live one of the same plan ends if that is still to come, else now, and
  -- ending a duration of the plan later. The reading of the old and its expiry must not be refused.
  pub activate-renews :
      (refuses : ℕ → Bool) (tenant plan now : ℕ) (db db' : PaymentDb M)
      → refuses 1 ≡ false
      → refuses 2 ≡ false
      → activate refuses tenant plan now db ≡ some db'
      → (p : Plan M) × ((first (λ q. q.id == plan) db.plans ≡ some p)
          × (select (is_live_of tenant) db'.subscriptions
              ≡ renewed tenant p now db.subscriptions ∷ []))
  unfolding SubscriptionsAre
  activate-renews refuses tenant plan now db db' reads expires h =
      let (p, (there, (subs, plans))) =
        activate-plan refuses tenant plan now db db' reads expires h in
      (p, (there, ap (select (is_live_of tenant)) subs ∙ live_alone tenant p now db.subscriptions))

  -- pay, where the database takes it, is an activation of the tables with the order marked.
  pay-activates :
      (refuses : ℕ → Bool) (params : Assoc Text Text) (now : ℕ) (o : PaymentOrder M)
      (db db' : PaymentDb M)
      → pay refuses params now o db ≡ some db'
      → activate refuses o.tenant_id o.plan_id now
          (record db { orders = update (λ r. r.id == o.id) (mark_paid params now) db.orders })
        ≡ some db'
  unfolding pay
  pay-activates refuses params now o db db' h = elim (Bool-cases (refuses 5 || refuses 6)) [
    | inl refused ↦ absurd (ground (arith, refused, h))
    | inr taken ↦ (rw (taken, pay) refl) ∙ h
  ]

  -- Two notifications of one order that are checked before either is written both pay it: the second
  -- transaction, for which the order is as it was read, prolongs the subscription of the first by
  -- another duration of the plan, if that has not run out by then. Neither transaction is refused
  -- a statement on the subscriptions.
  pub paid_twice_when_concurrent :
      (refuses refuses' : ℕ → Bool) (params params' : Assoc Text Text) (now now' : ℕ)
      (o : PaymentOrder M) (p : Plan M) (db db1 db2 : PaymentDb M)
      → (refuses 1 ≡ false) × (refuses 2 ≡ false)
      → (refuses' 1 ≡ false) × (refuses' 2 ≡ false)
      → pay refuses params now o db ≡ some db1
      → pay refuses' params' now' o db1 ≡ some db2
      → first (λ q. q.id == o.plan_id) db.plans ≡ some p
      → now' < (renewed o.tenant_id p now db.subscriptions).end_at
      → select (is_live_of o.tenant_id) db2.subscriptions ≡ (
          let once = renewed o.tenant_id p now db.subscriptions in
          record once {
            start_at = once.end_at;
            end_at = add_duration once.end_at (plan_duration p.duration_days);
          }
          ∷ [])
  unfolding SubscriptionsAre renewed begins
  paid_twice_when_concurrent refuses refuses' params params' now now' o p db db1 db2 good good' h h'
        planned later =
      let (p1, (there, (subs, plans))) =
        activate-plan refuses o.tenant_id o.plan_id now _ db1 good.0 good.1
          (pay-activates refuses params now o db db1 h) in
      let (p2, (there', (subs', plans'))) =
        activate-plan refuses' o.tenant_id o.plan_id now' _ db2 good'.0 good'.1
          (pay-activates refuses' params' now' o db1 db2 h') in
      let same1 : p1 ≡ p = some_inj (sym there ∙ planned) in
      let same2 : p2 ≡ p =
        some_inj (sym there' ∙ ap (first (λ q. q.id == o.plan_id)) plans ∙ planned) in
      let live : first (is_live_of o.tenant_id) db1.subscriptions
          ≡ some (renewed o.tenant_id p now db.subscriptions) =
        first-select (is_live_of o.tenant_id) db1.subscriptions _ (
          ap (select (is_live_of o.tenant_id)) subs
          ∙ live_alone o.tenant_id p1 now db.subscriptions
          ∙ ap (λ q. renewed o.tenant_id q now db.subscriptions ∷ []) same1) in
      ap (select (is_live_of o.tenant_id)) subs'
      ∙ live_alone o.tenant_id p2 now' db1.subscriptions
      ∙ ap (λ q. renewed o.tenant_id q now' db1.subscriptions ∷ []) same2
      ∙ ap (λ s. s ∷ [])
          (prolonged o.tenant_id p now now' db.subscriptions db1.subscriptions live later)
