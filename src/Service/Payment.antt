-- ===== src/Service/Payment.antt =====
-- internal/service/payment.go: orders, the notification of a payment and the subscriptions. MD5 and
-- the arithmetic and text of float64 are parameters; a transaction that fails changes nothing.
pub mod Orders
pub mod Checkout
pub mod Placed
pub mod Notify
pub mod Paid
pub mod Subscriptions
pub mod Durations
pub mod Signature
use axmi_pusher.Base.Keys.{codes}
use axmi_pusher.Base.Assoc.{lookup, Assoc}
use axmi_pusher.Base.{
  nat_eq, ◌||◌, ◌==◌, text_eq, ltb, if◌then◌else◌, [], false, none, true, some, ◌++◌, ◌∷◌, Text,
  Bool, List, Option, ℕ,
}
use axmi_pusher.Models.{RowStatus}
use axmi_pusher.Base.Int.{ℤ, of_bits, to_bits}

pub record EpayConfig : Type 0 where
  pub gateway : Text
  pub pid : Text
  pub key : Text

-- What the code asks of an amount of money of type M: whether it is zero, strconv.ParseFloat with an
-- error read as zero, and whether two amounts differ by more than 0.001.
pub record MoneyApi (M : Type 0) : Type 0 where
  pub is_zero : M → Bool
  pub parse : Text → M
  pub differs : M → M → Bool

pub data OrderStatus : Type 0 where
  order_pending order_paid order_closed : OrderStatus

pub record PaymentOrder (M : Type 0) : Type 0 where
  pub id : ℕ
  pub tenant_id : ℕ
  pub plan_id : ℕ
  pub type : Text
  pub out_trade_no : Text
  pub epay_trade_no : Text
  pub amount : M
  pub status : OrderStatus
  pub expired_at : ℕ
  pub paid_at : Option ℕ
  pub notify_data : Text

pub record Plan (M : Type 0) : Type 0 where
  pub id : ℕ
  pub name : Text
  pub price : M
  pub duration_days : ℤ
  pub status : RowStatus
  pub sort_order : ℤ

-- A time is a count of nanoseconds since the year 1, so no duration leads before it.
pub record Subscription : Type 0 where
  pub tenant_id : ℕ
  pub plan_id : ℕ
  pub start_at : ℕ
  pub end_at : ℕ
  pub is_live : Bool

pub record User : Type 0 where
  pub id : ℕ
  pub plan_id : ℕ

-- The tables, each in the order of its keys.
pub record PaymentDb (M : Type 0) : Type 0 where
  pub orders : List (PaymentOrder M)
  pub plans : List (Plan M)
  pub subscriptions : List Subscription
  pub users : List User

-- LoadConfig, on the configuration that the settings hold.
unfoldable pub load_config : Option EpayConfig → Option EpayConfig
load_config none = none
load_config (some cfg) =
    if cfg.gateway == [] || cfg.pid == [] || cfg.key == [] then none else some cfg

-- sort.Strings orders texts by their code points.
unfoldable pub text_leb : Text → Text → Bool
text_leb [] t = true
text_leb (c ∷ s) [] = false
text_leb (c ∷ s) (d ∷ t) =
    let rest = text_leb s t in if ltb c d then true else (if c == d then rest else false)

unfoldable pub insert_text : Text → List Text → List Text
insert_text k [] = k ∷ []
insert_text k (j ∷ ks) =
    let rest = insert_text k ks in if text_leb k j then k ∷ j ∷ ks else j ∷ rest

unfoldable pub sort_texts : List Text → List Text
unfolding insert_text
sort_texts [] = []
sort_texts (k ∷ ks) = insert_text k (sort_texts ks)

-- params[k], which is empty for a key that is missing
unfoldable pub param : Text → Assoc Text Text → Text
param k params = elim (lookup k params) [ none ↦ [] | some v ↦ v ]

unfoldable pub signed_keys : Assoc Text Text → Assoc Text Text → List Text
signed_keys params [] = []
signed_keys params ((k, v) ∷ rest) =
    let keys = signed_keys params rest in
    if k == codes "sign" || param k params == [] then keys else k ∷ keys

unfoldable pub joined : Assoc Text Text → List Text → Text
joined params [] = []
joined params (k ∷ ks) = k ++ (b'=' ∷ (param k params ++ (b'&' ∷ joined params ks)))

-- SignParams; `md5` is the hexadecimal digest.
unfoldable pub sign_params : (Text → Text) → Assoc Text Text → Text → Text
unfolding signed_keys joined
sign_params md5 params key =
    md5 (joined params (sort_texts (signed_keys params params)) ++ (codes "key=" ++ key))

unfoldable pub verify_notify : (Text → Text) → EpayConfig → Assoc Text Text → Bool
verify_notify md5 cfg params =
    let sign = param (codes "sign") params in
    if sign == [] then false else sign_params md5 params cfg.key == sign

unfoldable pub all_keys : Assoc Text Text → List Text
all_keys [] = []
all_keys ((k, v) ∷ rest) = k ∷ all_keys rest

joined_pairs : Assoc Text Text → List Text → Text
joined_pairs params [] = []
joined_pairs params (k ∷ []) = k ++ (b'=' ∷ param k params)
joined_pairs params (k ∷ j ∷ ks) =
    k ++ (b'=' ∷ (param k params ++ (b'&' ∷ joined_pairs params (j ∷ ks))))

unfoldable pub format_params : Assoc Text Text → Text
unfolding all_keys joined_pairs
format_params params = joined_pairs params (sort_texts (all_keys params))
