-- ===== src/Q/Model.antt =====
-- q/src/model.rs: the lifecycle status, and the rows as the program reads them.
-- A Uuid is its 128-bit value; its text form is the uuid crate's, a parameter.
use benchmark_rust_llms.Prelude.{
  ℕ, String, List, Option, none, some, ◌≡◌, sym, ap, ◌∙◌, refl, ℤ, str_eq, if◌then◌else◌, arith,
  eq_iff,
}

pub data DeliveryStatus : Type 0 where
  pending in_flight delivered dead_letter : DeliveryStatus

unfoldable pub as_str : DeliveryStatus → String
as_str pending = "pending"
as_str in_flight = "in_flight"
as_str delivered = "delivered"
as_str dead_letter = "dead_letter"

unfoldable pub parse : String → Option DeliveryStatus
parse s =
    if str_eq s "pending"
    then some pending
    else if str_eq s "in_flight"
    then some in_flight
    else if str_eq s "delivered"
    then some delivered
    else if str_eq s "dead_letter"
    then some dead_letter
    else none

abbrev pub Uuid : Type 0
Uuid = ℕ

-- `Uuid::to_string` and `Uuid::parse_str`; printing and parsing gives the id back.
pub record UuidText : Type 0 where
  pub to_string : Uuid → String
  pub parse_str : String → Option Uuid
  pub parse_str-to_string : (u : Uuid) → parse_str (to_string u) ≡ some u

pub record Delivery : Type 0 where
  pub id : Uuid
  pub idempotency_key : Option String
  pub destination : String
  pub payload : List ℕ
  pub status : DeliveryStatus
  pub attempts : ℕ
  pub max_attempts : ℕ
  pub next_retry_at : ℤ
  pub last_error : Option String
  pub created_at : ℤ
  pub updated_at : ℤ

pub record NewDelivery : Type 0 where
  pub id : Uuid
  pub idempotency_key : Option String
  pub destination : String
  pub payload : List ℕ
  pub max_attempts : ℕ

pub record DlqEntry : Type 0 where
  pub id : Uuid
  pub delivery_id : String
  pub destination : String
  pub payload : List ℕ
  pub attempts : ℕ
  pub last_error : Option String
  pub dead_lettered_at : ℤ

pub record Stats : Type 0 where
  pub submitted : ℕ
  pub delivered : ℕ
  pub dead_lettered : ℕ
  pub pending : ℕ
  pub in_flight : ℕ
  pub dead_letters : ℕ

pub parse-as_str : (s : DeliveryStatus) → parse (as_str s) ≡ some s
unfolding parse as_str
parse-as_str pending = refl
parse-as_str in_flight = refl
parse-as_str delivered = refl
parse-as_str dead_letter = refl

pub as_str-parse : (t : String) (s : DeliveryStatus) → parse t ≡ some s → as_str s ≡ t
unfolding parse as_str
as_str-parse t s h =
    ground (
      arith,
      eq_iff t "pending",
      eq_iff t "in_flight",
      eq_iff t "delivered",
      eq_iff t "dead_letter",
    )

pub as_str-injective : (s t : DeliveryStatus) → as_str s ≡ as_str t → s ≡ t
as_str-injective s t h =
    let e : some s ≡ some t = sym (parse-as_str s) ∙ ap parse h ∙ parse-as_str t in cc
