-- ===== src/Model/Enums.antt =====
-- The enumerations of include/model.h, with their comparison by value.
use restuarant_ordering_csf.Base.{ℕ, ◌≡◌, true, ◌↔◌, arith, Eq, eqb}

pub data ClientMode : Type 0 where
  invalid updater display : ClientMode

pub data ItemStatus : Type 0 where
  invalid new in_progress done : ItemStatus

pub data OrderStatus : Type 0 where
  invalid new in_progress done delivered : OrderStatus

-- The value of an enumerator.
abbrev pub mode_value : ClientMode → ℕ
mode_value ClientMode.invalid = 0
mode_value ClientMode.updater = 1
mode_value ClientMode.display = 2

abbrev pub item_status_value : ItemStatus → ℕ
item_status_value ItemStatus.invalid = 0
item_status_value ItemStatus.new = 1
item_status_value ItemStatus.in_progress = 2
item_status_value ItemStatus.done = 3

abbrev pub order_status_value : OrderStatus → ℕ
order_status_value OrderStatus.invalid = 0
order_status_value OrderStatus.new = 1
order_status_value OrderStatus.in_progress = 2
order_status_value OrderStatus.done = 3
order_status_value OrderStatus.delivered = 4

pub mode_iff : (a b : ClientMode) → (eqb (mode_value a) (mode_value b) ≡ true) ↔ (a ≡ b)
mode_iff a b = ground arith

pub item_status_iff :
    (a b : ItemStatus) → (eqb (item_status_value a) (item_status_value b) ≡ true) ↔ (a ≡ b)
item_status_iff a b = ground arith

pub order_status_iff :
    (a b : OrderStatus) → (eqb (order_status_value a) (order_status_value b) ≡ true) ↔ (a ≡ b)
order_status_iff a b = ground arith

instance abbrev pub mode_eq : Eq ClientMode
mode_eq = record { beq = λ a b. eqb (mode_value a) (mode_value b); beq_iff = mode_iff }

instance abbrev pub item_status_eq : Eq ItemStatus
item_status_eq = record {
  beq = λ a b. eqb (item_status_value a) (item_status_value b);
  beq_iff = item_status_iff;
}

instance abbrev pub order_status_eq : Eq OrderStatus
order_status_eq = record {
  beq = λ a b. eqb (order_status_value a) (order_status_value b);
  beq_iff = order_status_iff;
}
