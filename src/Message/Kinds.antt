-- ===== src/Message/Kinds.antt =====
-- `MessageType` of include/message.h.
use restuarant_ordering_csf.Base.{ℕ, ◌≡◌, true, ◌↔◌, arith, Eq, eqb}

pub data MessageType : Type 0 where
  invalid login quit order_new item_update order_update ok_reply error_reply disp_order
        disp_item_update disp_order_update disp_heartbeat :
      MessageType

-- The value of an enumerator.
abbrev pub message_type_value : MessageType → ℕ
message_type_value MessageType.invalid = 0
message_type_value MessageType.login = 1
message_type_value MessageType.quit = 2
message_type_value MessageType.order_new = 3
message_type_value MessageType.item_update = 4
message_type_value MessageType.order_update = 5
message_type_value MessageType.ok_reply = 6
message_type_value MessageType.error_reply = 7
message_type_value MessageType.disp_order = 8
message_type_value MessageType.disp_item_update = 9
message_type_value MessageType.disp_order_update = 10
message_type_value MessageType.disp_heartbeat = 11

pub message_type_iff :
    (a b : MessageType) → (eqb (message_type_value a) (message_type_value b) ≡ true) ↔ (a ≡ b)
message_type_iff a b = ground arith

instance abbrev pub message_type_eq : Eq MessageType
message_type_eq = record {
  beq = λ a b. eqb (message_type_value a) (message_type_value b);
  beq_iff = message_type_iff;
}
