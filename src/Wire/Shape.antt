-- ===== src/Wire/Shape.antt =====
-- The messages that the wire format carries, by the data that each type has.
use restuarant_ordering_csf.Base.{ℤ, IsPositive, ◌≢◌, [], Text, Lacks, some}
use restuarant_ordering_csf.Model.{ClientMode, ItemStatus, OrderStatus, Order}
use restuarant_ordering_csf.Message.{
  Message, MessageType, plain_message, str_message, login_message, order_message,
  order_status_message, item_status_message,
}
use restuarant_ordering_csf.Wire.Orders.Shape.{IsWireOrder}

-- The data of each type are valid, all other fields are empty; `P` is asked of the string.
pub data IsWireMessage (P : Text → Type 0) : Message → Type 0 where
  login :
      (mode : ClientMode) (str : Text)
      → mode ≢ ClientMode.invalid
      → P str
      → Lacks b'|' str
      → IsWireMessage P (login_message MessageType.login mode str)
  quit : (str : Text) → P str → Lacks b'|' str → IsWireMessage P (str_message MessageType.quit str)
  ok_reply :
      (str : Text) → P str → Lacks b'|' str → IsWireMessage P (str_message MessageType.ok_reply str)
  error_reply :
      (str : Text)
      → P str
      → Lacks b'|' str
      → IsWireMessage P (str_message MessageType.error_reply str)
  order_new :
      (order : Order)
      → IsWireOrder order
      → IsWireMessage P (order_message MessageType.order_new (some order))
  disp_order :
      (order : Order)
      → IsWireOrder order
      → IsWireMessage P (order_message MessageType.disp_order (some order))
  item_update :
      (order_id item_id : ℤ) (status : ItemStatus)
      → IsPositive order_id
      → IsPositive item_id
      → status ≢ ItemStatus.invalid
      → IsWireMessage P (item_status_message MessageType.item_update order_id item_id status)
  disp_item_update :
      (order_id item_id : ℤ) (status : ItemStatus)
      → IsPositive order_id
      → IsPositive item_id
      → status ≢ ItemStatus.invalid
      → IsWireMessage P (item_status_message MessageType.disp_item_update order_id item_id status)
  order_update :
      (order_id : ℤ) (status : OrderStatus)
      → IsPositive order_id
      → status ≢ OrderStatus.invalid
      → IsWireMessage P (order_status_message MessageType.order_update order_id status)
  disp_order_update :
      (order_id : ℤ) (status : OrderStatus)
      → IsPositive order_id
      → status ≢ OrderStatus.invalid
      → IsWireMessage P (order_status_message MessageType.disp_order_update order_id status)
  disp_heartbeat : IsWireMessage P (plain_message MessageType.disp_heartbeat)

-- What `encode` accepts, and `decode` gives back.
abbrev pub IsSendable : Message → Type 0
IsSendable = IsWireMessage (λ str. str ≢ [])

-- What `decode` returns: a string may be empty.
abbrev pub IsReceivable : Message → Type 0
IsReceivable = IsWireMessage (λ str. Unit)
