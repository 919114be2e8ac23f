-- ===== src/Wire/RoundTrip.antt =====
-- A message is decoded from its encoding.
use mathlib.Core.List.{cons-ne-nil}
use restuarant_ordering_csf.Base.{
  ℤ, pos, negsuc, leb_ℤ, IsPositive, true, ◌≡◌, ◌≢◌, refl, ◌∙◌, List, [], ◌∷◌, arith, Text, All,
  Lacks, some, ◌!=◌,
}
use restuarant_ordering_csf.Except.{ok, ◌>>=◌}
use restuarant_ordering_csf.Util.Parts.{join}
use restuarant_ordering_csf.Util.Split.{split-join}
use restuarant_ordering_csf.Numbers.{to_string}
use restuarant_ordering_csf.Model.{
  ClientMode, ItemStatus, OrderStatus, mode_eq, item_status_eq, order_status_eq, Order,
}
use restuarant_ordering_csf.Message.{
  Message, MessageType, has_str, str_message, item_status_message, order_status_message,
  order_message,
}
use restuarant_ordering_csf.Wire.Names.{
  client_mode_to_str, item_status_to_str, order_status_to_str, message_type_to_str,
}
use restuarant_ordering_csf.Wire.Names.Inverse.{str_to_message_type-to_str}
use restuarant_ordering_csf.Wire.Fields.Clean.{
  IsClean-Lacks-bar, to_string-IsClean, client_mode_to_str-IsClean, item_status_to_str-IsClean,
  order_status_to_str-IsClean,
}
use restuarant_ordering_csf.Wire.Fields.Sound.{
  parse_positive_int-to_string, read_client_mode-to_str, read_item_status-to_str,
  read_order_status-to_str,
}
use restuarant_ordering_csf.Wire.Orders.Shape.{
  IsWireOrder, order_fields, encode_order-join, order_text-Lacks-bar,
}
use restuarant_ordering_csf.Wire.Orders.RoundTrip.{decode_order-join}
use restuarant_ordering_csf.Wire.Shape.{
  IsSendable, login, quit, ok_reply, error_reply, order_new, disp_order, item_update,
  disp_item_update, order_update, disp_order_update, disp_heartbeat,
}
use restuarant_ordering_csf.Wire.{
  encode, decode, decode_fields, decode_kind, decode_item_update, decode_order_update,
  decode_order_payload,
}

type_name-Lacks-bar : (kind : MessageType) → Lacks b'|' (message_type_to_str kind)
unfolding message_type_to_str
type_name-Lacks-bar MessageType.invalid = omega arith
type_name-Lacks-bar _ = omega arith

-- A name and fields without bars reach the branch of the type that the name names.
decode-join :
    (kind : MessageType) (fields : List Text)
    → All (Lacks b'|') fields
    → decode (join b'|' (message_type_to_str kind ∷ fields))
      ≡ decode_kind kind (message_type_to_str kind ∷ fields)
unfolding decode decode_fields
decode-join kind fields h = rw (
  split-join b'|' (message_type_to_str kind ∷ fields) (cons-ne-nil _ _)
      (type_name-Lacks-bar kind, h),
  str_to_message_type-to_str kind,
)

str_present : (str : Text) (kind : MessageType) → str ≢ [] → has_str (str_message kind str) ≡ true
str_present [] kind h = absurd (h refl)
str_present (c ∷ str) kind h = refl

positive_present : (n : ℤ) → IsPositive n → leb_ℤ (pos 0) n ≡ true
positive_present (pos n) h = ground arith
positive_present (negsuc n) h = absurd h

mode_present : (mode : ClientMode) → mode ≢ ClientMode.invalid → (mode != ClientMode.invalid) ≡ true
mode_present mode h = ground arith

item_status_present :
    (status : ItemStatus) → status ≢ ItemStatus.invalid → (status != ItemStatus.invalid) ≡ true
item_status_present status h = ground arith

order_status_present :
    (status : OrderStatus) → status ≢ OrderStatus.invalid → (status != OrderStatus.invalid) ≡ true
order_status_present status h = ground arith

abbrev item_update_fields : ℤ → ℤ → ItemStatus → List Text
item_update_fields order_id item_id status =
    to_string order_id ∷ to_string item_id ∷ item_status_to_str status ∷ []

abbrev order_update_fields : ℤ → OrderStatus → List Text
order_update_fields order_id status = to_string order_id ∷ order_status_to_str status ∷ []

-- The four types whose data are ids and a status, and the two that carry an order.
module _ (order_id : ℤ) (big : IsPositive order_id) where
  fields_of_item_update :
      (item_id : ℤ) (status : ItemStatus)
      → IsPositive item_id
      → All (Lacks b'|') (item_update_fields order_id item_id status)
  fields_of_item_update item_id status item_big = (
    IsClean-Lacks-bar _ (to_string-IsClean order_id big),
    (
      IsClean-Lacks-bar _ (to_string-IsClean item_id item_big),
      (IsClean-Lacks-bar _ (item_status_to_str-IsClean status), tt),
    ),
  )

  fields_of_order_update :
      (status : OrderStatus) → All (Lacks b'|') (order_update_fields order_id status)
  fields_of_order_update status = (
    IsClean-Lacks-bar _ (to_string-IsClean order_id big),
    (IsClean-Lacks-bar _ (order_status_to_str-IsClean status), tt),
  )

  read_item_update :
      (kind : MessageType) (item_id : ℤ) (status : ItemStatus)
      → IsPositive item_id
      → status ≢ ItemStatus.invalid
      → decode_item_update kind
          (message_type_to_str kind ∷ item_update_fields order_id item_id status)
        ≡ ok (item_status_message kind order_id item_id status)
  unfolding decode_item_update
  read_item_update kind item_id status item_big valid = rw (
    parse_positive_int-to_string order_id "order id" big,
    parse_positive_int-to_string item_id "item id" item_big,
    read_item_status-to_str status valid,
  )

  read_order_update :
      (kind : MessageType) (status : OrderStatus)
      → status ≢ OrderStatus.invalid
      → decode_order_update kind (message_type_to_str kind ∷ order_update_fields order_id status)
        ≡ ok (order_status_message kind order_id status)
  unfolding decode_order_update
  read_order_update kind status valid =
      rw (
        parse_positive_int-to_string order_id "order id" big,
        read_order_status-to_str status valid,
      )

read_order :
    (kind : MessageType) (order : Order)
    → IsWireOrder order
    → decode_order_payload kind (message_type_to_str kind ∷ join b',' (order_fields order) ∷ [])
      ≡ ok (order_message kind (some order))
unfolding decode_order_payload
read_order kind order h = rw (decode_order-join order h)

-- Every message whose data are valid is encoded, and decoded to itself, field by field.
pub decode-encode : (msg : Message) → IsSendable msg → (encode msg >>= decode) ≡ ok msg
unfolding encode decode_kind join message_type_to_str
decode-encode _ (login mode str valid ne bar) =
    rw (mode_present mode valid, str_present str MessageType.login ne)
      (decode-join MessageType.login (client_mode_to_str mode ∷ str ∷ [])
          (IsClean-Lacks-bar _ (client_mode_to_str-IsClean mode), (bar, tt))
        ∙ rw (read_client_mode-to_str mode valid))
decode-encode _ (quit str ne bar) =
    rw (str_present str MessageType.quit ne) (decode-join MessageType.quit (str ∷ []) (bar, tt))
decode-encode _ (ok_reply str ne bar) =
    rw (str_present str MessageType.ok_reply ne)
      (decode-join MessageType.ok_reply (str ∷ []) (bar, tt))
decode-encode _ (error_reply str ne bar) =
    rw (str_present str MessageType.error_reply ne)
      (decode-join MessageType.error_reply (str ∷ []) (bar, tt))
decode-encode _ (order_new order h) = rw (encode_order-join order h.some_item) (
    decode-join MessageType.order_new (join b',' (order_fields order) ∷ [])
      (order_text-Lacks-bar order h, tt)
    ∙ read_order MessageType.order_new order h)
decode-encode _ (disp_order order h) = rw (encode_order-join order h.some_item) (
    decode-join MessageType.disp_order (join b',' (order_fields order) ∷ [])
      (order_text-Lacks-bar order h, tt)
    ∙ read_order MessageType.disp_order order h)
decode-encode _ (item_update order_id item_id status big item_big valid) =
    rw
      (
        positive_present order_id big,
        positive_present item_id item_big,
        item_status_present status valid,
      )
      (decode-join MessageType.item_update (item_update_fields order_id item_id status)
          (fields_of_item_update order_id big item_id status item_big)
        ∙ read_item_update order_id big MessageType.item_update item_id status item_big valid)
decode-encode _ (disp_item_update order_id item_id status big item_big valid) =
    rw
      (
        positive_present order_id big,
        positive_present item_id item_big,
        item_status_present status valid,
      )
      (decode-join MessageType.disp_item_update (item_update_fields order_id item_id status)
          (fields_of_item_update order_id big item_id status item_big)
        ∙ read_item_update order_id big MessageType.disp_item_update item_id status item_big valid)
decode-encode _ (order_update order_id status big valid) =
    rw (positive_present order_id big, order_status_present status valid)
      (decode-join MessageType.order_update (order_update_fields order_id status)
          (fields_of_order_update order_id big status)
        ∙ read_order_update order_id big MessageType.order_update status valid)
decode-encode _ (disp_order_update order_id status big valid) =
    rw (positive_present order_id big, order_status_present status valid)
      (decode-join MessageType.disp_order_update (order_update_fields order_id status)
          (fields_of_order_update order_id big status)
        ∙ read_order_update order_id big MessageType.disp_order_update status valid)
decode-encode _ disp_heartbeat = decode-join MessageType.disp_heartbeat [] tt
