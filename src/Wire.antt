-- ===== src/Wire.antt =====
-- include/wire.h and src/wire.cpp: messages as text.
pub mod Names
pub mod Fields
pub mod Orders
pub mod RoundTrip
pub mod Shape
pub mod Canonical
pub mod Sound
use restuarant_ordering_csf.Base.{
  Bool, true, false, not, ◌||◌, List, [], ◌∷◌, ◌++◌, Text, codes, if◌then◌else◌, some,
}
use restuarant_ordering_csf.Except.{Result, ok, err, invalid_message, ◌>>=◌}
use restuarant_ordering_csf.Util.{split}
use restuarant_ordering_csf.Numbers.{to_string}
use restuarant_ordering_csf.Model.{
  ClientMode, ItemStatus, OrderStatus, mode_eq, item_status_eq, order_status_eq,
}
use restuarant_ordering_csf.Message.{
  Message, MessageType, message_type_eq, plain_message, str_message, login_message, order_message,
  order_status_message, item_status_message, has_client_mode, has_str, has_order_id,
  has_order_status, has_item_id, has_item_status,
}
use Names.{
  client_mode_to_str, str_to_client_mode, str_to_message_type, item_status_to_str,
  str_to_item_status, order_status_to_str, str_to_order_status,
}
use Fields.{parse_positive_int, read_client_mode, read_item_status, read_order_status}
use Orders.{encode_order, decode_order}

-- The messages that carry an order id, an item id and an item status.
encode_item_update : Text → Message → Text
encode_item_update kind msg =
    kind
    ++ (b'|'
        ∷ (to_string msg.order_id
            ++ (b'|' ∷ (to_string msg.item_id ++ (b'|' ∷ item_status_to_str msg.item_status)))))

-- The messages that carry an order id and an order status.
encode_order_update : Text → Message → Text
encode_order_update kind msg =
    kind ++ (b'|' ∷ (to_string msg.order_id ++ (b'|' ∷ order_status_to_str msg.order_status)))

-- `encode` by the type of the message.
encode_kind : MessageType → Message → Result Text
unfolding encode_item_update encode_order_update
encode_kind MessageType.login msg =
    if not (has_client_mode msg) || not (has_str msg)
    then err (invalid_message "invalid LOGIN message")
    else ok (codes "LOGIN|" ++ (client_mode_to_str msg.client_mode ++ (b'|' ∷ msg.str)))
encode_kind MessageType.quit msg =
    if not (has_str msg)
    then err (invalid_message "invalid QUIT message")
    else ok (codes "QUIT|" ++ msg.str)
encode_kind MessageType.order_new msg = do
  order ← encode_order msg.order
  ok (codes "ORDER_NEW|" ++ order)
encode_kind MessageType.item_update msg =
    if not (has_order_id msg) || (not (has_item_id msg) || not (has_item_status msg))
    then err (invalid_message "invalid ITEM_UPDATE message")
    else ok (encode_item_update (codes "ITEM_UPDATE") msg)
encode_kind MessageType.order_update msg =
    if not (has_order_id msg) || not (has_order_status msg)
    then err (invalid_message "invalid ORDER_UPDATE message")
    else ok (encode_order_update (codes "ORDER_UPDATE") msg)
encode_kind MessageType.ok_reply msg =
    if not (has_str msg)
    then err (invalid_message "invalid OK message")
    else ok (codes "OK|" ++ msg.str)
encode_kind MessageType.error_reply msg =
    if not (has_str msg)
    then err (invalid_message "invalid ERROR message")
    else ok (codes "ERROR|" ++ msg.str)
encode_kind MessageType.disp_order msg = do
  order ← encode_order msg.order
  ok (codes "DISP_ORDER|" ++ order)
encode_kind MessageType.disp_item_update msg =
    if not (has_order_id msg) || (not (has_item_id msg) || not (has_item_status msg))
    then err (invalid_message "invalid DISP_ITEM_UPDATE message")
    else ok (encode_item_update (codes "DISP_ITEM_UPDATE") msg)
encode_kind MessageType.disp_order_update msg =
    if not (has_order_id msg) || not (has_order_status msg)
    then err (invalid_message "invalid DISP_ORDER_UPDATE message")
    else ok (encode_order_update (codes "DISP_ORDER_UPDATE") msg)
encode_kind MessageType.disp_heartbeat msg = ok (codes "DISP_HEARTBEAT")
encode_kind MessageType.invalid msg = err (invalid_message "invalid message type for encoding")

unfoldable pub encode : Message → Result Text
unfolding encode_kind
encode msg = encode_kind msg.kind msg

decode_login : List Text → Result Message
decode_login (kind_str ∷ mode_str ∷ str ∷ []) = do
  mode ← read_client_mode mode_str
  ok (login_message MessageType.login mode str)
decode_login _ = err (invalid_message "invalid LOGIN field count")

decode_str : MessageType → List Text → Result Message
decode_str kind (kind_str ∷ str ∷ []) = ok (str_message kind str)
decode_str kind _ = err (invalid_message "invalid string message field count")

decode_order_payload : MessageType → List Text → Result Message
decode_order_payload kind (kind_str ∷ payload ∷ []) = do
  order ← decode_order payload
  ok (order_message kind (some order))
decode_order_payload kind _ = err (invalid_message "invalid order message field count")

decode_item_update : MessageType → List Text → Result Message
decode_item_update kind (kind_str ∷ order_id_str ∷ item_id_str ∷ status_str ∷ []) = do
  order_id ← parse_positive_int order_id_str "order id"
  item_id ← parse_positive_int item_id_str "item id"
  item_status ← read_item_status status_str
  ok (item_status_message kind order_id item_id item_status)
decode_item_update kind _ = err (invalid_message "invalid item update field count")

decode_order_update : MessageType → List Text → Result Message
decode_order_update kind (kind_str ∷ order_id_str ∷ status_str ∷ []) = do
  order_id ← parse_positive_int order_id_str "order id"
  order_status ← read_order_status status_str
  ok (order_status_message kind order_id order_status)
decode_order_update kind _ = err (invalid_message "invalid order update field count")

decode_heartbeat : MessageType → List Text → Result Message
decode_heartbeat kind (kind_str ∷ []) = ok (plain_message kind)
decode_heartbeat kind _ = err (invalid_message "invalid heartbeat field count")

-- `decode` by the type that the first field names.
decode_kind : MessageType → List Text → Result Message
unfolding decode_login decode_str decode_order_payload decode_item_update decode_order_update
    decode_heartbeat
decode_kind MessageType.login fields = decode_login fields
decode_kind MessageType.quit fields = decode_str MessageType.quit fields
decode_kind MessageType.ok_reply fields = decode_str MessageType.ok_reply fields
decode_kind MessageType.error_reply fields = decode_str MessageType.error_reply fields
decode_kind MessageType.order_new fields = decode_order_payload MessageType.order_new fields
decode_kind MessageType.disp_order fields = decode_order_payload MessageType.disp_order fields
decode_kind MessageType.item_update fields = decode_item_update MessageType.item_update fields
decode_kind MessageType.disp_item_update fields =
    decode_item_update MessageType.disp_item_update fields
decode_kind MessageType.order_update fields = decode_order_update MessageType.order_update fields
decode_kind MessageType.disp_order_update fields =
    decode_order_update MessageType.disp_order_update fields
decode_kind MessageType.disp_heartbeat fields = decode_heartbeat MessageType.disp_heartbeat fields
decode_kind MessageType.invalid fields = err (invalid_message "invalid message type")

decode_fields : List Text → Result Message
unfolding decode_kind
decode_fields [] = err (invalid_message "empty message")
decode_fields (kind_str ∷ fields) = decode_kind (str_to_message_type kind_str) (kind_str ∷ fields)

-- The decoded message; on an error the message that was given to `decode` is not written.
unfoldable pub decode : Text → Result Message
unfolding decode_fields
decode given_str = decode_fields (split given_str b'|')
