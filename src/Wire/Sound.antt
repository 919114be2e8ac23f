-- ===== src/Wire/Sound.antt =====
-- Every message that `decode` returns is one that the wire format carries.
use mathlib.Core.Path.{subst}
use restuarant_ordering_csf.Base.{ℤ, IsPositive, ◌≡◌, ◌≢◌, List, [], ◌∷◌, Text, All, Lacks, some}
use restuarant_ordering_csf.Except.{ok, ok-injective, >>=-eq-ok}
use restuarant_ordering_csf.Util.{split}
use restuarant_ordering_csf.Util.Split.{split-Lacks}
use restuarant_ordering_csf.Model.{ItemStatus, OrderStatus, Order}
use restuarant_ordering_csf.Message.{
  Message, MessageType, plain_message, str_message, order_message, order_status_message,
  item_status_message,
}
use restuarant_ordering_csf.Wire.Names.{str_to_message_type}
use restuarant_ordering_csf.Wire.Fields.{
  parse_positive_int, read_client_mode, read_item_status, read_order_status,
}
use restuarant_ordering_csf.Wire.Fields.Sound.{
  parse_positive_int-IsPositive, read_client_mode_sound, read_item_status_sound,
  read_order_status_sound,
}
use restuarant_ordering_csf.Wire.Orders.{decode_order}
use restuarant_ordering_csf.Wire.Orders.Shape.{IsWireOrder}
use restuarant_ordering_csf.Wire.Orders.Sound.{decode_order-IsWireOrder}
use restuarant_ordering_csf.Wire.Shape.{
  IsReceivable, login, quit, ok_reply, error_reply, order_new, disp_order, item_update,
  disp_item_update, order_update, disp_order_update, disp_heartbeat,
}
use restuarant_ordering_csf.Wire.{
  decode, decode_fields, decode_kind, decode_login, decode_str, decode_order_payload,
  decode_item_update, decode_order_update, decode_heartbeat,
}

module _ (kind : MessageType) (msg : Message) where
  decode_str_sound :
      (fields : List Text)
      → All (Lacks b'|') fields
      → decode_str kind fields ≡ ok msg
      → (str : Text) × Lacks b'|' str × (str_message kind str ≡ msg)
  unfolding decode_str
  decode_str_sound (name ∷ str ∷ []) (_, (bar, _)) h = (str, bar, ok-injective h)
  decode_str_sound [] _ h = absurd (cc)
  decode_str_sound (a ∷ []) _ h = absurd (cc)
  decode_str_sound (a ∷ b ∷ c ∷ fields) _ h = absurd (cc)

  decode_order_payload_sound :
      (fields : List Text)
      → All (Lacks b'|') fields
      → decode_order_payload kind fields ≡ ok msg
      → (order : Order) × IsWireOrder order × (order_message kind (some order) ≡ msg)
  unfolding decode_order_payload
  decode_order_payload_sound (name ∷ payload ∷ []) (_, (bar, _)) h =
      let (order, e, h1) = >>=-eq-ok (decode_order payload) _ h in
      (order, decode_order-IsWireOrder payload order bar e, ok-injective h1)
  decode_order_payload_sound [] _ h = absurd (cc)
  decode_order_payload_sound (a ∷ []) _ h = absurd (cc)
  decode_order_payload_sound (a ∷ b ∷ c ∷ fields) _ h = absurd (cc)

  decode_item_update_sound :
      (fields : List Text)
      → decode_item_update kind fields ≡ ok msg
      → (order_id : ℤ) × (item_id : ℤ) × (status : ItemStatus) × IsPositive order_id
        × IsPositive item_id
        × (status ≢ ItemStatus.invalid)
        × (item_status_message kind order_id item_id status ≡ msg)
  unfolding decode_item_update
  decode_item_update_sound (name ∷ order_id_str ∷ item_id_str ∷ status_str ∷ []) h =
      let (order_id, e1, h1) = >>=-eq-ok (parse_positive_int order_id_str "order id") _ h in
      let (item_id, e2, h2) = >>=-eq-ok (parse_positive_int item_id_str "item id") _ h1 in
      let (status, e3, h3) = >>=-eq-ok (read_item_status status_str) _ h2 in
      (
        order_id,
        item_id,
        status,
        parse_positive_int-IsPositive _ _ _ e1,
        parse_positive_int-IsPositive _ _ _ e2,
        (read_item_status_sound status_str status e3).0,
        ok-injective h3,
      )
  decode_item_update_sound [] h = absurd (cc)
  decode_item_update_sound (a ∷ []) h = absurd (cc)
  decode_item_update_sound (a ∷ b ∷ []) h = absurd (cc)
  decode_item_update_sound (a ∷ b ∷ c ∷ []) h = absurd (cc)
  decode_item_update_sound (a ∷ b ∷ c ∷ d ∷ e ∷ fields) h = absurd (cc)

  decode_order_update_sound :
      (fields : List Text)
      → decode_order_update kind fields ≡ ok msg
      → (order_id : ℤ) × (status : OrderStatus) × IsPositive order_id
        × (status ≢ OrderStatus.invalid)
        × (order_status_message kind order_id status ≡ msg)
  unfolding decode_order_update
  decode_order_update_sound (name ∷ order_id_str ∷ status_str ∷ []) h =
      let (order_id, e1, h1) = >>=-eq-ok (parse_positive_int order_id_str "order id") _ h in
      let (status, e2, h2) = >>=-eq-ok (read_order_status status_str) _ h1 in
      (
        order_id,
        status,
        parse_positive_int-IsPositive _ _ _ e1,
        (read_order_status_sound status_str status e2).0,
        ok-injective h2,
      )
  decode_order_update_sound [] h = absurd (cc)
  decode_order_update_sound (a ∷ []) h = absurd (cc)
  decode_order_update_sound (a ∷ b ∷ []) h = absurd (cc)
  decode_order_update_sound (a ∷ b ∷ c ∷ d ∷ fields) h = absurd (cc)

decode_login_sound :
    (fields : List Text) (msg : Message)
    → All (Lacks b'|') fields
    → decode_login fields ≡ ok msg
    → IsReceivable msg
unfolding decode_login
decode_login_sound (name ∷ mode_str ∷ str ∷ []) msg (_, (_, (bar, _))) h =
    let (mode, e, h1) = >>=-eq-ok (read_client_mode mode_str) _ h in
    subst IsReceivable (ok-injective h1)
      (login mode str (read_client_mode_sound mode_str mode e).0 tt bar)
decode_login_sound [] msg _ h = absurd (cc)
decode_login_sound (a ∷ []) msg _ h = absurd (cc)
decode_login_sound (a ∷ b ∷ []) msg _ h = absurd (cc)
decode_login_sound (a ∷ b ∷ c ∷ d ∷ fields) msg _ h = absurd (cc)

decode_heartbeat_sound :
    (msg : Message) (fields : List Text)
    → decode_heartbeat MessageType.disp_heartbeat fields ≡ ok msg
    → plain_message MessageType.disp_heartbeat ≡ msg
unfolding decode_heartbeat
decode_heartbeat_sound msg (name ∷ []) h = ok-injective h
decode_heartbeat_sound msg [] h = absurd (cc)
decode_heartbeat_sound msg (a ∷ b ∷ fields) h = absurd (cc)

decode_kind_sound :
    (kind : MessageType) (fields : List Text) (msg : Message)
    → All (Lacks b'|') fields
    → decode_kind kind fields ≡ ok msg
    → IsReceivable msg
unfolding decode_kind
decode_kind_sound MessageType.invalid fields msg bars h = absurd (cc)
decode_kind_sound MessageType.login fields msg bars h = decode_login_sound fields msg bars h
decode_kind_sound MessageType.quit fields msg bars h =
    let (str, bar, e) = decode_str_sound MessageType.quit msg fields bars h in
    subst IsReceivable e (quit str tt bar)
decode_kind_sound MessageType.ok_reply fields msg bars h =
    let (str, bar, e) = decode_str_sound MessageType.ok_reply msg fields bars h in
    subst IsReceivable e (ok_reply str tt bar)
decode_kind_sound MessageType.error_reply fields msg bars h =
    let (str, bar, e) = decode_str_sound MessageType.error_reply msg fields bars h in
    subst IsReceivable e (error_reply str tt bar)
decode_kind_sound MessageType.order_new fields msg bars h =
    let (order, w, e) = decode_order_payload_sound MessageType.order_new msg fields bars h in
    subst IsReceivable e (order_new order w)
decode_kind_sound MessageType.disp_order fields msg bars h =
    let (order, w, e) = decode_order_payload_sound MessageType.disp_order msg fields bars h in
    subst IsReceivable e (disp_order order w)
decode_kind_sound MessageType.item_update fields msg bars h =
    let (order_id, item_id, status, a, b, c, e) =
      decode_item_update_sound MessageType.item_update msg fields h in
    subst IsReceivable e (item_update order_id item_id status a b c)
decode_kind_sound MessageType.disp_item_update fields msg bars h =
    let (order_id, item_id, status, a, b, c, e) =
      decode_item_update_sound MessageType.disp_item_update msg fields h in
    subst IsReceivable e (disp_item_update order_id item_id status a b c)
decode_kind_sound MessageType.order_update fields msg bars h =
    let (order_id, status, a, c, e) =
      decode_order_update_sound MessageType.order_update msg fields h in
    subst IsReceivable e (order_update order_id status a c)
decode_kind_sound MessageType.disp_order_update fields msg bars h =
    let (order_id, status, a, c, e) =
      decode_order_update_sound MessageType.disp_order_update msg fields h in
    subst IsReceivable e (disp_order_update order_id status a c)
decode_kind_sound MessageType.disp_heartbeat fields msg bars h =
    subst IsReceivable (decode_heartbeat_sound msg fields h) disp_heartbeat

decode_fields_sound :
    (fields : List Text) (msg : Message)
    → All (Lacks b'|') fields
    → decode_fields fields ≡ ok msg
    → IsReceivable msg
unfolding decode_fields
decode_fields_sound [] msg bars h = absurd (cc)
decode_fields_sound (name ∷ fields) msg bars h =
    decode_kind_sound (str_to_message_type name) (name ∷ fields) msg bars h

-- Whatever the text, a message that is decoded from it has exactly the data of its type, and they
-- are valid: positive ids that fit an `int`, valid statuses and modes, orders with items and with
-- descriptions without separators.
pub decode-IsReceivable : (s : Text) (msg : Message) → decode s ≡ ok msg → IsReceivable msg
unfolding decode
decode-IsReceivable s msg h = decode_fields_sound (split s b'|') msg (split-Lacks s b'|') h
