-- ===== src/Wire/Canonical.antt =====
-- Decoding and encoding again.
use restuarant_ordering_csf.Base.{◌≡◌, ◌≢◌, refl, [], Text, Bool, true, false}
use restuarant_ordering_csf.Except.{ok, ◌>>=◌}
use restuarant_ordering_csf.Message.{Message, MessageType}
use restuarant_ordering_csf.Wire.{encode, decode}
use restuarant_ordering_csf.Wire.Shape.{
  IsSendable, IsReceivable, login, quit, ok_reply, error_reply, order_new, disp_order, item_update,
  disp_item_update, order_update, disp_order_update, disp_heartbeat,
}
use restuarant_ordering_csf.Wire.RoundTrip.{decode-encode}
use restuarant_ordering_csf.Wire.Sound.{decode-IsReceivable}

-- The types of message that carry a string.
abbrev pub carries_str : MessageType → Bool
carries_str MessageType.login = true
carries_str MessageType.quit = true
carries_str MessageType.ok_reply = true
carries_str MessageType.error_reply = true
carries_str _ = false

sendable :
    (msg : Message)
    → IsReceivable msg
    → (carries_str msg.kind ≡ true → msg.str ≢ [])
    → IsSendable msg
sendable _ (login mode str valid _ bar) h = login mode str valid (h refl) bar
sendable _ (quit str _ bar) h = quit str (h refl) bar
sendable _ (ok_reply str _ bar) h = ok_reply str (h refl) bar
sendable _ (error_reply str _ bar) h = error_reply str (h refl) bar
sendable _ (order_new order w) h = order_new order w
sendable _ (disp_order order w) h = disp_order order w
sendable _ (item_update order_id item_id status a b c) h = item_update order_id item_id status a b c
sendable _ (disp_item_update order_id item_id status a b c) h =
    disp_item_update order_id item_id status a b c
sendable _ (order_update order_id status a c) h = order_update order_id status a c
sendable _ (disp_order_update order_id status a c) h = disp_order_update order_id status a c
sendable _ disp_heartbeat h = disp_heartbeat

-- A message that was decoded from any text is encoded again and decoded to the same message, if
-- its string is not empty where its type carries one.
pub decode-encode-decode :
    (s : Text) (msg : Message)
    → decode s ≡ ok msg
    → (carries_str msg.kind ≡ true → msg.str ≢ [])
    → (encode msg >>= decode) ≡ ok msg
decode-encode-decode s msg h present =
    decode-encode msg (sendable msg (decode-IsReceivable s msg h) present)
