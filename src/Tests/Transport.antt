-- ===== src/Tests/Transport.antt =====
-- Framing and message exchange over a buffer.
use restuarant_ordering_csf.Base.{
  ℕ, ◌≡◌, refl, List, [], ◌∷◌, map, some, Text, codes, arith, replicate, length-replicate,
}
use restuarant_ordering_csf.Except.{ok, err, io_exception}
use restuarant_ordering_csf.Message.{Message, MessageType, order_message}
use restuarant_ordering_csf.Numbers.{to_string}
use restuarant_ordering_csf.Wire.Names.{order_status_to_str, item_status_to_str}
use restuarant_ordering_csf.Wire.Orders.{encode_order}
use restuarant_ordering_csf.Wire.{encode}
use restuarant_ordering_csf.Wire.Shape.{IsWireMessage}
use restuarant_ordering_csf.Io.{send}
use restuarant_ordering_csf.Io.Framing.{send_all, receive_all, receive_all-send_all, send_too_long}
use restuarant_ordering_csf.ClientUtil.{send_message, receive_message}
use restuarant_ordering_csf.ClientUtil.Exchange.{receive_message-send_message}
use restuarant_ordering_csf.Tests.Data.{lunch, lunch-IsWireOrder, buffer, buffer-Stream}

abbrev two_texts : List Text
two_texts = codes "QUIT|quit" ∷ [] ∷ []

receive_all-send_all_example :
    receive_all buffer two_texts (send_all buffer two_texts []) ≡ map ok two_texts
receive_all-send_all_example =
    receive_all-send_all buffer buffer-Stream two_texts [] (omega arith) refl

abbrev long_text : Text
long_text = replicate 9999 b'x'

send_too_long_example :
    send buffer long_text [] ≡ (err (io_exception "message too long to frame"), [])
send_too_long_example =
    send_too_long buffer [] long_text (omega (arith, length-replicate {A = ℕ} 9999 b'x'))

abbrev ordered : Message
ordered = order_message MessageType.order_new (some lunch)

encoded_order : encode ordered ≡ ok (codes "ORDER_NEW|1,NEW,1:7:NEW:Fries:2")
unfolding encode encode_order to_string order_status_to_str item_status_to_str
encoded_order = refl

receive_message-send_message_example :
    ((receive_message buffer (send_message buffer ordered []).1).0 ≡ ok ordered)
    × ((receive_message buffer (send_message buffer ordered []).1).1 ≡ [])
receive_message-send_message_example =
    receive_message-send_message buffer buffer-Stream [] ordered
      (codes "ORDER_NEW|1,NEW,1:7:NEW:Fries:2") (IsWireMessage.order_new lunch lunch-IsWireOrder)
      encoded_order (omega arith) refl
