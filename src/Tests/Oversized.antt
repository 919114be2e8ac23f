-- ===== src/Tests/Oversized.antt =====
-- An order with a description that fills the frame.
use restuarant_ordering_csf.Base.{
  ℕ, pos, true, false, ◌≡◌, refl, [], ◌∷◌, ◌++◌, some, Text, codes, arith, length, length-append,
  replicate, length-replicate,
}
use restuarant_ordering_csf.Except.{ok}
use restuarant_ordering_csf.Numbers.{to_string}
use restuarant_ordering_csf.Model.{Order, ItemStatus, OrderStatus}
use restuarant_ordering_csf.Message.{MessageType, order_message}
use restuarant_ordering_csf.MessageQueue.{empty_queue}
use restuarant_ordering_csf.Server.{
  Server, init, register_display, send_snapshot, insert_client, process_new_order,
}
use restuarant_ordering_csf.Server.Clients.{has_client}
use restuarant_ordering_csf.Server.Filed.{init-IsFiled, register_display-IsFiled}
use restuarant_ordering_csf.Wire.{encode}
use restuarant_ordering_csf.Wire.Names.{order_status_to_str, item_status_to_str}
use restuarant_ordering_csf.Wire.Orders.{encode_order}
use restuarant_ordering_csf.Wire.Orders.Growth.{IsWider}
use restuarant_ordering_csf.Client.{display_round}
use restuarant_ordering_csf.Client.Oversized.{longest_order-ends_displays}
use restuarant_ordering_csf.Tests.Data.{buffer}

long_desc : Text
long_desc = replicate 9972 b'x'

abbrev banquet : Order
banquet = record {
  id = pos 1;
  status = OrderStatus.new;
  items =
      record {
        order_id = pos 1;
        id = pos 7;
        status = ItemStatus.new;
        desc = long_desc;
        qty = pos 2;
      }
      ∷ [];
}

abbrev banquet_text : Text
banquet_text = codes "ORDER_NEW|1,NEW,1:7:NEW:" ++ (long_desc ++ codes ":2")

banquet_encoded : encode (order_message MessageType.order_new (some banquet)) ≡ ok banquet_text
unfolding encode encode_order to_string order_status_to_str item_status_to_str
banquet_encoded = refl

desc_length : length long_desc ≡ 9972
unfolding long_desc
desc_length = length-replicate {A = ℕ} 9972 b'x'

banquet_length : length banquet_text ≡ 9998
banquet_length = omega (arith, desc_length, length-append long_desc (codes ":2"))

abbrev open_server : Server
open_server = register_display 1 init

open_server-has_client : has_client 1 open_server.display_clients ≡ true
unfolding register_display send_snapshot insert_client
open_server-has_client = refl

open_server-queue : open_server.queues 1 ≡ empty_queue
unfolding register_display send_snapshot
open_server-queue = refl

wide : IsWider open_server.next_order_id (pos 1)
unfolding register_display send_snapshot to_string
wide = omega arith

longest_order-ends_displays_example :
    let thread = display_round buffer 1 (process_new_order banquet open_server).1 [] in
    (thread.looping ≡ false) × (thread.conn ≡ [])
longest_order-ends_displays_example =
    longest_order-ends_displays buffer open_server banquet banquet_text 1 []
      (register_display-IsFiled 1 init init-IsFiled) open_server-has_client open_server-queue refl
      wide (wide, tt) banquet_encoded banquet_length
