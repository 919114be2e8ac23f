-- ===== src/Client/Oversized.antt =====
-- src/client.cpp and src/io.cpp: an order whose request fills the frame makes an announcement that does
-- not fit into one, and the display loop that takes it out of its queue ends.
use restuarant_ordering_csf.Base.{
  ℕ, ◌≤◌, ℤ, Bool, true, false, ◌≡◌, refl, ap, ◌∙◌, arith, Text, All, some, length,
}
use restuarant_ordering_csf.Except.{ok}
use restuarant_ordering_csf.Model.{Item, Order, OrderStatus}
use restuarant_ordering_csf.Message.{Message, MessageType, order_message}
use restuarant_ordering_csf.MessageQueue.{MessageQueue, empty_queue, dequeue}
use restuarant_ordering_csf.MessageQueue
use restuarant_ordering_csf.Server.{Server, process_new_order}
use restuarant_ordering_csf.Server.Clients.{has_client, post-member}
use restuarant_ordering_csf.Server.Effects.{process_new_order-effect}
use restuarant_ordering_csf.Server.Filed.{IsFiled}
use restuarant_ordering_csf.Io.{Rio}
use restuarant_ordering_csf.Io.Framing.{send_too_long}
use restuarant_ordering_csf.Wire.{encode}
use restuarant_ordering_csf.Wire.Orders.Growth.{IsWider, announcement, announcement-longer}
use restuarant_ordering_csf.ClientUtil
use restuarant_ordering_csf.Client.{send_message, display_round}

module _ {W : Type 0} (rio : Rio W) where
  send_message-too_long :
      (msg : Message) (u : Text) (w : W)
      → encode msg ≡ ok u
      → 9999 ≤ length u
      → send_message rio msg w ≡ (false, w)
  unfolding send_message ClientUtil.send_message
  send_message-too_long msg u w e h = rw (e, send_too_long rio w u h) refl

  display_round-too_long :
      (client : ℕ) (s : Server) (w : W) (msg : Message) (u : Text) (queue : MessageQueue)
      → dequeue (s.queues client) ≡ (some msg, queue)
      → encode msg ≡ ok u
      → 9999 ≤ length u
      → let thread = display_round rio client s w in (thread.looping ≡ false) × (thread.conn ≡ w)
  unfolding display_round send_message
  display_round-too_long client s w msg u queue taken e h =
      let refused = send_message-too_long msg u w e h in
      rw taken (ap (λ (p : Bool × W). p.0) refused, ap (λ (p : Bool × W). p.1) refused)

  -- After a NEW order whose ORDER_NEW message has the full 9998 bytes, and whose ids are at most
  -- as long as the next id of the server, whose orders are filed (`IsFiled`), every registered
  -- display with an empty queue loses its connection: the next round of its loop, which has the
  -- announcement to send, writes nothing to the connection and ends the loop.
  pub longest_order-ends_displays :
      (s : Server) (order : Order) (t : Text) (client : ℕ) (w : W)
      → IsFiled s
      → has_client client s.display_clients ≡ true
      → s.queues client ≡ empty_queue
      → order.status ≡ OrderStatus.new
      → IsWider s.next_order_id order.id
      → All (λ (item : Item). IsWider s.next_order_id item.order_id) order.items
      → encode (order_message MessageType.order_new (some order)) ≡ ok t
      → length t ≡ 9998
      → let thread = display_round rio client (process_new_order order s).1 w in
        (thread.looping ≡ false) × (thread.conn ≡ w)
  unfolding MessageQueue.enqueue dequeue
  longest_order-ends_displays s order t client w filed member empty new wide wides e full =
      let id = s.next_order_id in
      let (u, encoded, longer) = announcement-longer id order t new wide wides e in
      let queued : (process_new_order order s).1.queues client
          ≡ MessageQueue.enqueue (announcement id order) empty_queue =
        ap (λ (made : ℤ × Server). made.1.queues client) (process_new_order-effect order s)
        ∙ post-member client s.display_clients (announcement id order) s.queues filed.clients member
        ∙ ap (MessageQueue.enqueue (announcement id order)) empty in
      display_round-too_long client (process_new_order order s).1 w (announcement id order) u
        empty_queue (ap dequeue queued) encoded (omega (arith, longer, full))
