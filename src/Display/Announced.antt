-- ===== src/Display/Announced.antt =====
-- src/server.cpp and src/display_main.cpp: each request tells the display clients what it did: the messages that it puts into their queues
-- make a display that shows the orders before it show the orders after it.

use restuarant_ordering_csf.Base.{
  ℤ, pos, ◌≤ℤ◌, int_eq, true, ◌&&◌, ◌==◌, ◌≡◌, ◌≢◌, refl, sym, ap, ◌∙◌, List, [], ◌∷◌, some, arith,
  Bool-cases, inl, inr, eq_refl,
}
use restuarant_ordering_csf.Except.{ok, ◌>>=◌}
use restuarant_ordering_csf.Model.{
  Order, ItemStatus, OrderStatus, item_status_eq, order_status_eq, set_item_status, update_item,
}
use restuarant_ordering_csf.Message.{Message, MessageType, order_message, order_status_message}
use restuarant_ordering_csf.OrderedMap
use restuarant_ordering_csf.OrderedMap.Entries.{write-write, Entries-find}
use restuarant_ordering_csf.Server.{
  Server, admit, process_new_order, is_item_transition, all_done, set_item, deliver,
}
use restuarant_ordering_csf.Server.Effects.{
  post_all, process_new_order-effect, settled, settled_status, settled_notices, item_notices,
  set_item-effect, deliver-effect,
}
use restuarant_ordering_csf.Server.Filed.{IsFiled, IsFiledOrder}
use restuarant_ordering_csf.Server.Updates.{ItemFound}
use restuarant_ordering_csf.Display.{Orders, handle, replay}
use restuarant_ordering_csf.Display.Replay.{
  handle-disp_order, handle-disp_item_update, handle-disp_order_update, handle-delivered,
}

pub record Announced (s t : Server) : Type 0 where
  pub msgs : List Message
  pub same_clients : t.display_clients ≡ s.display_clients
  pub posted : t.queues ≡ post_all s.display_clients msgs s.queues
  pub shown : replay msgs s.orders ≡ ok t.orders

replay_one :
    (msg : Message) (orders after : Orders)
    → handle msg orders ≡ ok after
    → replay (msg ∷ []) orders ≡ ok after
unfolding replay
replay_one msg orders after h = ap (λ m. m >>= replay []) h

admitted_shown :
    (id : ℤ) (order : Order) (orders : Orders)
    → handle (order_message MessageType.disp_order (some (admit id order))) orders
      ≡ ok (OrderedMap.insert id (admit id order) orders)
unfolding admit
admitted_shown id order orders = handle-disp_order _ orders

pub new_order-Announced : (order : Order) (s : Server) → Announced s (process_new_order order s).1
unfolding post_all
new_order-Announced order s =
    let admitted = admit s.next_order_id order in
    let notice = order_message MessageType.disp_order (some admitted) in
    let effect = process_new_order-effect order s in
    record {
      msgs = notice ∷ [];
      same_clients = ap (λ p. p.1.display_clients) effect;
      posted = ap (λ p. p.1.queues) effect;
      shown =
          replay_one notice s.orders _ (admitted_shown s.next_order_id order s.orders)
          ∙ sym (ap (λ p. ok p.1.orders) effect);
    }

-- The settled status is the old one if there is no notice about it.
settled_shown :
    (order_id : ℤ) (status : ItemStatus) (order : Order) (orders : Orders)
    → pos 0 ≤ℤ order_id
    → OrderedMap.find orders order_id ≡ some order
    → OrderedMap.write order_id order orders ≡ orders
    → replay (settled_notices order_id status order) orders
      ≡ ok (OrderedMap.write order_id (settled status order) orders)
unfolding settled_notices settled settled_status replay
settled_shown order_id status order orders ho found stored =
    elim (Bool-cases ((status == ItemStatus.in_progress) && (order.status == OrderStatus.new))) [
      | inl first ↦ rw first (
          replay_one
            (order_status_message MessageType.disp_order_update order_id OrderStatus.in_progress)
            orders _
            (handle-disp_order_update order_id OrderStatus.in_progress order orders ho (λ e. cc)
              (λ e. cc) found))
      | inr not_first ↦
          elim (Bool-cases (
            ((status == ItemStatus.done) && (order.status == OrderStatus.in_progress))
            && all_done order.items)) [
              | inl last ↦
                  rw (not_first, last)
                    (replay_one
                      (order_status_message MessageType.disp_order_update order_id OrderStatus.done)
                      orders _
                      (handle-disp_order_update order_id OrderStatus.done order orders ho (λ e. cc)
                        (λ e. cc) found))
              | inr not_last ↦ rw (not_first, not_last) (ap ok (sym stored))
            ]
    ]

find-write_same :
    (key : ℤ) (old new : Order) (orders : Orders)
    → OrderedMap.find orders key ≡ some old
    → OrderedMap.find (OrderedMap.write key new orders) key ≡ some new
find-write_same key old new orders h =
    rw (OrderedMap.find-write key new orders key, eq_refl key, h) refl

forward_is_valid :
    (cur next : ItemStatus) → is_item_transition cur next ≡ true → next ≢ ItemStatus.invalid
forward_is_valid cur next h e = ground (arith, e)

pub set_item-Announced :
    (order_id item_id : ℤ) (status : ItemStatus) (s : Server)
    → IsFiled s
    → pos 0 ≤ℤ item_id
    → (found : ItemFound s order_id item_id status)
    → Announced s (set_item order_id item_id status found.order s)
unfolding item_notices replay
set_item-Announced order_id item_id status s filed hi found =
    let changed = update_item found.order item_id (set_item_status status) in
    let written = OrderedMap.write order_id changed s.orders in
    let effect = set_item-effect order_id item_id status found.order s in
    let own =
      Entries-find (IsFiledOrder s.next_order_id) order_id found.order s.orders filed.entries
        found.has_order in
    let ho : pos 0 ≤ℤ order_id = omega (arith, own.from_first) in
    let notice =
      handle-disp_item_update order_id item_id status found.order found.item s.orders ho hi
        (forward_is_valid found.item.status status found.forward) found.has_order found.has_item in
    record {
      msgs = item_notices order_id item_id status changed;
      same_clients = ap (λ t. t.display_clients) effect;
      posted = ap (λ t. t.queues) effect;
      shown =
          ap (λ m. m >>= replay (settled_notices order_id status changed)) notice
          ∙ settled_shown order_id status changed written ho
              (find-write_same order_id found.order changed s.orders found.has_order)
              (write-write order_id changed changed s.orders)
          ∙ ap ok (write-write order_id changed (settled status changed) s.orders)
          ∙ sym (ap (λ t. ok t.orders) effect);
    }

pub deliver-Announced :
    (order_id : ℤ) (order : Order) (s : Server)
    → IsFiled s
    → OrderedMap.find s.orders order_id ≡ some order
    → Announced s (deliver order_id order s)
unfolding post_all
deliver-Announced order_id order s filed found =
    let notice =
      order_status_message MessageType.disp_order_update order_id OrderStatus.delivered in
    let effect = deliver-effect order_id order s in
    let own =
      Entries-find (IsFiledOrder s.next_order_id) order_id order s.orders filed.entries found in
    record {
      msgs = notice ∷ [];
      same_clients = ap (λ t. t.display_clients) effect;
      posted = ap (λ t. t.queues) effect;
      shown =
          replay_one notice s.orders _
            (handle-delivered order_id order s.orders (omega (arith, own.from_first)) found)
          ∙ sym (ap (λ t. ok t.orders) effect);
    }
