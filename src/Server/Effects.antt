-- ===== src/Server/Effects.antt =====
-- Each request of the server as one change of its orders and one list of messages to its display
-- clients.

use restuarant_ordering_csf.Base.{
  ℕ, ℤ, suc_ℤ, ◌&&◌, nat_eq, ◌==◌, ◌≡◌, refl, sym, ap, ◌∙◌, List, [], ◌∷◌, some, if◌then◌else◌,
  Bool-cases, inl, inr,
}
use restuarant_ordering_csf.Model.{
  Order, ItemStatus, OrderStatus, item_status_eq, order_status_eq, set_item_status,
  set_order_status, update_item,
}
use restuarant_ordering_csf.Model.Orders.{duplicate_lem}
use restuarant_ordering_csf.Message.{
  Message, MessageType, order_message, order_status_message, item_status_message, duplicate_message,
}
use restuarant_ordering_csf.Message.Equality.{duplicate_message_lem}
use restuarant_ordering_csf.MessageQueue.{MessageQueue}
use restuarant_ordering_csf.MessageQueue
use restuarant_ordering_csf.OrderedMap.{OrderedMap}
use restuarant_ordering_csf.OrderedMap
use restuarant_ordering_csf.OrderedMap.Entries.{write-write, erase-write}
use restuarant_ordering_csf.Server.{
  Server, enqueue, broadcast_to, broadcast, send_snapshot, register_display, insert_client, admit,
  process_new_order, write_order, all_done, auto_transition, set_item, deliver,
}

abbrev pub Queues : Type 0
Queues = ℕ → MessageQueue

unfoldable pub put : ℕ → Message → Queues → Queues
put client msg queues other =
    if client == other then MessageQueue.enqueue msg (queues other) else queues other

-- One message to every client of a list, and the messages of a list one after the other.
unfoldable pub post : List ℕ → Message → Queues → Queues
post [] msg queues = queues
post (client ∷ clients) msg queues = post clients msg (put client msg queues)

unfoldable pub post_all : List ℕ → List Message → Queues → Queues
post_all clients [] queues = queues
post_all clients (msg ∷ msgs) queues = post_all clients msgs (post clients msg queues)

broadcast_to-post :
    (clients : List ℕ) (msg : Message) (s : Server)
    → broadcast_to clients msg s ≡ record s { queues = post clients msg s.queues }
unfolding broadcast_to post put
broadcast_to-post [] msg s = refl
broadcast_to-post (client ∷ clients) msg s =
    broadcast_to-post clients msg (enqueue client (duplicate_message msg) s)
    ∙ rw duplicate_message_lem

pub broadcast-post :
    (msg : Message) (s : Server)
    → broadcast msg s ≡ record s { queues = post s.display_clients msg s.queues }
unfolding broadcast
broadcast-post msg s = broadcast_to-post s.display_clients msg s

unfoldable pub snapshot : OrderedMap Order → List Message
snapshot [] = []
snapshot ((id, order) ∷ orders) =
    order_message MessageType.disp_order (some order) ∷ snapshot orders

send_snapshot-post :
    (client : ℕ) (orders : OrderedMap Order) (s : Server)
    → send_snapshot client orders s
      ≡ record s { queues = post_all (client ∷ []) (snapshot orders) s.queues }
unfolding send_snapshot post_all post put snapshot
send_snapshot-post client [] s = refl
send_snapshot-post client ((id, order) ∷ orders) s =
    send_snapshot-post client orders _ ∙ rw duplicate_lem

-- A new display client gets a message with every order; nothing else changes.
pub register_display-effect :
    (client : ℕ) (s : Server)
    → register_display client s ≡ record s {
      display_clients = insert_client client s.display_clients;
      queues = post_all (client ∷ []) (snapshot s.orders) s.queues;
    }
unfolding register_display
register_display-effect client s = send_snapshot-post client s.orders _

-- A new order enters the map under the next id, and the clients get it as it was admitted.
pub process_new_order-effect :
    (order : Order) (s : Server)
    → process_new_order order s ≡ (
      s.next_order_id,
      record s {
        next_order_id = suc_ℤ s.next_order_id;
        orders = OrderedMap.insert s.next_order_id (admit s.next_order_id order) s.orders;
        queues =
            post s.display_clients
              (order_message MessageType.disp_order (some (admit s.next_order_id order)))
              s.queues;
      },
    )
unfolding process_new_order
process_new_order-effect order s = rw broadcast-post

-- The status that an order has after one of its items was set.
unfoldable pub settled_status : ItemStatus → Order → OrderStatus
settled_status item_status order =
    if (item_status == ItemStatus.in_progress) && (order.status == OrderStatus.new)
    then OrderStatus.in_progress
    else if ((item_status == ItemStatus.done) && (order.status == OrderStatus.in_progress))
        && all_done order.items
    then OrderStatus.done
    else order.status

unfoldable pub settled : ItemStatus → Order → Order
unfolding settled_status
settled item_status order = set_order_status (settled_status item_status order) order

-- The message about the new status of the order, if there is one.
unfoldable pub settled_notices : ℤ → ItemStatus → Order → List Message
settled_notices order_id item_status order =
    if (item_status == ItemStatus.in_progress) && (order.status == OrderStatus.new)
    then order_status_message MessageType.disp_order_update order_id OrderStatus.in_progress ∷ []
    else if ((item_status == ItemStatus.done) && (order.status == OrderStatus.in_progress))
        && all_done order.items
    then order_status_message MessageType.disp_order_update order_id OrderStatus.done ∷ []
    else []

auto_transition-effect :
    (order_id : ℤ) (item_status : ItemStatus) (order : Order) (s : Server)
    → OrderedMap.write order_id order s.orders ≡ s.orders
    → auto_transition order_id item_status order s ≡ record s {
      orders = OrderedMap.write order_id (settled item_status order) s.orders;
      queues = post_all s.display_clients (settled_notices order_id item_status order) s.queues;
    }
unfolding auto_transition settled settled_notices post_all
auto_transition-effect order_id item_status order s stored =
    elim (Bool-cases
      ((item_status == ItemStatus.in_progress) && (order.status == OrderStatus.new))) [
        | inl first ↦ rw first (broadcast-post _ _)
        | inr not_first ↦
            elim (Bool-cases
              ((item_status == ItemStatus.done) && (order.status == OrderStatus.in_progress))) [
                | inl last ↦ elim (Bool-cases (all_done order.items)) [
                  | inl all ↦ rw (not_first, last, all) (broadcast-post _ _)
                  | inr some_left ↦
                      rw (not_first, last, some_left) (λ i. record s { orders = sym stored i })
                ]
                | inr not_last ↦ rw (not_first, not_last) (λ i. record s { orders = sym stored i })
              ]
      ]

-- The messages about an item and, if it changed with it, about its order.
unfoldable pub item_notices : ℤ → ℤ → ItemStatus → Order → List Message
unfolding settled_notices
item_notices order_id item_id item_status order =
    item_status_message MessageType.disp_item_update order_id item_id item_status
    ∷ settled_notices order_id item_status order

pub set_item-effect :
    (order_id item_id : ℤ) (item_status : ItemStatus) (order : Order) (s : Server)
    → let changed = update_item order item_id (set_item_status item_status) in
      set_item order_id item_id item_status order s ≡ record s {
        orders = OrderedMap.write order_id (settled item_status changed) s.orders;
        queues =
            post_all s.display_clients (item_notices order_id item_id item_status changed) s.queues;
      }
unfolding set_item post_all item_notices
set_item-effect order_id item_id item_status order s =
    let changed = update_item order item_id (set_item_status item_status) in
    let notice = item_status_message MessageType.disp_item_update order_id item_id item_status in
    ap (auto_transition order_id item_status changed)
      (broadcast-post notice (write_order order_id changed s))
    ∙ auto_transition-effect order_id item_status changed _
        (write-write order_id changed changed s.orders)
    ∙ rw write-write

-- A delivered order leaves the map, and the clients are told.
pub deliver-effect :
    (order_id : ℤ) (order : Order) (s : Server)
    → deliver order_id order s ≡ record s {
      orders = OrderedMap.erase order_id s.orders;
      queues =
          post s.display_clients
            (order_status_message MessageType.disp_order_update order_id OrderStatus.delivered)
            s.queues;
    }
unfolding deliver
deliver-effect order_id order s = rw broadcast-post (rw erase-write)
