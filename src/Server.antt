-- ===== src/Server.antt =====
-- include/server.h and src/server.cpp: the orders, the display clients and the requests that
-- change them. Every public function locks the server's mutex for its whole body, so a function
-- is one step of the server. A client stands for its address; its queue is its own, and is kept
-- here under its address. The order ids are not bounded here: with fewer than 2147482648 orders
-- they stay in `int`.
pub mod Requests
pub mod Script
pub mod Effects
pub mod Outbox
pub mod Sending
pub mod Delivery
pub mod Stuck
pub mod Shadowed
pub mod Lifecycle
pub mod Updates
pub mod Filed
pub mod Clients
pub mod Unordered
use restuarant_ordering_csf.Base.{
  ℕ, ℤ, pos, suc_ℤ, Bool, true, false, ◌&&◌, ◌||◌, not, nat_eq, int_eq, ◌==◌, ◌!=◌, List, [], ◌∷◌,
  ◌++◌, map, Option, none, some, if◌then◌else◌,
}
use restuarant_ordering_csf.Except.{Result, ok, err, semantic_error}
use restuarant_ordering_csf.Model.{
  Item, Order, ItemStatus, OrderStatus, item_status_eq, order_status_eq, set_order_id,
  set_item_status, set_id, set_order_status, find_item, update_item, duplicate,
}
use restuarant_ordering_csf.Message.{
  Message, MessageType, order_message, order_status_message, item_status_message, duplicate_message,
}
use restuarant_ordering_csf.MessageQueue.{MessageQueue, empty_queue}
use restuarant_ordering_csf.MessageQueue
use restuarant_ordering_csf.OrderedMap.{OrderedMap}
use restuarant_ordering_csf.OrderedMap

pub record Server : Type 0 where
  pub orders : OrderedMap Order
  pub display_clients : List ℕ
  pub next_order_id : ℤ
  pub queues : ℕ → MessageQueue

-- The constructor, and the initial values of the members.
abbrev pub init : Server
init = record {
  orders = [];
  display_clients = [];
  next_order_id = pos 1000;
  queues = λ client. empty_queue;
}

-- `Client::enqueue`
unfoldable pub enqueue : ℕ → Message → Server → Server
enqueue client msg s = record s {
  queues = λ other.
      if client == other then MessageQueue.enqueue msg (s.queues other) else s.queues other;
}

-- The loop of `broadcast`: every client gets a copy of its own.
unfoldable pub broadcast_to : List ℕ → Message → Server → Server
unfolding enqueue
broadcast_to [] msg s = s
broadcast_to (client ∷ clients) msg s =
    broadcast_to clients msg (enqueue client (duplicate_message msg) s)

unfoldable pub broadcast : Message → Server → Server
unfolding broadcast_to
broadcast msg s = broadcast_to s.display_clients msg s

-- `m_display_clients.insert(client)` and `.erase(client)`
unfoldable pub insert_client : ℕ → List ℕ → List ℕ
insert_client client [] = client ∷ []
insert_client client (other ∷ clients) =
    if other == client then other ∷ clients else other ∷ insert_client client clients

unfoldable pub erase_client : ℕ → List ℕ → List ℕ
erase_client client [] = []
erase_client client (other ∷ clients) =
    if other == client then clients else other ∷ erase_client client clients

-- The loop of `register_display`: a copy of every order goes to the new client.
unfoldable pub send_snapshot : ℕ → OrderedMap Order → Server → Server
unfolding enqueue
send_snapshot client [] s = s
send_snapshot client ((id, order) ∷ orders) s = send_snapshot client orders (
    enqueue client
      (order_message MessageType.disp_order (some (duplicate (pos 0) OrderStatus.invalid order))) s)

unfoldable pub register_display : ℕ → Server → Server
unfolding insert_client send_snapshot
register_display client s =
    send_snapshot client s.orders
      (record s { display_clients = insert_client client s.display_clients })

unfoldable pub unregister_display : ℕ → Server → Server
unfolding erase_client
unregister_display client s = record s { display_clients = erase_client client s.display_clients }

-- The order as the server keeps it: with a new id, also in its items, and the status NEW.
unfoldable pub admit : ℤ → Order → Order
admit id order =
    set_order_status OrderStatus.new
      (record (set_id id order) { items = map (set_order_id id) order.items })

-- The counter is an `int` in the source: behind 2147483647, which no test of the code keeps it from
-- reaching, its overflow is undefined there, and is not modelled.
unfoldable pub process_new_order : Order → Server → ℤ × Server
unfolding admit
process_new_order order s =
    let id = s.next_order_id in
    let admitted = admit id order in
    (
      id,
      broadcast (order_message MessageType.disp_order (some admitted))
          (record s { next_order_id = suc_ℤ id; orders = OrderedMap.insert id admitted s.orders }),
    )

-- A write through the pointer to an order of the map.
abbrev pub write_order : ℤ → Order → Server → Server
write_order order_id order s = record s { orders = OrderedMap.write order_id order s.orders }

-- Strictly forward.
abbrev pub is_item_transition : ItemStatus → ItemStatus → Bool
is_item_transition cur next =
    ((cur == ItemStatus.new) && (next == ItemStatus.in_progress))
    || ((cur == ItemStatus.in_progress) && (next == ItemStatus.done))

-- The loop that looks for an item which is not DONE.
unfoldable pub all_done : List Item → Bool
all_done [] = true
all_done (item ∷ items) =
    let rest = all_done items in if item.status != ItemStatus.done then false else rest

-- The order follows its items: to IN_PROGRESS with the first, to DONE with the last.
unfoldable pub auto_transition : ℤ → ItemStatus → Order → Server → Server
unfolding all_done
auto_transition order_id item_status order s =
    if (item_status == ItemStatus.in_progress) && (order.status == OrderStatus.new)
    then broadcast
        (order_status_message MessageType.disp_order_update order_id OrderStatus.in_progress)
        (write_order order_id (set_order_status OrderStatus.in_progress order) s)
    else if (item_status == ItemStatus.done) && (order.status == OrderStatus.in_progress)
    then if all_done order.items
      then broadcast (order_status_message MessageType.disp_order_update order_id OrderStatus.done)
          (write_order order_id (set_order_status OrderStatus.done order) s)
      else s
    else s

-- The part of `process_item_update` behind its checks.
unfoldable pub set_item : ℤ → ℤ → ItemStatus → Order → Server → Server
unfolding auto_transition
set_item order_id item_id item_status order s =
    let changed = update_item order item_id (set_item_status item_status) in
    auto_transition order_id item_status changed (
      broadcast (item_status_message MessageType.disp_item_update order_id item_id item_status)
        (write_order order_id changed s))

unfoldable pub process_item_update : ℤ → ℤ → ItemStatus → Server → Result Server
process_item_update order_id item_id item_status s = elim (OrderedMap.find s.orders order_id) [
  | none ↦ err (semantic_error "order not found")
  | some order ↦ elim (find_item order item_id) [
    | none ↦ err (semantic_error "item not found")
    | some item ↦
        if is_item_transition item.status item_status
        then ok (set_item order_id item_id item_status order s)
        else err (semantic_error "invalid item status transition")
  ]
]

-- The part of `process_order_update` behind its checks: the order leaves the map.
unfoldable pub deliver : ℤ → Order → Server → Server
deliver order_id order s =
    let sent =
      broadcast (order_status_message MessageType.disp_order_update order_id OrderStatus.delivered)
        (write_order order_id (set_order_status OrderStatus.delivered order) s) in
    record sent { orders = OrderedMap.erase order_id sent.orders }

unfoldable pub process_order_update : ℤ → OrderStatus → Server → Result Server
process_order_update order_id order_status s = elim (OrderedMap.find s.orders order_id) [
  | none ↦ err (semantic_error "order not found")
  | some order ↦
      if (order.status != OrderStatus.done) || (order_status != OrderStatus.delivered)
      then err (semantic_error "invalid order status transition")
      else ok (deliver order_id order s)
]
