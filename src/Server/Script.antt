-- ===== src/Server/Script.antt =====
-- src/server.cpp, one access at a time: what a function of the server does between the lock and the
-- unlock of its `Guard` (include/guard.h), as the list of its writes and of its calls of
-- `Client::enqueue`. A function that throws does nothing in between.

pub mod Atomic
pub mod Targets
use restuarant_ordering_csf.Base.{
  ℕ, ℤ, suc_ℤ, ◌&&◌, nat_eq, ◌==◌, ◌!=◌, ◌||◌, ◌≡◌, refl, sym, ap, ◌∙◌, List, [], ◌∷◌, ◌++◌, map,
  Option, some, none, if◌then◌else◌, Bool-cases, inl, inr,
}
use restuarant_ordering_csf.Model.{
  Order, ItemStatus, OrderStatus, item_status_eq, order_status_eq, set_item_status, find_item,
  set_order_status, update_item, duplicate,
}
use restuarant_ordering_csf.Base.{pos}
use restuarant_ordering_csf.Message.{
  Message, MessageType, order_message, order_status_message, item_status_message, duplicate_message,
}
use restuarant_ordering_csf.OrderedMap.{OrderedMap}
use restuarant_ordering_csf.OrderedMap
use restuarant_ordering_csf.Server.{
  Server, enqueue, broadcast_to, broadcast, send_snapshot, register_display, unregister_display,
  insert_client, erase_client, admit, process_new_order, process_item_update, process_order_update,
  is_item_transition, write_order, all_done, auto_transition, set_item, deliver,
}
use restuarant_ordering_csf.Server.Requests.{Request, step}

pub data Act : Type 0 where
  send : (client : ℕ) (msg : Message) → Act
  write_orders : (orders : OrderedMap Order) → Act
  write_clients : (clients : List ℕ) → Act
  write_next_id : (id : ℤ) → Act

unfoldable pub perform : Act → Server → Server
unfolding enqueue
perform (Act.send client msg) s = enqueue client msg s
perform (Act.write_orders orders) s = record s { orders = orders }
perform (Act.write_clients clients) s = record s { display_clients = clients }
perform (Act.write_next_id id) s = record s { next_order_id = id }

unfoldable pub perform_all : List Act → Server → Server
unfolding perform
perform_all [] s = s
perform_all (act ∷ acts) s = perform_all acts (perform act s)

-- `broadcast`
unfoldable pub broadcast_acts : List ℕ → Message → List Act
broadcast_acts clients msg = map (λ client. Act.send client (duplicate_message msg)) clients

-- The loop of `register_display`.
unfoldable pub snapshot_acts : ℕ → OrderedMap Order → List Act
snapshot_acts client [] = []
snapshot_acts client ((id, order) ∷ orders) =
    Act.send client
      (order_message MessageType.disp_order (some (duplicate (pos 0) OrderStatus.invalid order)))
    ∷ snapshot_acts client orders

-- The last part of `process_item_update`.
unfoldable pub transition_acts : ℤ → ItemStatus → Order → OrderedMap Order → List ℕ → List Act
unfolding broadcast_acts
transition_acts order_id item_status order orders clients =
    if (item_status == ItemStatus.in_progress) && (order.status == OrderStatus.new)
    then Act.write_orders
        (OrderedMap.write order_id (set_order_status OrderStatus.in_progress order) orders)
      ∷ broadcast_acts clients
          (order_status_message MessageType.disp_order_update order_id OrderStatus.in_progress)
    else if (item_status == ItemStatus.done) && (order.status == OrderStatus.in_progress)
    then if all_done order.items
      then Act.write_orders
          (OrderedMap.write order_id (set_order_status OrderStatus.done order) orders)
        ∷ broadcast_acts clients
            (order_status_message MessageType.disp_order_update order_id OrderStatus.done)
      else []
    else []

unfoldable pub item_acts : ℤ → ℤ → ItemStatus → Order → Server → List Act
unfolding broadcast_acts transition_acts
item_acts order_id item_id item_status order s =
    let changed = update_item order item_id (set_item_status item_status) in
    let orders = OrderedMap.write order_id changed s.orders in
    Act.write_orders orders
    ∷ (broadcast_acts s.display_clients
          (item_status_message MessageType.disp_item_update order_id item_id item_status)
        ++ transition_acts order_id item_status changed orders s.display_clients)

unfoldable pub delivery_acts : ℤ → Order → Server → List Act
unfolding broadcast_acts
delivery_acts order_id order s =
    let orders =
      OrderedMap.write order_id (set_order_status OrderStatus.delivered order) s.orders in
    Act.write_orders orders
    ∷ (broadcast_acts s.display_clients
          (order_status_message MessageType.disp_order_update order_id OrderStatus.delivered)
        ++ Act.write_orders (OrderedMap.erase order_id orders) ∷ [])

-- The functions, with the state that they find when they have the mutex.
unfoldable pub script : Request → Server → List Act
unfolding snapshot_acts item_acts delivery_acts broadcast_acts
script (Request.register client) s =
    Act.write_clients (insert_client client s.display_clients) ∷ snapshot_acts client s.orders
script (Request.unregister client) s =
    Act.write_clients (erase_client client s.display_clients) ∷ []
script (Request.new_order order) s =
    let id = s.next_order_id in
    let admitted = admit id order in
    Act.write_next_id (suc_ℤ id)
    ∷ Act.write_orders (OrderedMap.insert id admitted s.orders)
    ∷ broadcast_acts s.display_clients (order_message MessageType.disp_order (some admitted))
script (Request.item_update order_id item_id item_status) s =
    elim (OrderedMap.find s.orders order_id) [
      | none ↦ []
      | some order ↦ elim (find_item order item_id) [
        | none ↦ []
        | some item ↦
            if is_item_transition item.status item_status
            then item_acts order_id item_id item_status order s
            else []
      ]
    ]
script (Request.order_update order_id order_status) s = elim (OrderedMap.find s.orders order_id) [
  | none ↦ []
  | some order ↦
      if (order.status != OrderStatus.done) || (order_status != OrderStatus.delivered)
      then []
      else delivery_acts order_id order s
]
