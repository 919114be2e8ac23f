-- ===== src/Server/Script/Atomic.antt =====
-- src/server.cpp: what a function does access by access is, all together, what the model of the
-- whole function does.
use restuarant_ordering_csf.Base.{
  ℕ, ℤ, suc_ℤ, ◌&&◌, nat_eq, ◌==◌, ◌!=◌, ◌||◌, ◌≡◌, refl, ◌∙◌, List, [], ◌∷◌, ◌++◌, Bool-cases,
  Option-cases, inl, inr, arith,
}
use restuarant_ordering_csf.Model.{
  Order, ItemStatus, OrderStatus, item_status_eq, order_status_eq, set_item_status, find_item,
  set_order_status, update_item,
}
use restuarant_ordering_csf.Message.{
  Message, MessageType, order_status_message, item_status_message,
}
use restuarant_ordering_csf.OrderedMap.{OrderedMap}
use restuarant_ordering_csf.OrderedMap
use restuarant_ordering_csf.Server.{
  Server, broadcast_to, broadcast, send_snapshot, register_display, unregister_display, admit,
  process_new_order, process_item_update, process_order_update, is_item_transition, write_order,
  all_done, auto_transition, set_item, deliver,
}
use restuarant_ordering_csf.Server.Effects.{broadcast-post}
use restuarant_ordering_csf.Server.Requests.{Request, step}
use restuarant_ordering_csf.Server.Script.{
  Act, perform, perform_all, broadcast_acts, snapshot_acts, transition_acts, item_acts,
  delivery_acts, script,
}

pub perform_all-append :
    (xs ys : List Act) (s : Server) → perform_all (xs ++ ys) s ≡ perform_all ys (perform_all xs s)
unfolding perform_all
perform_all-append [] ys s = refl
perform_all-append (x ∷ xs) ys s = perform_all-append xs ys (perform x s)

perform_all-broadcast_to :
    (clients : List ℕ) (msg : Message) (s : Server)
    → perform_all (broadcast_acts clients msg) s ≡ broadcast_to clients msg s
unfolding perform_all perform broadcast_acts broadcast_to
perform_all-broadcast_to [] msg s = refl
perform_all-broadcast_to (client ∷ clients) msg s = perform_all-broadcast_to clients msg _

perform_all-broadcast :
    (msg : Message) (s : Server)
    → perform_all (broadcast_acts s.display_clients msg) s ≡ broadcast msg s
unfolding broadcast
perform_all-broadcast msg s = perform_all-broadcast_to s.display_clients msg s

perform_all-snapshot_acts :
    (client : ℕ) (orders : OrderedMap Order) (s : Server)
    → perform_all (snapshot_acts client orders) s ≡ send_snapshot client orders s
unfolding perform_all perform snapshot_acts send_snapshot
perform_all-snapshot_acts client [] s = refl
perform_all-snapshot_acts client ((id, order) ∷ orders) s =
    perform_all-snapshot_acts client orders _

perform_all-transition_acts :
    (order_id : ℤ) (item_status : ItemStatus) (order : Order) (s : Server)
    → perform_all (transition_acts order_id item_status order s.orders s.display_clients) s
      ≡ auto_transition order_id item_status order s
unfolding perform_all perform transition_acts auto_transition
perform_all-transition_acts order_id item_status order s =
    elim (Bool-cases
      ((item_status == ItemStatus.in_progress) && (order.status == OrderStatus.new))) [
        | inl first ↦ rw first (
            perform_all-broadcast _
              (write_order order_id (set_order_status OrderStatus.in_progress order) s))
        | inr not_first ↦
            elim (Bool-cases
              ((item_status == ItemStatus.done) && (order.status == OrderStatus.in_progress))) [
                | inl last ↦ elim (Bool-cases (all_done order.items)) [
                  | inl all ↦
                      rw (not_first, last, all)
                        (perform_all-broadcast _
                          (write_order order_id (set_order_status OrderStatus.done order) s))
                  | inr some_left ↦ rw (not_first, last, some_left) refl
                ]
                | inr not_last ↦ rw (not_first, not_last) refl
              ]
      ]

perform_all-item_acts :
    (order_id item_id : ℤ) (item_status : ItemStatus) (order : Order) (s : Server)
    → perform_all (item_acts order_id item_id item_status order s) s
      ≡ set_item order_id item_id item_status order s
unfolding perform_all perform item_acts set_item
perform_all-item_acts order_id item_id item_status order s =
    let changed = update_item order item_id (set_item_status item_status) in
    let written = write_order order_id changed s in
    let notice = item_status_message MessageType.disp_item_update order_id item_id item_status in
    perform_all-append (broadcast_acts s.display_clients notice) _ written
    ∙ rw (perform_all-broadcast notice written, broadcast-post notice written)
        (perform_all-transition_acts order_id item_status changed _)

perform_all-delivery_acts :
    (order_id : ℤ) (order : Order) (s : Server)
    → perform_all (delivery_acts order_id order s) s ≡ deliver order_id order s
unfolding perform_all perform delivery_acts deliver
perform_all-delivery_acts order_id order s =
    let written = write_order order_id (set_order_status OrderStatus.delivered order) s in
    let notice =
      order_status_message MessageType.disp_order_update order_id OrderStatus.delivered in
    perform_all-append (broadcast_acts s.display_clients notice) _ written
    ∙ rw (perform_all-broadcast notice written, broadcast-post notice written) refl

-- The accesses of a function, one after the other, are the function as a whole, on every branch.
pub perform_all-script : (r : Request) (s : Server) → perform_all (script r s) s ≡ step s r
unfolding script step perform_all perform process_new_order process_item_update process_order_update
    register_display unregister_display
perform_all-script (Request.register client) s = perform_all-snapshot_acts client s.orders _
perform_all-script (Request.unregister client) s = refl
perform_all-script (Request.new_order order) s = perform_all-broadcast _ (record s {
  next_order_id = suc_ℤ s.next_order_id;
  orders = OrderedMap.insert s.next_order_id (admit s.next_order_id order) s.orders;
})
perform_all-script (Request.item_update order_id item_id item_status) s =
    elim (Option-cases (OrderedMap.find s.orders order_id)) [
      | inl unknown ↦ ground (arith, unknown)
      | inr (order, known) ↦ elim (Option-cases (find_item order item_id)) [
        | inl no_item ↦ ground (arith, known, no_item)
        | inr (item, found) ↦ elim (Bool-cases (is_item_transition item.status item_status)) [
          | inl allowed ↦ ground (
            arith,
            known,
            found,
            allowed,
            perform_all-item_acts order_id item_id item_status order s,
          )
          | inr refused ↦ ground (arith, known, found, refused)
        ]
      ]
    ]
perform_all-script (Request.order_update order_id order_status) s =
    elim (Option-cases (OrderedMap.find s.orders order_id)) [
      | inl unknown ↦ ground (arith, unknown)
      | inr (order, known) ↦
          elim (Bool-cases
            ((order.status != OrderStatus.done) || (order_status != OrderStatus.delivered))) [
              | inl refused ↦ ground (arith, known, refused)
              | inr allowed ↦
                  ground (arith, known, allowed, perform_all-delivery_acts order_id order s)
            ]
    ]
