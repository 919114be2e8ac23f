-- ===== src/Server/Sending.antt =====
-- src/server.cpp and src/wire.cpp: the messages that the server queues, and the wire format.
use mathlib.Core.Path.{subst}
use restuarant_ordering_csf.Base.{
  ℕ, suc, ◌+◌, ◌≤◌, ℤ, pos, negsuc, pos_part, suc_ℤ, int_max, ◌≤ℤ◌, IsPositive, ◌≡◌, ◌≢◌, true, sym,
  List, [], ◌∷◌, length, All, arith,
}
use restuarant_ordering_csf.Model.{Order, ItemStatus, OrderStatus}
use restuarant_ordering_csf.OrderedMap.Entries.{
  Entries, Entries-insert, Entries-erase, Entries-write, Entries-find,
}
use restuarant_ordering_csf.Server.{
  Server, init, unregister_display, process_new_order, is_item_transition, set_item, deliver,
}
use restuarant_ordering_csf.Server.Effects.{
  snapshot, register_display-effect, process_new_order-effect, set_item-effect, deliver-effect,
}
use restuarant_ordering_csf.Server.Filed.{IsFiled, init-IsFiled, step-IsFiled, after_induction}
use restuarant_ordering_csf.Server.Updates.{
  ItemFound, process_item_update-found, process_order_update-found,
}
use restuarant_ordering_csf.Server.Requests.{Request, step, run}
use restuarant_ordering_csf.Server.Outbox.{
  AllSendable, post-AllSendable, post_all-AllSendable, snapshot-IsSendable, admit-IsWireOrder,
  settled-IsWireOrder, item_notices-IsSendable,
}
use restuarant_ordering_csf.Wire.Orders.Shape.{IsWireOrder}
use restuarant_ordering_csf.Wire.Shape.{IsSendable, IsWireMessage}

-- A request as `Wire::decode` gives it to the server.
abbrev pub IsWireRequest : Request → Type 0
IsWireRequest (Request.new_order order) = IsWireOrder order
IsWireRequest (Request.item_update order_id item_id status) =
    IsPositive order_id × IsPositive item_id
IsWireRequest (Request.order_update order_id status) = IsPositive order_id
IsWireRequest _ = Unit

pub record IsPosting (s : Server) : Type 0 where
  pub orders : Entries (λ key. IsWireOrder) s.orders
  pub queues : AllSendable s.queues

given_id : (n : ℤ) → pos 1000 ≤ℤ n → pos_part n ≤ int_max → IsPositive n
given_id (pos n) h k = (omega (arith, h), k)
given_id (negsuc n) h k = absurd (omega (arith, h))

forward_is_valid :
    (cur next : ItemStatus) → is_item_transition cur next ≡ true → next ≢ ItemStatus.invalid
forward_is_valid cur next h e = ground (arith, e)

new_order-IsPosting :
    (order : Order) (s : Server)
    → IsPositive s.next_order_id
    → IsWireOrder order
    → IsPosting s
    → IsPosting (process_new_order order s).1
new_order-IsPosting order s p wire h =
    let admitted = admit-IsWireOrder s.next_order_id order p wire in
    subst (λ made. IsPosting made.1) (sym (process_new_order-effect order s))
      (record {
        orders = Entries-insert (λ key. IsWireOrder) s.next_order_id _ s.orders admitted h.orders;
        queues =
            post-AllSendable s.display_clients _ s.queues (IsWireMessage.disp_order _ admitted)
              h.queues;
      })

set_item-IsPosting :
    (order_id item_id : ℤ) (status : ItemStatus) (s : Server)
    → IsPositive order_id
    → IsPositive item_id
    → (found : ItemFound s order_id item_id status) → IsPosting s
    → IsPosting (set_item order_id item_id status found.order s)
set_item-IsPosting order_id item_id status s po pi found h =
    let valid = forward_is_valid found.item.status status found.forward in
    let wire =
      Entries-find (λ key. IsWireOrder) order_id found.order s.orders h.orders found.has_order in
    rw set_item-effect (record {
      orders =
          Entries-write (λ key. IsWireOrder) order_id _ s.orders
            (settled-IsWireOrder item_id status found.order valid wire) h.orders;
      queues =
          post_all-AllSendable s.display_clients _ s.queues
            (item_notices-IsSendable order_id item_id status _ po pi valid) h.queues;
    })

deliver-IsPosting :
    (order_id : ℤ) (order : Order) (s : Server)
    → IsPositive order_id
    → IsPosting s
    → IsPosting (deliver order_id order s)
deliver-IsPosting order_id order s p h = rw deliver-effect (record {
  orders = Entries-erase (λ key. IsWireOrder) order_id s.orders h.orders;
  queues =
      post-AllSendable s.display_clients _ s.queues
        (IsWireMessage.disp_order_update order_id OrderStatus.delivered p (λ e. cc)) h.queues;
})

step-IsPosting :
    (s : Server) (r : Request)
    → IsFiled s
    → pos_part s.next_order_id ≤ int_max
    → IsWireRequest r
    → IsPosting s
    → IsPosting (step s r)
unfolding step unregister_display
step-IsPosting s (Request.register client) filed room _ h = rw register_display-effect (record {
  orders = h.orders;
  queues =
      post_all-AllSendable (client ∷ []) (snapshot s.orders) s.queues
        (snapshot-IsSendable s.orders h.orders) h.queues;
})
step-IsPosting s (Request.unregister client) filed room _ h = record {
  orders = h.orders;
  queues = h.queues;
}
step-IsPosting s (Request.new_order order) filed room wire h =
    new_order-IsPosting order s (given_id s.next_order_id filed.next room) wire h
step-IsPosting s (Request.item_update order_id item_id status) filed room (po, pi) h =
    after_induction IsPosting s _ h λ t e.
      let (found, same) = process_item_update-found order_id item_id status s t e in
      subst IsPosting (sym same) (set_item-IsPosting order_id item_id status s po pi found h)
step-IsPosting s (Request.order_update order_id status) filed room p h =
    after_induction IsPosting s _ h λ t e.
      let (found, same) = process_order_update-found order_id status s t e in
      subst IsPosting (sym same) (deliver-IsPosting order_id found.order s p h)

suc_part : (n : ℤ) → pos_part (suc_ℤ n) ≤ suc (pos_part n)
suc_part n = ground arith

-- A request gives at most one id.
next-step :
    (s : Server) (r : Request) → pos_part (step s r).next_order_id ≤ suc (pos_part s.next_order_id)
unfolding step unregister_display
next-step s (Request.register client) = rw register_display-effect (omega arith)
next-step s (Request.unregister client) = omega arith
next-step s (Request.new_order order) =
    subst (λ made. pos_part made.1.next_order_id ≤ suc (pos_part s.next_order_id))
      (sym (process_new_order-effect order s)) (suc_part s.next_order_id)
next-step s (Request.item_update order_id item_id status) =
    after_induction (λ u. pos_part u.next_order_id ≤ suc (pos_part s.next_order_id)) s _
      (omega arith)
      λ t e.
        let (found, same) = process_item_update-found order_id item_id status s t e in
        rw (same, set_item-effect) (omega arith)
next-step s (Request.order_update order_id status) =
    after_induction (λ u. pos_part u.next_order_id ≤ suc (pos_part s.next_order_id)) s _
      (omega arith)
      λ t e.
        let (found, same) = process_order_update-found order_id status s t e in
        rw (same, deliver-effect) (omega arith)

run-IsPosting :
    (s : Server) (requests : List Request)
    → IsFiled s
    → pos_part s.next_order_id + length requests ≤ suc int_max
    → All IsWireRequest requests
    → IsPosting s
    → IsPosting (run s requests)
unfolding run
run-IsPosting s [] filed room _ h = h
run-IsPosting s (r ∷ requests) filed room (wire, wires) h =
    run-IsPosting (step s r) requests (step-IsFiled s r filed) (omega (arith, room, next-step s r))
      wires (step-IsPosting s r filed (omega (arith, room)) wire h)

-- After any run of at most 2147482648 requests whose data are as `Wire::decode` gives them
-- (`IsWireRequest`), every message in every queue has the data that `Wire::encode` wants
-- (`IsSendable`).
pub queued-IsSendable :
    (requests : List Request) (client : ℕ)
    → length requests ≤ 2147482648
    → All IsWireRequest requests
    → All IsSendable ((run init requests).queues client).queue
queued-IsSendable requests client few wire =
    (run-IsPosting init requests init-IsFiled (omega (arith, few)) wire
        (record { orders = tt; queues = λ other. tt })).queues
      client
