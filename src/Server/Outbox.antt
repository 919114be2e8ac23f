-- ===== src/Server/Outbox.antt =====
-- src/server.cpp and src/wire.cpp: what the server puts into the queues can be sent.

use restuarant_ordering_csf.Base.{
  ℕ, ℤ, IsPositive, nat_eq, int_eq, ◌==◌, ◌&&◌, ◌≢◌, refl, List, [], ◌∷◌, map, All, All-append,
  arith, Bool-cases, inl, inr,
}
use restuarant_ordering_csf.Model.{
  Item, Order, ItemStatus, OrderStatus, item_status_eq, order_status_eq, set_order_id,
  set_item_status, update_first, update_item,
}
use restuarant_ordering_csf.Message.{Message}
use restuarant_ordering_csf.MessageQueue.{MessageQueue}
use restuarant_ordering_csf.MessageQueue
use restuarant_ordering_csf.OrderedMap.{OrderedMap}
use restuarant_ordering_csf.OrderedMap.Entries.{Entries}
use restuarant_ordering_csf.Server.{admit, all_done}
use restuarant_ordering_csf.Server.Effects.{
  Queues, put, post, post_all, snapshot, settled_status, settled, settled_notices, item_notices,
}
use restuarant_ordering_csf.Wire.Orders.Shape.{IsWireItem, IsWireOrder}
use restuarant_ordering_csf.Wire.Shape.{IsSendable, IsWireMessage}

-- Every message of every queue is one that `encode` accepts.
abbrev pub AllSendable : Queues → Type 0
AllSendable queues = (client : ℕ) → All IsSendable (queues client).queue

put-AllSendable :
    (client : ℕ) (msg : Message) (queues : Queues)
    → IsSendable msg
    → AllSendable queues
    → AllSendable (put client msg queues)
unfolding put MessageQueue.enqueue
put-AllSendable client msg queues p h other = elim (Bool-cases (client == other)) [
  | inl same ↦ rw same (All-append IsSendable (queues other).queue (msg ∷ []) (h other) (p, tt))
  | inr another ↦ rw another (h other)
]

pub post-AllSendable :
    (clients : List ℕ) (msg : Message) (queues : Queues)
    → IsSendable msg
    → AllSendable queues
    → AllSendable (post clients msg queues)
unfolding post
post-AllSendable [] msg queues p h = h
post-AllSendable (client ∷ clients) msg queues p h =
    post-AllSendable clients msg (put client msg queues) p (put-AllSendable client msg queues p h)

pub post_all-AllSendable :
    (clients : List ℕ) (msgs : List Message) (queues : Queues)
    → All IsSendable msgs
    → AllSendable queues
    → AllSendable (post_all clients msgs queues)
unfolding post_all
post_all-AllSendable clients [] queues _ h = h
post_all-AllSendable clients (msg ∷ msgs) queues (p, ps) h =
    post_all-AllSendable clients msgs (post clients msg queues) ps
      (post-AllSendable clients msg queues p h)

pub snapshot-IsSendable :
    (orders : OrderedMap Order)
    → Entries (λ key. IsWireOrder) orders
    → All IsSendable (snapshot orders)
unfolding snapshot
snapshot-IsSendable [] _ = tt
snapshot-IsSendable ((key, order) ∷ orders) (h, hs) =
    (IsWireMessage.disp_order order h, snapshot-IsSendable orders hs)

admit_items :
    (id : ℤ) (items : List Item)
    → IsPositive id
    → All IsWireItem items
    → All IsWireItem (map (set_order_id id) items)
admit_items id [] _ _ = tt
admit_items id (x ∷ items) p (h, hs) = (
  record { order_id = p; id = h.id; status = h.status; desc = h.desc; qty = h.qty },
  admit_items id items p hs,
)

map-some_item : (id : ℤ) (items : List Item) → items ≢ [] → map (set_order_id id) items ≢ []
map-some_item id [] h = h
map-some_item id (x ∷ items) h = λ e. cc

pub admit-IsWireOrder :
    (id : ℤ) (order : Order) → IsPositive id → IsWireOrder order → IsWireOrder (admit id order)
unfolding admit
admit-IsWireOrder id order p h = record {
  id = p;
  status = λ e. cc;
  some_item = map-some_item id order.items h.some_item;
  items = admit_items id order.items p h.items;
}

updated_items :
    (item_id : ℤ) (status : ItemStatus) (items : List Item)
    → status ≢ ItemStatus.invalid
    → All IsWireItem items
    → All IsWireItem (update_first items item_id (set_item_status status))
unfolding update_first
updated_items item_id status [] _ _ = tt
updated_items item_id status (x ∷ items) valid (h, hs) =
    let changed : IsWireItem (set_item_status status x) = record {
      order_id = h.order_id;
      id = h.id;
      status = valid;
      desc = h.desc;
      qty = h.qty;
    } in
    elim (Bool-cases (x.id == item_id)) [
      | inl hit ↦ rw hit (changed, hs)
      | inr miss ↦ rw miss (h, updated_items item_id status items valid hs)
    ]

updated-some_item :
    (item_id : ℤ) (status : ItemStatus) (items : List Item)
    → items ≢ []
    → update_first items item_id (set_item_status status) ≢ []
unfolding update_first
updated-some_item item_id status [] h = absurd (h refl)
updated-some_item item_id status (x ∷ items) h = λ e. ground (arith, e)

settled_valid :
    (status : ItemStatus) (order : Order)
    → order.status ≢ OrderStatus.invalid
    → settled_status status order ≢ OrderStatus.invalid
unfolding settled_status
settled_valid status order h e = ground (arith, h, e)

pub settled-IsWireOrder :
    (item_id : ℤ) (status : ItemStatus) (order : Order)
    → status ≢ ItemStatus.invalid
    → IsWireOrder order
    → IsWireOrder (settled status (update_item order item_id (set_item_status status)))
unfolding settled
settled-IsWireOrder item_id status order valid h = record {
  id = h.id;
  status = settled_valid status (update_item order item_id (set_item_status status)) h.status;
  some_item = updated-some_item item_id status order.items h.some_item;
  items = updated_items item_id status order.items valid h.items;
}

settled_notices-IsSendable :
    (order_id : ℤ) (status : ItemStatus) (order : Order)
    → IsPositive order_id
    → All IsSendable (settled_notices order_id status order)
unfolding settled_notices
settled_notices-IsSendable order_id status order p =
    elim (Bool-cases ((status == ItemStatus.in_progress) && (order.status == OrderStatus.new))) [
      | inl first ↦
          rw first
            (IsWireMessage.disp_order_update order_id OrderStatus.in_progress p (λ e. cc), tt)
      | inr not_first ↦
          elim (Bool-cases (
            ((status == ItemStatus.done) && (order.status == OrderStatus.in_progress))
            && all_done order.items)) [
              | inl last ↦
                  rw (not_first, last)
                    (IsWireMessage.disp_order_update order_id OrderStatus.done p (λ e. cc), tt)
              | inr not_last ↦ rw (not_first, not_last) tt
            ]
    ]

pub item_notices-IsSendable :
    (order_id item_id : ℤ) (status : ItemStatus) (order : Order)
    → IsPositive order_id
    → IsPositive item_id
    → status ≢ ItemStatus.invalid
    → All IsSendable (item_notices order_id item_id status order)
unfolding item_notices
item_notices-IsSendable order_id item_id status order po pi valid = (
  IsWireMessage.disp_item_update order_id item_id status po pi valid,
  settled_notices-IsSendable order_id status order po,
)
