-- ===== src/Server/Updates.antt =====
-- When an update is accepted: exactly on a known order and item, in the one direction.
use restuarant_ordering_csf.Base.{
  ℤ, true, ◌||◌, ◌!=◌, ◌≡◌, ◌↔◌, ◌⊎◌, refl, sym, ap, ◌∙◌, some, arith, Bool-cases, Option-cases,
  inl, inr, eq_sound,
}
use restuarant_ordering_csf.Except.{ok}
use restuarant_ordering_csf.Model.{
  Item, Order, ItemStatus, OrderStatus, item_status_eq, order_status_eq, find_item, set_item_status,
  update_item,
}
use restuarant_ordering_csf.Message.{MessageType, order_status_message}
use restuarant_ordering_csf.OrderedMap
use restuarant_ordering_csf.Server.{
  Server, is_item_transition, set_item, process_item_update, deliver, process_order_update,
}
use restuarant_ordering_csf.Server.Effects.{
  settled, post, post_all, item_notices, set_item-effect, deliver-effect,
}

-- The item that an accepted update is about, and the order it stands in.
pub record ItemFound (s : Server) (order_id item_id : ℤ) (item_status : ItemStatus) : Type 0 where
  pub order : Order
  pub item : Item
  pub has_order : OrderedMap.find s.orders order_id ≡ some order
  pub has_item : find_item order item_id ≡ some item
  pub forward : is_item_transition item.status item_status ≡ true

module _ (order_id item_id : ℤ) (item_status : ItemStatus) (s : Server) where
  pub process_item_update-accepted :
      (found : ItemFound s order_id item_id item_status)
      → process_item_update order_id item_id item_status s
        ≡ ok (set_item order_id item_id item_status found.order s)
  unfolding process_item_update
  process_item_update-accepted found =
      ground (arith, found.has_order, found.has_item, found.forward)

  pub process_item_update-found :
      (t : Server)
      → process_item_update order_id item_id item_status s ≡ ok t
      → (found : ItemFound s order_id item_id item_status) × (t
          ≡ set_item order_id item_id item_status found.order s)
  unfolding process_item_update
  process_item_update-found t h = elim (Option-cases (OrderedMap.find s.orders order_id)) [
    | inl missing ↦ absurd (ground arith)
    | inr (order, has_order) ↦ elim (Option-cases (find_item order item_id)) [
      | inl missing ↦ absurd (ground arith)
      | inr (item, has_item) ↦ elim (Bool-cases (is_item_transition item.status item_status)) [
        | inl forward ↦ (
          record {
            order = order;
            item = item;
            has_order = has_order;
            has_item = has_item;
            forward = forward;
          },
          ground arith,
        )
        | inr backward ↦ absurd (ground arith)
      ]
    ]
  ]

-- The order that a delivery is about.
pub record OrderDone (s : Server) (order_id : ℤ) (order_status : OrderStatus) : Type 0 where
  pub order : Order
  pub has_order : OrderedMap.find s.orders order_id ≡ some order
  pub is_done : order.status ≡ OrderStatus.done
  pub to_delivered : order_status ≡ OrderStatus.delivered

module _ (order_id : ℤ) (order_status : OrderStatus) (s : Server) where
  pub process_order_update-accepted :
      (found : OrderDone s order_id order_status)
      → process_order_update order_id order_status s ≡ ok (deliver order_id found.order s)
  unfolding process_order_update
  process_order_update-accepted found =
      ground (arith, found.has_order, found.is_done, found.to_delivered)

  pub process_order_update-found :
      (t : Server)
      → process_order_update order_id order_status s ≡ ok t
      → (found : OrderDone s order_id order_status) × (t ≡ deliver order_id found.order s)
  unfolding process_order_update
  process_order_update-found t h = elim (Option-cases (OrderedMap.find s.orders order_id)) [
    | inl missing ↦ absurd (ground arith)
    | inr (order, has_order) ↦
        elim (Bool-cases
          ((order.status != OrderStatus.done) || (order_status != OrderStatus.delivered))) [
            | inl wrong ↦ absurd (ground arith)
            | inr right ↦ (
              record {
                order = order;
                has_order = has_order;
                is_done = eq_sound order.status OrderStatus.done (ground arith);
                to_delivered = eq_sound order_status OrderStatus.delivered (ground arith);
              },
              ground arith,
            )
          ]
  ]

is_item_transition-cases :
    (from to : ItemStatus)
    → is_item_transition from to ≡ true
    → ((from ≡ ItemStatus.new) × (to ≡ ItemStatus.in_progress))
      ⊎ ((from ≡ ItemStatus.in_progress) × (to ≡ ItemStatus.done))
is_item_transition-cases ItemStatus.new ItemStatus.in_progress h = inl (refl, refl)
is_item_transition-cases ItemStatus.in_progress ItemStatus.done h = inr (refl, refl)
is_item_transition-cases ItemStatus.new ItemStatus.invalid h = absurd (cc)
is_item_transition-cases ItemStatus.new ItemStatus.new h = absurd (cc)
is_item_transition-cases ItemStatus.new ItemStatus.done h = absurd (cc)
is_item_transition-cases ItemStatus.in_progress ItemStatus.invalid h = absurd (cc)
is_item_transition-cases ItemStatus.in_progress ItemStatus.new h = absurd (cc)
is_item_transition-cases ItemStatus.in_progress ItemStatus.in_progress h = absurd (cc)
is_item_transition-cases ItemStatus.invalid to h = absurd (cc)
is_item_transition-cases ItemStatus.done to h = absurd (cc)

cases-is_item_transition :
    (from to : ItemStatus)
    → ((from ≡ ItemStatus.new) × (to ≡ ItemStatus.in_progress))
      ⊎ ((from ≡ ItemStatus.in_progress) × (to ≡ ItemStatus.done))
    → is_item_transition from to ≡ true
cases-is_item_transition from to (inl (new, cooking)) = rw new (rw cooking refl)
cases-is_item_transition from to (inr (cooking, done)) = rw cooking (rw done refl)

-- An item update is accepted exactly when the server has the order, the order has the item, and the
-- statuses are NEW and IN_PROGRESS or IN_PROGRESS and DONE. The new state is then the one in which the
-- order is written with the item changed and its own status settled, and the messages about the item
-- and about the order, if its status changed, are behind those in the queue of every display client.
pub process_item_update_iff :
    (order_id item_id : ℤ) (item_status : ItemStatus) (s t : Server)
    → (process_item_update order_id item_id item_status s ≡ ok t) ↔ (
        (order : Order) × (item : Item) × (OrderedMap.find s.orders order_id ≡ some order)
        × (find_item order item_id ≡ some item)
        × (((item.status ≡ ItemStatus.new) × (item_status ≡ ItemStatus.in_progress))
            ⊎ ((item.status ≡ ItemStatus.in_progress) × (item_status ≡ ItemStatus.done)))
        × (t ≡ record s {
          orders =
              OrderedMap.write order_id
                (settled item_status (update_item order item_id (set_item_status item_status)))
                s.orders;
          queues =
              post_all s.display_clients
                (item_notices order_id item_id item_status
                  (update_item order item_id (set_item_status item_status)))
                s.queues;
        }))
process_item_update_iff order_id item_id item_status s t = (
  λ h.
      let (found, e) = process_item_update-found order_id item_id item_status s t h in
      (
        found.order,
        found.item,
        found.has_order,
        found.has_item,
        is_item_transition-cases found.item.status item_status found.forward,
        e ∙ set_item-effect order_id item_id item_status found.order s,
      ),
  λ (order, item, has_order, has_item, forward, e).
      process_item_update-accepted order_id item_id item_status s (record {
        order = order;
        item = item;
        has_order = has_order;
        has_item = has_item;
        forward = cases-is_item_transition item.status item_status forward;
      })
      ∙ ap ok (sym (e ∙ sym (set_item-effect order_id item_id item_status order s))),
)

-- An order update is accepted exactly when the server has the order, its status is DONE and the new
-- one is DELIVERED. The new state is then the one without the order, with the message that says so
-- behind those in the queue of every display client.
pub process_order_update_iff :
    (order_id : ℤ) (order_status : OrderStatus) (s t : Server)
    → (process_order_update order_id order_status s ≡ ok t) ↔ (
        (order : Order) × (OrderedMap.find s.orders order_id ≡ some order)
        × (order.status ≡ OrderStatus.done)
        × (order_status ≡ OrderStatus.delivered)
        × (t ≡ record s {
          orders = OrderedMap.erase order_id s.orders;
          queues =
              post s.display_clients
                (order_status_message MessageType.disp_order_update order_id OrderStatus.delivered)
                s.queues;
        }))
process_order_update_iff order_id order_status s t = (
  λ h.
      let (found, e) = process_order_update-found order_id order_status s t h in
      (
        found.order,
        found.has_order,
        found.is_done,
        found.to_delivered,
        e ∙ deliver-effect order_id found.order s,
      ),
  λ (order, has_order, is_done, to_delivered, e).
      process_order_update-accepted order_id order_status s (record {
        order = order;
        has_order = has_order;
        is_done = is_done;
        to_delivered = to_delivered;
      })
      ∙ ap ok (sym (e ∙ sym (deliver-effect order_id order s))),
)
