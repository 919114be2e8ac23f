-- ===== src/Display/Replay.antt =====
-- What the handlers of a display client do with the messages that the server sends.
use restuarant_ordering_csf.Base.{
  ℤ, pos, ◌≤ℤ◌, ◌<ℤ◌, int_eq, ◌≡◌, ◌≢◌, refl, sym, ap, ◌∙◌, List, [], ◌∷◌, ◌++◌, append_assoc,
  append-nil, some, arith,
}
use mathlib.Core.Path.{subst}
use restuarant_ordering_csf.Except.{Result, ok, err, ◌>>=◌}
use restuarant_ordering_csf.Model.{
  Item, Order, ItemStatus, OrderStatus, item_status_eq, order_status_eq, set_item_status,
  set_order_status, find_item, update_item,
}
use restuarant_ordering_csf.Model.Orders.{duplicate_lem}
use restuarant_ordering_csf.Message.{
  Message, MessageType, order_message, order_status_message, item_status_message, message_type_eq,
}
use restuarant_ordering_csf.OrderedMap.{OrderedMap}
use restuarant_ordering_csf.OrderedMap
use restuarant_ordering_csf.OrderedMap.Sorted.{IsSorted, Above}
use restuarant_ordering_csf.OrderedMap.Entries.{Entries}
use restuarant_ordering_csf.Server.Effects.{snapshot}
use restuarant_ordering_csf.Display.{
  Orders, handle_disp_order, handle_disp_item_update, handle_disp_order_update, handle, replay,
}

bind_replay :
    (m : Result Orders) (f g h : Orders → Result Orders)
    → ((orders : Orders) → f orders ≡ (g orders >>= h))
    → (m >>= f) ≡ (m >>= g >>= h)
bind_replay (ok orders) f g h e = e orders
bind_replay (err x) f g h e = refl

pub replay-append :
    (xs ys : List Message) (orders : Orders)
    → replay (xs ++ ys) orders ≡ (replay xs orders >>= replay ys)
unfolding replay
replay-append [] ys orders = refl
replay-append (x ∷ xs) ys orders =
    bind_replay (handle x orders) (replay (xs ++ ys)) (replay xs) (replay ys)
      (λ next. replay-append xs ys next)

-- A new order is inserted under its id.
pub handle-disp_order :
    (order : Order) (orders : Orders)
    → handle (order_message MessageType.disp_order (some order)) orders
      ≡ ok (OrderedMap.insert order.id order orders)
unfolding handle handle_disp_order
handle-disp_order order orders =
    ap (λ o. ok (OrderedMap.insert order.id o orders))
      (duplicate_lem (pos 0) OrderStatus.invalid order)

-- A known item of a known order gets the status.
pub handle-disp_item_update :
    (order_id item_id : ℤ) (status : ItemStatus) (order : Order) (item : Item) (orders : Orders)
    → pos 0 ≤ℤ order_id
    → pos 0 ≤ℤ item_id
    → status ≢ ItemStatus.invalid
    → OrderedMap.find orders order_id ≡ some order
    → find_item order item_id ≡ some item
    → handle (item_status_message MessageType.disp_item_update order_id item_id status) orders
      ≡ ok (OrderedMap.write order_id (update_item order item_id (set_item_status status)) orders)
unfolding handle handle_disp_item_update
handle-disp_item_update order_id item_id status order item orders ho hi hs has_order has_item =
    ground (arith, item_status_eq.beq_iff status ItemStatus.invalid, has_order, has_item)

-- A known order gets a status other than DELIVERED,
pub handle-disp_order_update :
    (order_id : ℤ) (status : OrderStatus) (order : Order) (orders : Orders)
    → pos 0 ≤ℤ order_id
    → status ≢ OrderStatus.invalid
    → status ≢ OrderStatus.delivered
    → OrderedMap.find orders order_id ≡ some order
    → handle (order_status_message MessageType.disp_order_update order_id status) orders
      ≡ ok (OrderedMap.write order_id (set_order_status status order) orders)
unfolding handle handle_disp_order_update
handle-disp_order_update order_id status order orders ho hs hd has_order = ground (
  arith,
  order_status_eq.beq_iff status OrderStatus.invalid,
  order_status_eq.beq_iff status OrderStatus.delivered,
  has_order,
)

-- and is dropped when it is DELIVERED.
pub handle-delivered :
    (order_id : ℤ) (order : Order) (orders : Orders)
    → pos 0 ≤ℤ order_id
    → OrderedMap.find orders order_id ≡ some order
    → handle
        (order_status_message MessageType.disp_order_update order_id OrderStatus.delivered)
        orders
      ≡ ok (OrderedMap.erase order_id orders)
unfolding handle handle_disp_order_update
handle-delivered order_id order orders ho has_order = ground (arith, has_order)

above_last :
    (k key : ℤ) (value : Order) (front back : Orders)
    → Above k (front ++ (key, value) ∷ back)
    → k <ℤ key
above_last k key value [] back (h, _) = h
above_last k key value ((j, u) ∷ front) back (_, h) = above_last k key value front back h

-- A map whose keys ascend takes a key above all of them at its end.
insert-last :
    (front : Orders) (key : ℤ) (value : Order) (back : Orders)
    → IsSorted (front ++ (key, value) ∷ back)
    → OrderedMap.insert key value front ≡ front ++ (key, value) ∷ []
unfolding OrderedMap.insert
insert-last [] key value back _ = refl
insert-last ((k, v) ∷ front) key value back (above, sorted) = ground (
  arith,
  int_eq.beq_iff k key,
  above_last k key value front back above,
  insert-last front key value back sorted,
)

abbrev pub HasOwnId : ℤ → Order → Type 0
HasOwnId key order = order.id ≡ key

replay_from-snapshot :
    (front back : Orders)
    → IsSorted (front ++ back)
    → Entries HasOwnId back
    → replay (snapshot back) front ≡ ok (front ++ back)
unfolding replay snapshot
replay_from-snapshot front [] _ _ = ap ok (sym (append-nil front))
replay_from-snapshot front ((key, order) ∷ back) sorted (own, owns) =
    let stored : OrderedMap.insert order.id order front ≡ front ++ (key, order) ∷ [] =
      ap (λ k. OrderedMap.insert k order front) own ∙ insert-last front key order back sorted in
    ap (λ m. m >>= replay (snapshot back)) (handle-disp_order order front ∙ ap ok stored)
    ∙ replay_from-snapshot (front ++ (key, order) ∷ []) back
        (subst IsSorted (sym (append_assoc front ((key, order) ∷ []) back)) sorted) owns
    ∙ ap ok (append_assoc front ((key, order) ∷ []) back)

-- A client that starts empty and replays the messages about all orders, ends with these orders.
pub replay-snapshot :
    (orders : Orders)
    → IsSorted orders
    → Entries HasOwnId orders
    → replay (snapshot orders) [] ≡ ok orders
replay-snapshot orders sorted own = replay_from-snapshot [] orders sorted own
