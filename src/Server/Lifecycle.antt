-- ===== src/Server/Lifecycle.antt =====
-- src/server.cpp: the status of an order as a function of the statuses of its items.
use mathlib.Core.Path.{subst}
use restuarant_ordering_csf.Base.{
  ℤ, int_eq, Bool, true, false, ◌&&◌, ◌==◌, ◌≡◌, ◌≢◌, refl, sym, List, [], ◌∷◌, map, some, All,
  arith, if◌then◌else◌, eq_refl,
}
use restuarant_ordering_csf.Model.{
  Item, Order, ItemStatus, OrderStatus, item_status_eq, order_status_eq, set_order_id,
  set_item_status, first_item, find_item, update_first, update_item,
}
use restuarant_ordering_csf.Model.Orders.{first_item-update_first}
use restuarant_ordering_csf.OrderedMap.Entries.{
  Entries, Entries-insert, Entries-erase, Entries-write, Entries-find,
}
use restuarant_ordering_csf.Server.{Server, admit, is_item_transition, all_done, set_item}
use restuarant_ordering_csf.Server.Effects.{
  register_display-effect, process_new_order-effect, settled, settled_status, set_item-effect,
  deliver-effect,
}
use restuarant_ordering_csf.Server.Filed.{after_induction}
use restuarant_ordering_csf.Server.Updates.{
  ItemFound, process_item_update-found, process_order_update-found,
}
use restuarant_ordering_csf.Server.{unregister_display}
use restuarant_ordering_csf.Server.Requests.{Request, step, run}

unfoldable pub all_new : List Item → Bool
all_new [] = true
all_new (item ∷ items) = (item.status == ItemStatus.new) && all_new items

-- NEW while all items are, DONE when all items are, and IN_PROGRESS in between.
unfoldable pub status_of : List Item → OrderStatus
unfolding all_new all_done
status_of items =
    if all_new items
    then OrderStatus.new
    else if all_done items
    then OrderStatus.done
    else OrderStatus.in_progress

abbrev pub IsCoherent : Order → Type 0
IsCoherent order = order.status ≡ status_of order.items

not_all_new :
    (items : List Item) (item_id : ℤ) (item : Item)
    → first_item items item_id ≡ some item
    → item.status ≢ ItemStatus.new
    → all_new items ≡ false
unfolding all_new first_item
not_all_new [] item_id item h _ = absurd (cc)
not_all_new (x ∷ items) item_id item h ne =
    ground (arith, item_status_eq.beq_iff x.status ItemStatus.new, not_all_new items item_id item)

not_all_done :
    (items : List Item) (item_id : ℤ) (item : Item)
    → first_item items item_id ≡ some item
    → item.status ≢ ItemStatus.done
    → all_done items ≡ false
unfolding all_done first_item
not_all_done [] item_id item h _ = absurd (cc)
not_all_done (x ∷ items) item_id item h ne =
    ground (arith, item_status_eq.beq_iff x.status ItemStatus.done, not_all_done items item_id item)

found_updated :
    (items : List Item) (item_id : ℤ) (item : Item) (status : ItemStatus)
    → first_item items item_id ≡ some item
    → first_item (update_first items item_id (set_item_status status)) item_id
      ≡ some (set_item_status status item)
found_updated items item_id item status h =
    rw
      (
        first_item-update_first item_id (set_item_status status) (λ x. refl) items item_id,
        eq_refl item_id,
        h,
      )
      refl

-- An item that goes forward takes the order with it.
pub settled-IsCoherent :
    (order : Order) (item_id : ℤ) (item : Item) (status : ItemStatus)
    → find_item order item_id ≡ some item
    → is_item_transition item.status status ≡ true
    → IsCoherent order
    → IsCoherent (settled status (update_item order item_id (set_item_status status)))
unfolding settled settled_status status_of find_item
settled-IsCoherent order item_id item status found forward h =
    let items = order.items in
    let changed = update_first items item_id (set_item_status status) in
    let now = found_updated items item_id item status found in
    ground (
      arith,
      not_all_new items item_id item found,
      not_all_done items item_id item found,
      not_all_new changed item_id (set_item_status status item) now,
      not_all_done changed item_id (set_item_status status item) now,
      item_status_eq.beq_iff item.status ItemStatus.new,
      item_status_eq.beq_iff item.status ItemStatus.in_progress,
      item_status_eq.beq_iff status ItemStatus.in_progress,
      item_status_eq.beq_iff status ItemStatus.done,
    )

admitted_all_new :
    (id : ℤ) (items : List Item)
    → all_new items ≡ true
    → all_new (map (set_order_id id) items) ≡ true
unfolding all_new
admitted_all_new id [] h = refl
admitted_all_new id (x ∷ items) h = ground (arith, admitted_all_new id items)

pub admit-IsCoherent :
    (id : ℤ) (order : Order) → all_new order.items ≡ true → IsCoherent (admit id order)
unfolding admit status_of
admit-IsCoherent id order h = rw (admitted_all_new id order.items h) refl

abbrev pub AllCoherent : Server → Type 0
AllCoherent s = Entries (λ key. IsCoherent) s.orders

-- The items of a new order are NEW; other requests are not restricted.
abbrev pub StartsNew : Request → Type 0
StartsNew (Request.new_order order) = all_new order.items ≡ true
StartsNew _ = Unit

set_item-AllCoherent :
    (order_id item_id : ℤ) (status : ItemStatus) (s : Server)
    → (found : ItemFound s order_id item_id status) → AllCoherent s
    → AllCoherent (set_item order_id item_id status found.order s)
set_item-AllCoherent order_id item_id status s found h =
    let coherent =
      Entries-find (λ key. IsCoherent) order_id found.order s.orders h found.has_order in
    rw set_item-effect (
      Entries-write (λ key. IsCoherent) order_id _ s.orders
        (settled-IsCoherent found.order item_id found.item status found.has_item found.forward
          coherent)
        h)

pub step-AllCoherent :
    (s : Server) (request : Request)
    → StartsNew request
    → AllCoherent s
    → AllCoherent (step s request)
unfolding step unregister_display
step-AllCoherent s (Request.register client) _ h = rw register_display-effect h
step-AllCoherent s (Request.unregister client) _ h = h
step-AllCoherent s (Request.new_order order) new h =
    subst (λ made. AllCoherent made.1) (sym (process_new_order-effect order s))
      (Entries-insert (λ key. IsCoherent) s.next_order_id _ s.orders
        (admit-IsCoherent s.next_order_id order new) h)
step-AllCoherent s (Request.item_update order_id item_id status) _ h =
    after_induction AllCoherent s _ h λ t e.
      let (found, same) = process_item_update-found order_id item_id status s t e in
      subst AllCoherent (sym same) (set_item-AllCoherent order_id item_id status s found h)
step-AllCoherent s (Request.order_update order_id status) _ h =
    after_induction AllCoherent s _ h λ t e.
      let (found, same) = process_order_update-found order_id status s t e in
      subst AllCoherent (sym same)
        (rw deliver-effect (Entries-erase (λ key. IsCoherent) order_id s.orders h))

-- Any run of requests whose new orders have only NEW items keeps the status of every order the one
-- that its items stand for, if it was so before: NEW while all items are NEW, DONE when all are
-- DONE, and IN_PROGRESS otherwise.
pub run-AllCoherent :
    (s : Server) (requests : List Request)
    → All StartsNew requests
    → AllCoherent s
    → AllCoherent (run s requests)
unfolding run
run-AllCoherent s [] _ h = h
run-AllCoherent s (request ∷ requests) (new, news) h =
    run-AllCoherent (step s request) requests news (step-AllCoherent s request new h)
