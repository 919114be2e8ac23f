-- ===== src/Server/Delivery.antt =====
-- src/server.cpp: an order whose items have ids of their own can be cooked and delivered.
mod Items
pub use Items.{Apart, DistinctIds, cook_item, cook}
use Items.{Cooking, Cooked, cooked}
use mathlib.Core.Path.{subst}
use restuarant_ordering_csf.Base.{
  map, ℤ, int_eq, ◌==◌, Bool, true, false, ◌&&◌, ◌!=◌, not, ◌≡◌, ◌≢◌, refl, sym, ap, ◌∙◌, List, [],
  ◌∷◌, ◌++◌, append_assoc, append-nil, some, none, All, All-append, arith, if◌then◌else◌, eq_refl,
  eq_of_ne,
}
use mathlib.Core.Option
use restuarant_ordering_csf.Except.{ok}
use restuarant_ordering_csf.Model.{
  set_order_id, Item, Order, ItemStatus, OrderStatus, item_status_eq, set_item_status, first_item,
  find_item, update_first, update_item,
}
use restuarant_ordering_csf.OrderedMap
use restuarant_ordering_csf.OrderedMap.Sorted.{find-erase}
use restuarant_ordering_csf.Server.{Server, admit, process_new_order, is_item_transition, all_done}
use restuarant_ordering_csf.Server.Effects.{
  settled, process_new_order-effect, set_item-effect, deliver-effect,
}
use restuarant_ordering_csf.Server.Filed.{IsFiled, process_new_order-IsFiled, run-IsFiled}
use restuarant_ordering_csf.Server.Lifecycle.{
  all_new, status_of, IsCoherent, admit-IsCoherent, settled-IsCoherent,
}
use restuarant_ordering_csf.Server.Updates.{
  ItemFound, OrderDone, process_item_update-accepted, process_order_update-accepted,
}
use restuarant_ordering_csf.Server.Requests.{Request, after, step, run, run-append}

delivered_gone :
    (s : Server) (id : ℤ)
    → IsFiled s
    → Cooked s id
    → OrderedMap.find (step s (Request.order_update id OrderStatus.delivered)).orders id ≡ none
unfolding step
delivered_gone s id filed c =
    let found : OrderDone s id OrderStatus.delivered = record {
      order = c.order;
      has_order = c.kept;
      is_done = c.done;
      to_delivered = refl;
    } in
    ap (λ m. OrderedMap.find (after s m).orders id)
      (process_order_update-accepted id OrderStatus.delivered s found)
    ∙ ap (λ (t : Server). OrderedMap.find t.orders id) (deliver-effect id c.order s)
    ∙ find-erase id s.orders id filed.sorted
    ∙ rw (eq_refl id) refl

-- The order id of an item has no part in this.
module _ (id : ℤ) where
  cook-map : (items : List Item) → cook id (map (set_order_id id) items) ≡ cook id items
  unfolding cook
  cook-map [] = refl
  cook-map (x ∷ items) = ap (λ rest. cook_item id x ++ rest) (cook-map items)

  map-Apart :
      (item_id : ℤ) (items : List Item)
      → Apart item_id items
      → Apart item_id (map (set_order_id id) items)
  map-Apart item_id [] h = h
  map-Apart item_id (x ∷ items) (ne, apart) = (ne, map-Apart item_id items apart)

  map-DistinctIds :
      (items : List Item) → DistinctIds items → DistinctIds (map (set_order_id id) items)
  map-DistinctIds [] h = h
  map-DistinctIds (x ∷ items) (apart, distinct) =
      (map-Apart x.id items apart, map-DistinctIds items distinct)

  map-new :
      (items : List Item)
      → All (λ (y : Item). y.status ≡ ItemStatus.new) items
      → All (λ (y : Item). y.status ≡ ItemStatus.new) (map (set_order_id id) items)
  map-new [] h = h
  map-new (x ∷ items) (new, news) = (new, map-new items news)

  map-some_item : (items : List Item) → items ≢ [] → map (set_order_id id) items ≢ []
  map-some_item [] h = h
  map-some_item (x ∷ items) h = λ e. cc

news_all_new :
    (items : List Item) → All (λ (y : Item). y.status ≡ ItemStatus.new) items → all_new items ≡ true
unfolding all_new
news_all_new [] _ = refl
news_all_new (x ∷ items) (new, news) = rw (new, news_all_new items news) refl

Apart-from_none : (items : List Item) → All (λ (y : Item). Apart y.id []) items
Apart-from_none [] = tt
Apart-from_none (x ∷ items) = (tt, Apart-from_none items)

-- A new order with at least one item, whose items are NEW and have different ids, made on a server
-- whose orders are filed (`IsFiled`), is brought to its delivery by the updates of its items to
-- IN_PROGRESS and DONE, one item after the other, and the update of the order to DELIVERED: the
-- server then does not hold it any more.
pub new_order-delivered :
    (s : Server) (order : Order)
    → IsFiled s
    → order.items ≢ []
    → All (λ (item : Item). item.status ≡ ItemStatus.new) order.items
    → DistinctIds order.items
    → OrderedMap.find
        (run (process_new_order order s).1 (
          cook s.next_order_id order.items
          ++ Request.order_update s.next_order_id OrderStatus.delivered ∷ [])).orders
        s.next_order_id
      ≡ none
unfolding run admit all_done
new_order-delivered s order filed some_item news distinct =
    let id = s.next_order_id in
    let t = (process_new_order order s).1 in
    let items = map (set_order_id id) order.items in
    let filed_t = process_new_order-IsFiled order s filed in
    let admitted : Cooking t id [] items = record {
      order = admit id order;
      kept =
          ap (λ made. OrderedMap.find made.1.orders id) (process_new_order-effect order s)
          ∙ OrderedMap.find-insert id (admit id order) s.orders id
          ∙ rw (eq_refl id) refl;
      parted = refl;
      some_item = map-some_item id order.items some_item;
      coherent = admit-IsCoherent id order (news_all_new order.items news);
    } in
    let ready : Cooked (run t (cook id order.items)) id =
      subst (λ requests. Cooked (run t requests) id) (cook-map id order.items)
        (cooked t id [] items admitted refl (Apart-from_none items)
          (map-DistinctIds id order.items distinct) (map-new id order.items news)) in
    ap (λ (u : Server). OrderedMap.find u.orders id)
      (run-append t (cook id order.items) (Request.order_update id OrderStatus.delivered ∷ []))
    ∙ delivered_gone (run t (cook id order.items)) id (run-IsFiled t (cook id order.items) filed_t)
        ready
