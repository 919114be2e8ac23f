-- ===== src/Server/Stuck.antt =====
-- src/server.cpp: `process_new_order` takes the statuses of the items as they come, so an order may
-- come with items that are DONE already; no update of an item can then move it on.
use mathlib.Core.Path.{subst}
use restuarant_ordering_csf.Base.{
  ℤ, int_eq, ◌==◌, ◌<ℤ◌, true, ◌≡◌, refl, sym, ap, ◌∙◌, List, [], ◌∷◌, map, some, arith, Bool-cases,
  inl, inr, eq_sound, eq_refl,
}
use restuarant_ordering_csf.Model.{
  Item, Order, ItemStatus, OrderStatus, item_status_eq, set_order_id, first_item, find_item,
}
use restuarant_ordering_csf.OrderedMap
use restuarant_ordering_csf.OrderedMap.Sorted.{find-erase}
use restuarant_ordering_csf.OrderedMap.Entries.{Entries-find}
use restuarant_ordering_csf.Server.{
  Server, unregister_display, admit, process_new_order, all_done, set_item, deliver,
}
use restuarant_ordering_csf.Server.Effects.{
  register_display-effect, process_new_order-effect, set_item-effect, deliver-effect,
}
use restuarant_ordering_csf.Server.Filed.{
  IsFiled, IsFiledOrder, step-IsFiled, process_new_order-IsFiled, after_induction,
}
use restuarant_ordering_csf.Server.Updates.{
  ItemFound, OrderDone, process_item_update-found, process_order_update-found,
}
use restuarant_ordering_csf.Server.Requests.{Request, step, run}

found_done :
    (items : List Item) (item_id : ℤ) (item : Item)
    → all_done items ≡ true
    → first_item items item_id ≡ some item
    → item.status ≡ ItemStatus.done
unfolding all_done first_item
found_done [] item_id item _ h = absurd (cc)
found_done (x ∷ items) item_id item done h =
    ground (arith, item_status_eq.beq_iff x.status ItemStatus.done, found_done items item_id item)

-- An order as the server keeps it, NEW with only DONE items.
pub record IsStuck (s : Server) (id : ℤ) (order : Order) : Type 0 where
  pub kept : OrderedMap.find s.orders id ≡ some order
  pub is_new : order.status ≡ OrderStatus.new
  pub items_done : all_done order.items ≡ true

module _ (s : Server) (id : ℤ) (order : Order) (filed : IsFiled s)
    (stuck : IsStuck s id order) where
  order_given : id <ℤ s.next_order_id
  order_given =
      (Entries-find (IsFiledOrder s.next_order_id) id order s.orders filed.entries stuck.kept).given

  no_update : (item_id : ℤ) (status : ItemStatus) (found : ItemFound s id item_id status) → ⊥
  unfolding find_item
  no_update item_id status found =
      let same : found.order ≡ order = ground (arith, found.has_order, stuck.kept) in
      let done =
        found_done order.items item_id found.item stuck.items_done (
          subst (λ (o : Order). first_item o.items item_id ≡ some found.item) same
            found.has_item) in
      ground (arith, found.forward, done)

  no_delivery : (status : OrderStatus) (found : OrderDone s id status) → ⊥
  no_delivery status found =
      let same : found.order ≡ order = ground (arith, found.has_order, stuck.kept) in
      let done = found.is_done in
      let new : found.order.status ≡ OrderStatus.new =
        ap (λ (o : Order). o.status) same ∙ stuck.is_new in
      absurd (cc)

  Keeps : Server → Type 0
  Keeps t = OrderedMap.find t.orders id ≡ some order

  kept_new_order : (other : Order) → Keeps (process_new_order other s).1
  unfolding Keeps
  kept_new_order other =
      subst (λ made. Keeps made.1) (sym (process_new_order-effect other s))
        (ground (
          arith,
          order_given,
          stuck.kept,
          int_eq.beq_iff s.next_order_id id,
          OrderedMap.find-insert s.next_order_id (admit s.next_order_id other) s.orders id,
        ))

  kept_item_update :
      (order_id item_id : ℤ) (status : ItemStatus)
      → (found : ItemFound s order_id item_id status)
      → Keeps (set_item order_id item_id status found.order s)
  unfolding Keeps
  kept_item_update order_id item_id status found = elim (Bool-cases (order_id == id)) [
    | inl same ↦ absurd (
        no_update item_id status
          (subst (λ k. ItemFound s k item_id status) (eq_sound order_id id same) found))
    | inr other ↦ rw (set_item-effect, OrderedMap.find-write, other) stuck.kept
  ]

  kept_order_update :
      (order_id : ℤ) (status : OrderStatus)
      → (found : OrderDone s order_id status) → Keeps (deliver order_id found.order s)
  unfolding Keeps
  kept_order_update order_id status found = elim (Bool-cases (order_id == id)) [
    | inl same ↦
        absurd
          (no_delivery status (subst (λ k. OrderDone s k status) (eq_sound order_id id same) found))
    | inr other ↦
        rw (deliver-effect, find-erase order_id s.orders id filed.sorted, other) stuck.kept
  ]

  step-Keeps : (r : Request) → Keeps (step s r)
  unfolding Keeps step unregister_display
  step-Keeps (Request.register client) = rw register_display-effect stuck.kept
  step-Keeps (Request.unregister client) = stuck.kept
  step-Keeps (Request.new_order other) = kept_new_order other
  step-Keeps (Request.item_update order_id item_id status) =
      after_induction Keeps s _ stuck.kept λ t e.
        let (found, same) = process_item_update-found order_id item_id status s t e in
        subst Keeps (sym same) (kept_item_update order_id item_id status found)
  step-Keeps (Request.order_update order_id status) = after_induction Keeps s _ stuck.kept λ t e.
      let (found, same) = process_order_update-found order_id status s t e in
      subst Keeps (sym same) (kept_order_update order_id status found)

run_keeps :
    (s : Server) (id : ℤ) (order : Order) (requests : List Request)
    → IsFiled s
    → IsStuck s id order
    → OrderedMap.find (run s requests).orders id ≡ some order
unfolding run Keeps
run_keeps s id order [] filed stuck = stuck.kept
run_keeps s id order (r ∷ requests) filed stuck =
    run_keeps (step s r) id order requests (step-IsFiled s r filed) (record {
      kept = step-Keeps s id order filed stuck r;
      is_new = stuck.is_new;
      items_done = stuck.items_done;
    })

admitted_done :
    (id : ℤ) (items : List Item)
    → all_done items ≡ true
    → all_done (map (set_order_id id) items) ≡ true
unfolding all_done
admitted_done id [] h = refl
admitted_done id (x ∷ items) h = ground (arith, admitted_done id items)

-- An order that comes with only DONE items to a server whose orders are filed (`IsFiled`) can never
-- be delivered: whatever requests follow, the server keeps it just as it was admitted, with the
-- status NEW.
pub preset_done-stuck :
    (s : Server) (order : Order) (requests : List Request)
    → IsFiled s
    → all_done order.items ≡ true
    → OrderedMap.find (run (process_new_order order s).1 requests).orders s.next_order_id
      ≡ some (admit s.next_order_id order)
unfolding admit
preset_done-stuck s order requests filed done =
    let id = s.next_order_id in
    let t = (process_new_order order s).1 in
    run_keeps t id (admit id order) requests (process_new_order-IsFiled order s filed) (record {
      kept =
          ap (λ made. OrderedMap.find made.1.orders id) (process_new_order-effect order s)
          ∙ OrderedMap.find-insert id (admit id order) s.orders id
          ∙ rw (eq_refl id) refl;
      is_new = refl;
      items_done = admitted_done id order.items done;
    })
