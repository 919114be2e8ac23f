-- ===== src/Server/Shadowed.antt =====
-- src/server.cpp and src/model.cpp: `find_item` returns the first item with an id, so an update never
-- reaches a second item with the same id, and the order that holds it never becomes DONE.
pub mod Items
use mathlib.Core.Path.{subst}
use mathlib.Core.Option
use restuarant_ordering_csf.Base.{
  ℤ, int_eq, ◌==◌, ◌<ℤ◌, false, ◌≡◌, ◌≢◌, ◌⊎◌, refl, sym, ap, ◌∙◌, List, [], ◌∷◌, map, some, arith,
  Bool-cases, inl, inr, eq_sound, eq_refl, if◌then◌else◌,
}
use restuarant_ordering_csf.Model.{
  Item, Order, ItemStatus, OrderStatus, item_status_eq, order_status_eq, set_order_id,
  set_item_status, update_first, update_item,
}
use restuarant_ordering_csf.OrderedMap
use restuarant_ordering_csf.OrderedMap.Sorted.{find-erase}
use restuarant_ordering_csf.OrderedMap.Entries.{Entries-find}
use restuarant_ordering_csf.Server.{
  Server, unregister_display, admit, process_new_order, all_done, set_item, deliver,
}
use restuarant_ordering_csf.Server.Effects.{
  register_display-effect, process_new_order-effect, settled, settled_status, set_item-effect,
  deliver-effect,
}
use restuarant_ordering_csf.Server.Filed.{
  IsFiled, IsFiledOrder, step-IsFiled, process_new_order-IsFiled, after_induction,
}
use restuarant_ordering_csf.Server.Updates.{
  ItemFound, OrderDone, process_item_update-found, process_order_update-found,
}
use restuarant_ordering_csf.Server.Requests.{Request, step, run}
use restuarant_ordering_csf.Server.Shadowed.Items.{
  Shadowed, Shadowed-update_first, all_done-Shadowed, Shadowed-admit,
}

-- An order of the server that is not DONE, and has a shadowed item.
pub record IsUnfinished (order : Order) : Type 0 where
  pub shadowed : Shadowed order.items
  pub not_done : order.status ≢ OrderStatus.done

settled-IsUnfinished :
    (item_id : ℤ) (status : ItemStatus) (order : Order)
    → IsUnfinished order
    → IsUnfinished (settled status (update_item order item_id (set_item_status status)))
unfolding settled settled_status
settled-IsUnfinished item_id status order h =
    let shadowed = Shadowed-update_first item_id status order.items h.shadowed in
    record {
      shadowed = shadowed;
      not_done = λ e. ground (
        arith,
        e,
        h.not_done,
        all_done-Shadowed (update_first order.items item_id (set_item_status status)) shadowed,
      );
    }

-- The server has such an order under the id.
abbrev pub Keeps : ℤ → Server → Type 0
Keeps id s = (order : Order) × (OrderedMap.find s.orders id ≡ some order) × IsUnfinished order

module _ (s : Server) (id : ℤ) (filed : IsFiled s) (keeps : Keeps id s) where
  order_given : id <ℤ s.next_order_id
  order_given =
      let (order, found, h) = keeps in
      (Entries-find (IsFiledOrder s.next_order_id) id order s.orders filed.entries found).given

  kept_new_order : (other : Order) → Keeps id (process_new_order other s).1
  kept_new_order other =
      let (order, found, h) = keeps in
      (
        order,
        ap (λ (made : ℤ × Server). OrderedMap.find made.1.orders id)
              (process_new_order-effect other s)
            ∙ ground (
              arith,
              order_given,
              found,
              int_eq.beq_iff s.next_order_id id,
              OrderedMap.find-insert s.next_order_id (admit s.next_order_id other) s.orders id,
            ),
        h,
      )

  set_item-found :
      (order_id item_id : ℤ) (status : ItemStatus) (order : Order)
      → let changed = settled status (update_item order item_id (set_item_status status)) in
        OrderedMap.find (set_item order_id item_id status order s).orders id ≡ (
          if order_id == id
          then Option.map (λ v. changed) (OrderedMap.find s.orders id)
          else OrderedMap.find s.orders id)
  set_item-found order_id item_id status order =
      ap (λ (t : Server). OrderedMap.find t.orders id)
        (set_item-effect order_id item_id status order s)
      ∙ OrderedMap.find-write order_id
          (settled status (update_item order item_id (set_item_status status))) s.orders id

  kept_item_update :
      (order_id item_id : ℤ) (status : ItemStatus)
      → (found : ItemFound s order_id item_id status)
      → Keeps id (set_item order_id item_id status found.order s)
  kept_item_update order_id item_id status found =
      let (order, kept, h) = keeps in
      elim (Bool-cases (order_id == id)) [
        | inl same ↦
            let is_it : order ≡ found.order =
              ground (arith, kept, found.has_order, int_eq.beq_iff order_id id) in
            (
              settled status (update_item found.order item_id (set_item_status status)),
              set_item-found order_id item_id status found.order ∙ rw (same, kept) refl,
              settled-IsUnfinished item_id status found.order (subst IsUnfinished is_it h),
            )
        | inr other ↦
            (order, set_item-found order_id item_id status found.order ∙ rw (other) kept, h)
      ]

  kept_order_update :
      (order_id : ℤ) (status : OrderStatus)
      → (found : OrderDone s order_id status) → Keeps id (deliver order_id found.order s)
  kept_order_update order_id status found =
      let (order, kept, h) = keeps in
      elim (Bool-cases (order_id == id)) [
        | inl same ↦
            let is_it : order ≡ found.order =
              ground (arith, kept, found.has_order, int_eq.beq_iff order_id id) in
            absurd (h.not_done (ap (λ (o : Order). o.status) is_it ∙ found.is_done))
        | inr other ↦ (
          order,
          ap (λ (t : Server). OrderedMap.find t.orders id) (deliver-effect order_id found.order s)
              ∙ find-erase order_id s.orders id filed.sorted
              ∙ rw (other) kept,
          h,
        )
      ]

  step-Keeps : (r : Request) → Keeps id (step s r)
  unfolding step unregister_display
  step-Keeps (Request.register client) =
      subst (Keeps id) (sym (register_display-effect client s)) keeps
  step-Keeps (Request.unregister client) = keeps
  step-Keeps (Request.new_order other) = kept_new_order other
  step-Keeps (Request.item_update order_id item_id status) =
      after_induction (Keeps id) s _ keeps λ t e.
        let (found, same) = process_item_update-found order_id item_id status s t e in
        subst (Keeps id) (sym same) (kept_item_update order_id item_id status found)
  step-Keeps (Request.order_update order_id status) = after_induction (Keeps id) s _ keeps λ t e.
      let (found, same) = process_order_update-found order_id status s t e in
      subst (Keeps id) (sym same) (kept_order_update order_id status found)

run-Keeps :
    (s : Server) (id : ℤ) (requests : List Request)
    → IsFiled s
    → Keeps id s
    → Keeps id (run s requests)
unfolding run
run-Keeps s id [] filed keeps = keeps
run-Keeps s id (r ∷ requests) filed keeps =
    run-Keeps (step s r) id requests (step-IsFiled s r filed) (step-Keeps s id filed keeps r)

-- An order with two items of one id, a later one of them not DONE, made on a server whose orders
-- are filed (`IsFiled`), never becomes DONE and is never delivered: whatever requests follow, the
-- server keeps an order under its id that is not DONE and has an item that is not DONE.
pub Shadowed-never_done :
    (s : Server) (order : Order) (requests : List Request)
    → IsFiled s
    → Shadowed order.items
    → (kept : Order) × (OrderedMap.find
          (run (process_new_order order s).1 requests).orders
          s.next_order_id
        ≡ some kept)
      × (kept.status ≢ OrderStatus.done)
      × (all_done kept.items ≡ false)
unfolding admit
Shadowed-never_done s order requests filed shadowed =
    let id = s.next_order_id in
    let admitted : IsUnfinished (admit id order) = record {
      shadowed = Shadowed-admit id order.items shadowed;
      not_done = λ e. cc;
    } in
    let found : OrderedMap.find (process_new_order order s).1.orders id ≡ some (admit id order) =
      ap (λ (made : ℤ × Server). OrderedMap.find made.1.orders id)
        (process_new_order-effect order s)
      ∙ OrderedMap.find-insert id (admit id order) s.orders id
      ∙ rw (eq_refl id) refl in
    let (kept, still, h) =
      run-Keeps (process_new_order order s).1 id requests (process_new_order-IsFiled order s filed)
        (admit id order, found, admitted) in
    (kept, still, h.not_done, all_done-Shadowed kept.items h.shadowed)
