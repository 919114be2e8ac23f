-- ===== src/Model/Orders.antt =====
-- Lookup, update, copy and assignment of orders.
use mathlib.Core.Option
use restuarant_ordering_csf.Base.{
  ℤ, ◌≡◌, ◌≢◌, refl, ap, ◌∙◌, sym, List, [], ◌∷◌, ◌++◌, append-nil, append_assoc, arith, ◌==◌,
  false, int_eq, if◌then◌else◌, length, length-append, ◌<◌,
}
use restuarant_ordering_csf.Model.{
  Item, Order, OrderStatus, push_items, assign, duplicate, first_item, find_item, update_first,
  update_item,
}

push_items-append : (out items : List Item) → push_items out items ≡ out ++ items
unfolding push_items
push_items-append out [] = sym (append-nil out)
push_items-append out (x ∷ items) =
    push_items-append (out ++ x ∷ []) items ∙ append_assoc out (x ∷ []) items

-- A copy of an order is equal to it, whatever the unset fields of the new object held.
pub duplicate_lem :
    (id : ℤ) (status : OrderStatus) (order : Order) → duplicate id status order ≡ order
unfolding duplicate
duplicate_lem id status order = rw push_items-append

-- Assignment from another object keeps the items that the target had in front of the new ones, and takes the other
-- fields over.
pub items-assign : (this rhs : Order) → (assign false this rhs).items ≡ this.items ++ rhs.items
unfolding assign
items-assign this rhs = push_items-append this.items rhs.items

length_of_items : (items others : List Item) → items ≢ [] → length others < length (items ++ others)
length_of_items [] others h = absurd (h refl)
length_of_items (x ∷ items) others h = omega (arith, length-append items others)

-- An order that had an item before another order object is assigned to it is never equal to that
-- order then: `operator=` does not drop the old items.
pub assign_keeps_old_items : (this rhs : Order) → this.items ≢ [] → assign false this rhs ≢ rhs
assign_keeps_old_items this rhs h e = omega (
  arith,
  length_of_items this.items rhs.items h,
  ap length (items-assign this rhs),
  ap (λ (o : Order). length o.items) e,
)

module _ (item_id : ℤ) (f : Item → Item) (keep : (item : Item) → (f item).id ≡ item.id) where
  pub first_item-update_first :
      (items : List Item) (other : ℤ)
      → first_item (update_first items item_id f) other ≡ (
          if item_id == other
          then Option.map f (first_item items other)
          else first_item items other)
  unfolding first_item update_first
  first_item-update_first [] other = ground arith
  first_item-update_first (x ∷ items) other = ground (
    arith,
    keep x,
    int_eq.beq_iff item_id other,
    int_eq.beq_iff x.id item_id,
    int_eq.beq_iff x.id other,
    first_item-update_first items other,
  )

  -- After a write that keeps the ids, through the pointer that `find_item` returned, that item has
  -- the new value, and a search for any other id finds what it found before.
  pub find_item-update_item :
      (order : Order) (other : ℤ)
      → find_item (update_item order item_id f) other
        ≡ (if item_id == other then Option.map f (find_item order other) else find_item order other)
  unfolding find_item
  find_item-update_item order other = first_item-update_first order.items other

pub length-update_first :
    (items : List Item) (item_id : ℤ) (f : Item → Item)
    → length (update_first items item_id f) ≡ length items
unfolding update_first
length-update_first [] item_id f = refl
length-update_first (x ∷ items) item_id f = ground (arith, length-update_first items item_id f)
