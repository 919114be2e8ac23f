-- ===== src/Model/Heap.antt =====
-- src/model.cpp with its pointers: an order holds `std::shared_ptr`s, and the items are objects of a
-- heap that several orders could share. Order holds the items themselves; Copies shows when that is
-- the same.
pub mod Copies
pub mod Apart
use restuarant_ordering_csf.Base.{
  ℕ, suc, ℤ, int_eq, nat_eq, ◌==◌, List, [], ◌∷◌, ◌++◌, map, Option, none, some, if◌then◌else◌,
}
use restuarant_ordering_csf.Model.{Item, Order, OrderStatus}

-- The objects made so far, and the address of the next one.
pub record Heap : Type 0 where
  pub item_at : ℕ → Item
  pub next : ℕ

pub record OrderObject : Type 0 where
  pub id : ℤ
  pub status : OrderStatus
  pub pointers : List ℕ  -- `m_items`

-- What an order object is, with the items that its pointers lead to.
abbrev pub view : Heap → OrderObject → Order
view h o = record { id = o.id; status = o.status; items = map h.item_at o.pointers }

abbrev pub write : ℕ → Item → Heap → Heap
write pointer item h = record h { item_at = λ p. if pointer == p then item else h.item_at p }

-- `std::make_shared<Item>(item)`; the address is that of `next`.
abbrev pub make_item : Item → Heap → Heap
make_item item h = record (write h.next item h) { next = suc h.next }

-- The loop of `Order::operator=`: each item is duplicated, and the copy is pushed at the back.
unfoldable pub push_copies : List ℕ → List ℕ → Heap → List ℕ × Heap
push_copies out [] h = (out, h)
push_copies out (p ∷ pointers) h =
    push_copies (out ++ h.next ∷ []) pointers (make_item (h.item_at p) h)

-- `Order::duplicate`, by the copy constructor.
unfoldable pub duplicate_object : OrderObject → Heap → OrderObject × Heap
unfolding push_copies
duplicate_object o h =
    let (pointers, after) = push_copies [] o.pointers h in
    (record { id = o.id; status = o.status; pointers = pointers }, after)

-- `Order::find_item`
unfoldable pub find_pointer : Heap → List ℕ → ℤ → Option ℕ
find_pointer h [] item_id = none
find_pointer h (p ∷ pointers) item_id =
    if (h.item_at p).id == item_id then some p else find_pointer h pointers item_id

-- A write through the pointer that `find_item` returned, as `item->set_status(...)` makes it.
abbrev pub change_found : Option ℕ → (Item → Item) → Heap → Heap
change_found none f h = h
change_found (some p) f h = write p (f (h.item_at p)) h

unfoldable pub change_item : OrderObject → ℤ → (Item → Item) → Heap → Heap
unfolding find_pointer
change_item o item_id f h = change_found (find_pointer h o.pointers item_id) f h
