-- ===== src/Model.antt =====
-- include/model.h and src/model.cpp: items, orders and their statuses. The pointers to the items
-- of an order are never null in the program, so an order holds its items; a method that writes
-- through `this` returns the new object.
mod Enums
pub mod Orders
pub mod Equality
pub mod Heap
pub use Enums.*
use restuarant_ordering_csf.Base.{
  ℕ, ℤ, Bool, true, false, ◌&&◌, ◌||◌, List, [], ◌∷◌, ◌++◌, Option, none, some, Text, ◌==◌, ◌!=◌,
  int_eq, text_eq, nat_eq, length, get_elem?, if◌then◌else◌,
}

pub record Item : Type 0 where
  pub order_id : ℤ
  pub id : ℤ
  pub status : ItemStatus
  pub desc : Text
  pub qty : ℤ

-- `Item::operator==`
unfoldable pub item_equals : Item → Item → Bool
item_equals a b =
    (a.id == b.id)
    && ((a.order_id == b.order_id)
        && ((a.status == b.status) && ((a.desc == b.desc) && (a.qty == b.qty))))

unfoldable pub item_differs : Item → Item → Bool
unfolding item_equals
item_differs a b = if item_equals a b then false else true

abbrev pub set_order_id : ℤ → Item → Item
set_order_id order_id item = record item { order_id = order_id }

abbrev pub set_item_status : ItemStatus → Item → Item
set_item_status status item = record item { status = status }

pub record Order : Type 0 where
  pub id : ℤ
  pub status : OrderStatus
  pub items : List Item

-- `Order(id, status)`
abbrev pub new_order : ℤ → OrderStatus → Order
new_order id status = record { id = id; status = status; items = [] }

abbrev pub set_id : ℤ → Order → Order
set_id id order = record order { id = id }

abbrev pub set_order_status : OrderStatus → Order → Order
set_order_status status order = record order { status = status }

-- `Order::operator=`: the items of the other are appended one by one. The first argument says whether
-- the two are one object.
push_items : List Item → List Item → List Item
push_items out [] = out
push_items out (item ∷ items) = push_items (out ++ item ∷ []) items

unfoldable pub assign : Bool → Order → Order → Order
unfolding push_items
assign true this rhs = this
assign false this rhs = record {
  id = rhs.id;
  status = rhs.status;
  items = push_items this.items rhs.items;
}

-- The copy constructor assigns to an object without items; its other fields are not set yet.
unfoldable pub duplicate : ℤ → OrderStatus → Order → Order
unfolding assign
duplicate unset_id unset_status other = assign false (new_order unset_id unset_status) other

unfoldable pub add_item : Order → Item → Order
add_item order item = record order { items = order.items ++ item ∷ [] }

abbrev pub get_num_items : Order → ℕ
get_num_items order = length order.items

-- `m_items.at(index)`; `none` is `std::out_of_range`.
unfoldable pub at : Order → ℕ → Option Item
at order index = get_elem? order.items index

-- The loop of `Order::operator==` over the items of both orders, which are equally many.
all_equal : List Item → List Item → Bool
unfolding item_differs
all_equal (a ∷ as_left) (b ∷ bs) =
    let rest = all_equal as_left bs in if item_differs a b then false else rest
all_equal _ _ = true

-- `Order::operator==`
unfoldable pub order_equals : Order → Order → Bool
unfolding all_equal
order_equals a b =
    if (a.id != b.id) || ((a.status != b.status) || (get_num_items a != get_num_items b))
    then false
    else all_equal a.items b.items

unfoldable pub first_item : List Item → ℤ → Option Item
first_item [] item_id = none
first_item (item ∷ items) item_id =
    if item.id == item_id then some item else first_item items item_id

-- The first item with the id; `none` is the empty `shared_ptr`.
unfoldable pub find_item : Order → ℤ → Option Item
unfolding first_item
find_item order item_id = first_item order.items item_id

-- A write through the pointer that `find_item` returns.
unfoldable pub update_first : List Item → ℤ → (Item → Item) → List Item
update_first [] item_id f = []
update_first (item ∷ items) item_id f =
    if item.id == item_id then f item ∷ items else item ∷ update_first items item_id f

abbrev pub update_item : Order → ℤ → (Item → Item) → Order
update_item order item_id f = record order { items = update_first order.items item_id f }
