-- ===== src/Model/Equality.antt =====
-- `operator==` on items and orders.
use restuarant_ordering_csf.Base.{true, ◌≡◌, ◌↔◌, List, [], ◌∷◌, arith, length, text_eq, ap}
use restuarant_ordering_csf.Model.{
  Item, item_equals, Order, all_equal, order_equals, item_status_eq, order_status_eq,
}

pub item_equals_iff : (a b : Item) → (item_equals a b ≡ true) ↔ (a ≡ b)
unfolding item_equals
item_equals_iff a b = ground (arith, text_eq.beq_iff a.desc b.desc)

all_equal_iff : (xs ys : List Item) → length xs ≡ length ys → (all_equal xs ys ≡ true) ↔ (xs ≡ ys)
unfolding all_equal
all_equal_iff [] [] h = ground arith
all_equal_iff [] (y ∷ ys) h = absurd (omega arith)
all_equal_iff (x ∷ xs) [] h = absurd (omega arith)
all_equal_iff (x ∷ xs) (y ∷ ys) h =
    ground (arith, item_equals_iff x y, all_equal_iff xs ys (omega arith))

-- Two orders compare equal exactly when all their fields are equal, their items one by one.
pub order_equals_iff : (a b : Order) → (order_equals a b ≡ true) ↔ (a ≡ b)
unfolding order_equals
order_equals_iff a b =
    ground (arith, all_equal_iff a.items b.items, λ (e : a.items ≡ b.items). ap length e)
