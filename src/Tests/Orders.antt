-- ===== src/Tests/Orders.antt =====
-- Orders, their copies, and messages.
use restuarant_ordering_csf.Base.{
  int_eq, pos, [], ◌∷◌, arith, ◌≡◌, ◌≢◌, ◌↔◌, refl, some, true, false,
}
use restuarant_ordering_csf.Model.{
  Order, assign, ItemStatus, OrderStatus, update_item, set_item_status,
}
use restuarant_ordering_csf.Model.Heap.{Heap, OrderObject, view, change_item, duplicate_object}
use restuarant_ordering_csf.Model.Heap.Apart.{AreIndependent, duplicate_object-AreIndependent}
use restuarant_ordering_csf.Model.Orders.{assign_keeps_old_items}
use restuarant_ordering_csf.Message.{
  Message, MessageType, order_message, plain_message, message_equals,
}
use restuarant_ordering_csf.Message.Equality.{CoveredBy, message_equals_iff}
use restuarant_ordering_csf.Tests.Data.{lunch, fries}

abbrev dinner : Order
dinner = record { id = pos 2; status = OrderStatus.done; items = [] }

assign_keeps_old_items_example : assign false lunch dinner ≢ dinner
assign_keeps_old_items_example = assign_keeps_old_items lunch dinner (λ e. cc)

abbrev bare : Message
bare = plain_message MessageType.disp_order

abbrev full : Message
full = order_message MessageType.disp_order (some lunch)

-- A message without an order equals one with an order, but not the other way round.
bare_equals_full : message_equals bare full ≡ true
unfolding message_equals
bare_equals_full = refl

message_equals_iff_example : (message_equals bare full ≡ true) ↔ CoveredBy bare full
message_equals_iff_example = message_equals_iff bare full

-- Two items of an order, at the addresses 0 and 1.
abbrev kitchen : Heap
kitchen = record { item_at = λ p. fries; next = 2 }

abbrev ticket : OrderObject
ticket = record { id = pos 1; status = OrderStatus.new; pointers = 0 ∷ 1 ∷ [] }

duplicate_object-AreIndependent_example :
    AreIndependent ticket
      (view kitchen ticket)
      (update_item (view kitchen ticket) (pos 7) (set_item_status ItemStatus.in_progress))
      (λ o. change_item o (pos 7) (set_item_status ItemStatus.in_progress))
      (duplicate_object ticket kitchen)
duplicate_object-AreIndependent_example =
    duplicate_object-AreIndependent kitchen ticket (pos 7) (set_item_status ItemStatus.in_progress)
      (record {
        made = (omega arith, (omega arith, tt));
        apart = (((λ e. absurd (omega (arith, e))), tt), (tt, tt));
      })
