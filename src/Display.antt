-- ===== src/Display.antt =====
-- src/display_main.cpp: what a display client keeps of the orders, and what it prints. A client
-- whose handler throws prints the error and ends.
pub mod Replay
pub mod System
pub mod Announced
pub mod Mirror
pub mod Program
use restuarant_ordering_csf.Base.{
  ℕ, ℤ, int_eq, pos, Bool, true, false, not, ◌||◌, List, [], ◌∷◌, ◌++◌, Option, none, some, Text,
  codes, ◌==◌, if◌then◌else◌,
}
use restuarant_ordering_csf.Except.{Result, ok, err, protocol_error, ◌>>=◌}
use restuarant_ordering_csf.Numbers.{to_string}
use restuarant_ordering_csf.Model.{
  Item, Order, OrderStatus, order_status_eq, set_item_status, set_order_status, find_item,
  update_item, duplicate,
}
use restuarant_ordering_csf.Message.{
  Message, MessageType, message_type_eq, has_order_id, has_item_id, has_item_status,
  has_order_status,
}
use restuarant_ordering_csf.OrderedMap.{OrderedMap}
use restuarant_ordering_csf.OrderedMap
use restuarant_ordering_csf.Wire.Names.{item_status_to_str, order_status_to_str}

abbrev pub Orders : Type 0
Orders = OrderedMap Order

abbrev clear_screen : Text
clear_screen = 27 ∷ codes "[2J" ++ 27 ∷ codes "[H"

print_item : Item → Text
print_item item =
    codes "  Item "
    ++ to_string item.id
    ++ codes ": "
    ++ item_status_to_str item.status
    ++ codes "\n"
    ++ codes "    "
    ++ item.desc
    ++ codes ", Quantity "
    ++ to_string item.qty
    ++ codes "\n"

print_items : List Item → Text
unfolding print_item
print_items [] = []
print_items (item ∷ items) = print_item item ++ print_items items

unfoldable pub print_order : Order → Text
unfolding print_items
print_order order =
    codes "Order "
    ++ to_string order.id
    ++ codes ": "
    ++ order_status_to_str order.status
    ++ codes "\n"
    ++ print_items order.items

print_orders : Orders → Text
unfolding print_order
print_orders [] = []
print_orders ((id, order) ∷ orders) = print_order order ++ print_orders orders

unfoldable pub refresh_display : Orders → Text
unfolding print_orders
refresh_display orders = clear_screen ++ print_orders orders

unfoldable pub handle_disp_order : Message → Orders → Result Orders
handle_disp_order msg orders = elim msg.order [
  | none ↦ err (protocol_error "missing order in DISP_ORDER")
  | some order ↦
      ok (OrderedMap.insert order.id (duplicate (pos 0) OrderStatus.invalid order) orders)
]

unfoldable pub handle_disp_item_update : Message → Orders → Result Orders
handle_disp_item_update msg orders =
    if not (has_order_id msg) || (not (has_item_id msg) || not (has_item_status msg))
    then err (protocol_error "missing fields in DISP_ITEM_UPDATE")
    else elim (OrderedMap.find orders msg.order_id) [
      | none ↦ err (protocol_error "unknown order id in DISP_ITEM_UPDATE")
      | some order ↦ elim (find_item order msg.item_id) [
        | none ↦ err (protocol_error "unknown item id in DISP_ITEM_UPDATE")
        | some item ↦ ok (
            OrderedMap.write msg.order_id
              (update_item order msg.item_id (set_item_status msg.item_status)) orders)
      ]
    ]

unfoldable pub handle_disp_order_update : Message → Orders → Result Orders
handle_disp_order_update msg orders =
    if not (has_order_id msg) || not (has_order_status msg)
    then err (protocol_error "missing fields in DISP_ORDER_UPDATE")
    else elim (OrderedMap.find orders msg.order_id) [
      | none ↦ err (protocol_error "unknown order id in DISP_ORDER_UPDATE")
      | some order ↦
          if msg.order_status == OrderStatus.delivered
          then ok (OrderedMap.erase msg.order_id orders)
          else ok (OrderedMap.write msg.order_id (set_order_status msg.order_status order) orders)
    ]

-- One round of the main loop.
unfoldable pub handle : Message → Orders → Result Orders
handle msg orders =
    if msg.kind == MessageType.disp_order
    then handle_disp_order msg orders
    else if msg.kind == MessageType.disp_item_update
    then handle_disp_item_update msg orders
    else if msg.kind == MessageType.disp_order_update
    then handle_disp_order_update msg orders
    else if msg.kind == MessageType.disp_heartbeat
    then ok orders
    else err (protocol_error "unexpected message type in display loop")

abbrev pub should_refresh : Message → Bool
should_refresh msg = not (msg.kind == MessageType.disp_heartbeat)

-- What a round prints.
unfoldable pub printed : Message → Orders → Text
unfolding refresh_display
printed msg orders = if should_refresh msg then refresh_display orders else []

-- The rounds of the main loop for a list of messages, up to the first error.
unfoldable pub replay : List Message → Orders → Result Orders
unfolding handle
replay [] orders = ok orders
replay (msg ∷ msgs) orders = handle msg orders >>= replay msgs
