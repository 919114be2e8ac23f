-- ===== src/Wire/Orders.antt =====
-- Orders and their items as text: `encode_order` and `decode_order` of src/wire.cpp.
pub mod RoundTrip
pub mod Shape
pub mod Sound
pub mod Growth
use restuarant_ordering_csf.Base.{
  ℕ, suc, ltb, Bool, true, false, ◌||◌, List, [], ◌∷◌, ◌++◌, Option, none, some, Text,
  if◌then◌else◌, leb,
}
use restuarant_ordering_csf.Except.{Result, ok, err, invalid_message, ◌>>=◌}
use restuarant_ordering_csf.Util.{split}
use restuarant_ordering_csf.Numbers.{to_string}
use restuarant_ordering_csf.Model.{Item, Order, OrderStatus, new_order, add_item, get_num_items}
use restuarant_ordering_csf.Wire.Names.{item_status_to_str, order_status_to_str}
use restuarant_ordering_csf.Wire.Fields.{parse_positive_int, read_item_status, read_order_status}

-- The five fields of an item, with colons between them.
pub encode_item : Item → Text
encode_item item =
    to_string item.order_id
    ++ (b':'
        ∷ (to_string item.id
            ++ (b':'
                ∷ (item_status_to_str item.status
                    ++ (b':' ∷ (item.desc ++ (b':' ∷ to_string item.qty)))))))

-- The loop over the items from index `i` on; every item but the first has a semicolon in front.
pub encode_items : ℕ → Text → List Item → Text
encode_items i out [] = out
encode_items i out (item ∷ items) =
    encode_items (suc i) ((if ltb 0 i then out ++ b';' ∷ [] else out) ++ encode_item item) items

unfoldable pub encode_order : Option Order → Result Text
unfolding encode_items encode_item
encode_order none = err (invalid_message "invalid order payload")
encode_order (some order) =
    if leb (get_num_items order) 0
    then err (invalid_message "invalid order payload")
    else ok (
        encode_items 0
          (to_string order.id ++ (b',' ∷ (order_status_to_str order.status ++ b',' ∷ [])))
          order.items)

-- One item from its fields.
decode_item : List Text → Result Item
decode_item (order_id_str ∷ id_str ∷ status_str ∷ desc ∷ qty_str ∷ []) = do
  item_order_id ← parse_positive_int order_id_str "item order id"
  item_id ← parse_positive_int id_str "item id"
  item_status ← read_item_status status_str
  qty ← parse_positive_int qty_str "item quantity"
  ok (record {
    order_id = item_order_id;
    id = item_id;
    status = item_status;
    desc = desc;
    qty = qty;
  })
decode_item _ = err (invalid_message "invalid item field count")

-- The loop over the item texts; each item that is read is added to the order.
decode_items : Order → List Text → Result Order
unfolding decode_item
decode_items order [] = ok order
decode_items order (s ∷ item_fields) = do
  item ← decode_item (split s b':')
  decode_items (add_item order item) item_fields

-- The test for a list without items.
decode_some_items : Order → List Text → Result Order
unfolding decode_items
decode_some_items order [] = err (invalid_message "order has no items")
decode_some_items order (s ∷ item_fields) = decode_items order (s ∷ item_fields)

decode_order_fields : List Text → Result Order
unfolding decode_some_items
decode_order_fields (id_str ∷ status_str ∷ items_str ∷ []) = do
  order_id ← parse_positive_int id_str "order id"
  order_status ← read_order_status status_str
  decode_some_items (new_order order_id order_status) (split items_str b';')
decode_order_fields _ = err (invalid_message "invalid order field count")

unfoldable pub decode_order : Text → Result Order
unfolding decode_order_fields
decode_order s = decode_order_fields (split s b',')
