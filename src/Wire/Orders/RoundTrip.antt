-- ===== src/Wire/Orders/RoundTrip.antt =====
-- An order that the wire format can carry is decoded from its encoding.
use mathlib.Core.List.{cons-ne-nil}
use restuarant_ordering_csf.Base.{
  ◌≡◌, ◌≢◌, refl, ◌∙◌, List, [], ◌∷◌, ◌++◌, map, append_assoc, append-nil, All, some,
}
use restuarant_ordering_csf.Except.{ok, ◌>>=◌}
use restuarant_ordering_csf.Util.Parts.{join}
use restuarant_ordering_csf.Util.{split}
use restuarant_ordering_csf.Util.Split.{split-join}
use restuarant_ordering_csf.Model.{Item, Order, new_order, add_item}
use restuarant_ordering_csf.Wire.Fields.Sound.{
  parse_positive_int-to_string, read_item_status-to_str, read_order_status-to_str,
}
use restuarant_ordering_csf.Wire.Orders.{
  encode_item, encode_order, decode_item, decode_items, decode_some_items, decode_order_fields,
  decode_order,
}
use restuarant_ordering_csf.Wire.Orders.Shape.{
  IsWireItem, IsWireOrder, item_fields, order_fields, encode_item-join, encode_order-join,
  fields_of_item-Lacks-colon, encoded-Lacks-semicolon, order_fields-Lacks-comma,
}

decode_item-fields : (item : Item) → IsWireItem item → decode_item (item_fields item) ≡ ok item
unfolding decode_item item_fields
decode_item-fields item h = rw (
  parse_positive_int-to_string item.order_id "item order id" h.order_id,
  parse_positive_int-to_string item.id "item id" h.id,
  read_item_status-to_str item.status h.status,
  parse_positive_int-to_string item.qty "item quantity" h.qty,
)

decode_item-encode :
    (item : Item) → IsWireItem item → decode_item (split (encode_item item) b':') ≡ ok item
decode_item-encode item h =
    rw
      (
        encode_item-join,
        split-join b':' (item_fields item) (unfold item_fields in cons-ne-nil _ _)
            (fields_of_item-Lacks-colon item h),
      )
      (decode_item-fields item h)

-- The loop adds the items in order.
decode_items-encode :
    (order : Order) (items : List Item)
    → All IsWireItem items
    → decode_items order (map encode_item items)
      ≡ ok (record order { items = order.items ++ items })
unfolding decode_items
decode_items-encode order [] h = rw append-nil
decode_items-encode order (item ∷ items) (h, hs) =
    rw (decode_item-encode item h)
      (decode_items-encode (add_item order item) items hs ∙ unfold add_item in rw append_assoc)

decode_some_items-encode :
    (order : Order) (items : List Item)
    → items ≢ []
    → All IsWireItem items
    → decode_some_items order (map encode_item items)
      ≡ ok (record order { items = order.items ++ items })
unfolding decode_some_items
decode_some_items-encode order [] ne h = absurd (ne refl)
decode_some_items-encode order (item ∷ items) ne h = decode_items-encode order (item ∷ items) h

map-ne-nil : (items : List Item) → items ≢ [] → map encode_item items ≢ []
map-ne-nil [] h = absurd (h refl)
map-ne-nil (item ∷ items) h = cons-ne-nil _ _

decode_order-fields :
    (order : Order) → IsWireOrder order → decode_order_fields (order_fields order) ≡ ok order
unfolding decode_order_fields order_fields
decode_order-fields order h =
    rw
      (
        parse_positive_int-to_string order.id "order id" h.id,
        read_order_status-to_str order.status h.status,
        split-join b';' (map encode_item order.items) (map-ne-nil order.items h.some_item)
            (encoded-Lacks-semicolon order.items h.items),
      )
      (decode_some_items-encode (new_order order.id order.status) order.items h.some_item h.items)

pub decode_order-join :
    (order : Order) → IsWireOrder order → decode_order (join b',' (order_fields order)) ≡ ok order
unfolding decode_order
decode_order-join order h =
    rw
      (split-join b',' (order_fields order) (unfold order_fields in cons-ne-nil _ _)
        (order_fields-Lacks-comma order h))
      (decode_order-fields order h)

-- An order whose data are valid (`IsWireOrder`) is encoded, and decoded to itself, whatever its
-- number of items.
decode_order-encode_order :
    (order : Order) → IsWireOrder order → (encode_order (some order) >>= decode_order) ≡ ok order
decode_order-encode_order order h =
    rw (encode_order-join order h.some_item) (decode_order-join order h)
