-- ===== src/Wire/Orders/Shape.antt =====
-- The orders that the wire format carries, and their encoding as nested joins.
use restuarant_ordering_csf.Base.{
  ℕ, suc, IsPositive, ◌≡◌, ◌≢◌, refl, sym, ap, ◌∙◌, List, [], ◌∷◌, ◌++◌, map, append_assoc,
  append-nil, arith, Text, All, All-map, Lacks, some, lt→ltb, leb, length, false,
}
use restuarant_ordering_csf.Except.{ok}
use restuarant_ordering_csf.Util.Parts.{join}
use restuarant_ordering_csf.Numbers.{to_string}
use restuarant_ordering_csf.Model.{Item, ItemStatus, Order, OrderStatus}
use restuarant_ordering_csf.Wire.Names.{item_status_to_str, order_status_to_str}
use restuarant_ordering_csf.Wire.Fields.Clean.{
  IsClean, IsClean-Lacks-comma, IsClean-Lacks-semicolon, IsClean-Lacks-colon, IsClean-Lacks-bar,
  to_string-IsClean, item_status_to_str-IsClean, order_status_to_str-IsClean, join-Lacks,
}
use restuarant_ordering_csf.Wire.Orders.{encode_item, encode_items, encode_order}

pub record IsWireItem (item : Item) : Type 0 where
  pub order_id : IsPositive item.order_id
  pub id : IsPositive item.id
  pub status : item.status ≢ ItemStatus.invalid
  pub desc : IsClean item.desc
  pub qty : IsPositive item.qty

pub record IsWireOrder (order : Order) : Type 0 where
  pub id : IsPositive order.id
  pub status : order.status ≢ OrderStatus.invalid
  pub some_item : order.items ≢ []
  pub items : All IsWireItem order.items

unfoldable pub item_fields : Item → List Text
item_fields item =
    to_string item.order_id
    ∷ to_string item.id
    ∷ item_status_to_str item.status
    ∷ item.desc
    ∷ to_string item.qty
    ∷ []

pub encode_item-join : (item : Item) → encode_item item ≡ join b':' (item_fields item)
unfolding encode_item join item_fields
encode_item-join item = refl

-- Every item text with a semicolon in front.
separated : List Item → Text
separated [] = []
separated (item ∷ items) = b';' ∷ (encode_item item ++ separated items)

encode_items_from :
    (i : ℕ) (out : Text) (items : List Item)
    → encode_items (suc i) out items ≡ out ++ separated items
unfolding encode_items separated
encode_items_from i out [] = sym (append-nil out)
encode_items_from i out (item ∷ items) =
    encode_items_from (suc i) _ items ∙ rw (lt→ltb 0 (suc i) (omega arith)) (simp append_assoc)

join-separated :
    (item : Item) (items : List Item)
    → join b';' (map encode_item (item ∷ items)) ≡ encode_item item ++ separated items
unfolding join separated
join-separated item [] = sym (append-nil _)
join-separated item (next ∷ items) =
    ap (λ t. encode_item item ++ b';' ∷ t) (join-separated next items)

pub encode_items-join :
    (out : Text) (items : List Item)
    → items ≢ []
    → encode_items 0 out items ≡ out ++ join b';' (map encode_item items)
unfolding encode_items
encode_items-join out [] h = absurd (h refl)
encode_items-join out (item ∷ items) h =
    encode_items_from 0 (out ++ encode_item item) items
    ∙ append_assoc out (encode_item item) (separated items)
    ∙ ap (◌++◌ out) (sym (join-separated item items))

unfoldable pub order_fields : Order → List Text
order_fields order =
    to_string order.id
    ∷ order_status_to_str order.status
    ∷ join b';' (map encode_item order.items)
    ∷ []

some_items : (items : List Item) → items ≢ [] → leb (length items) 0 ≡ false
some_items [] h = absurd (h refl)
some_items (item ∷ items) h = ground arith

-- An order with items is encoded as its three fields with commas between them.
pub encode_order-join :
    (order : Order)
    → order.items ≢ []
    → encode_order (some order) ≡ ok (join b',' (order_fields order))
unfolding encode_order join order_fields
encode_order-join order h =
    rw (some_items order.items h) (ap ok (encode_items-join _ order.items h ∙ simp append_assoc))

item_fields-IsClean : (item : Item) → IsWireItem item → All IsClean (item_fields item)
unfolding item_fields
item_fields-IsClean item h = (
  to_string-IsClean item.order_id h.order_id,
  (
    to_string-IsClean item.id h.id,
    (item_status_to_str-IsClean item.status, (h.desc, (to_string-IsClean item.qty h.qty, tt))),
  ),
)

pub fields_of_item-Lacks-colon :
    (item : Item) → IsWireItem item → All (Lacks b':') (item_fields item)
fields_of_item-Lacks-colon item h =
    All-map IsClean (Lacks b':') (item_fields item) IsClean-Lacks-colon (item_fields-IsClean item h)

-- The items' text lacks every other separator.
encoded-Lacks :
    (b : ℕ)
    → b ≢ b':'
    → ((s : Text) → IsClean s → Lacks b s)
    → (items : List Item) → All IsWireItem items
    → All (Lacks b) (map encode_item items)
encoded-Lacks b ne clean [] h = tt
encoded-Lacks b ne clean (item ∷ items) (h, hs) = (
  rw encode_item-join (
      join-Lacks b b':' (item_fields item) (λ e. ne (sym e))
        (All-map IsClean (Lacks b) (item_fields item) clean (item_fields-IsClean item h))),
  encoded-Lacks b ne clean items hs,
)

pub encoded-Lacks-semicolon :
    (items : List Item) → All IsWireItem items → All (Lacks b';') (map encode_item items)
encoded-Lacks-semicolon = encoded-Lacks b';' (omega arith) IsClean-Lacks-semicolon

order_fields-Lacks :
    (b : ℕ)
    → b ≢ b':'
    → b ≢ b';'
    → ((s : Text) → IsClean s → Lacks b s)
    → (order : Order) → IsWireOrder order
    → All (Lacks b) (order_fields order)
unfolding order_fields
order_fields-Lacks b colon semicolon clean order h = (
  clean _ (to_string-IsClean order.id h.id),
  (
    clean _ (order_status_to_str-IsClean order.status),
    (
      join-Lacks b b';' _ (λ e. semicolon (sym e))
          (encoded-Lacks b colon clean order.items h.items),
      tt,
    ),
  ),
)

pub order_fields-Lacks-comma :
    (order : Order) → IsWireOrder order → All (Lacks b',') (order_fields order)
order_fields-Lacks-comma = order_fields-Lacks b',' (omega arith) (omega arith) IsClean-Lacks-comma

-- So the text of an order is one field of a message.
pub order_text-Lacks-bar :
    (order : Order) → IsWireOrder order → Lacks b'|' (join b',' (order_fields order))
order_text-Lacks-bar order h =
    join-Lacks b'|' b',' (order_fields order) (omega arith)
      (order_fields-Lacks b'|' (omega arith) (omega arith) IsClean-Lacks-bar order h)
