-- ===== src/Wire/Orders/Sound.antt =====
-- Every order that is decoded is one that the wire format can carry.
use mathlib.Core.Path.{subst}
use restuarant_ordering_csf.Base.{
  ℕ, ◌≡◌, ◌≢◌, refl, ap, List, [], ◌∷◌, arith, Text, All, All-append, Lacks, length, ◌+◌,
  length-append,
}
use restuarant_ordering_csf.Except.{ok, ok-injective, >>=-eq-ok}
use restuarant_ordering_csf.Util.{split}
use restuarant_ordering_csf.Util.Split.{split-Lacks, split-Lacks_other}
use restuarant_ordering_csf.Model.{Item, Order, new_order, add_item}
use restuarant_ordering_csf.Wire.Fields.{parse_positive_int, read_item_status, read_order_status}
use restuarant_ordering_csf.Wire.Fields.Sound.{
  parse_positive_int-IsPositive, read_item_status_sound, read_order_status_sound,
}
use restuarant_ordering_csf.Wire.Fields.Clean.{IsClean, IsClean-of_Lacks}
use restuarant_ordering_csf.Wire.Orders.{
  decode_item, decode_items, decode_some_items, decode_order_fields, decode_order,
}
use restuarant_ordering_csf.Wire.Orders.Shape.{IsWireItem, IsWireOrder}

All-zip₄ :
    (ss : List Text)
    → All (Lacks b'|') ss
    → All (Lacks b',') ss
    → All (Lacks b';') ss
    → All (Lacks b':') ss
    → All IsClean ss
All-zip₄ [] _ _ _ _ = tt
All-zip₄ (s ∷ ss) (a, as_) (b, bs) (c, cs) (d, ds) =
    (IsClean-of_Lacks s a b c d, All-zip₄ ss as_ bs cs ds)

-- No bar, comma or semicolon.
abbrev IsItemText : Text → Type 0
IsItemText s = Lacks b'|' s × Lacks b',' s × Lacks b';' s

All-zip₃ :
    (ss : List Text)
    → All (Lacks b'|') ss
    → All (Lacks b',') ss
    → All (Lacks b';') ss
    → All IsItemText ss
All-zip₃ [] _ _ _ = tt
All-zip₃ (s ∷ ss) (a, as_) (b, bs) (c, cs) = ((a, b, c), All-zip₃ ss as_ bs cs)

decode_item_sound :
    (fields : List Text) (item : Item)
    → All IsClean fields
    → decode_item fields ≡ ok item
    → IsWireItem item
unfolding decode_item
decode_item_sound (order_id_str ∷ id_str ∷ status_str ∷ desc ∷ qty_str ∷ []) item
      (_, (_, (_, (clean, _)))) h =
    let (item_order_id, e1, h1) = >>=-eq-ok (parse_positive_int order_id_str "item order id") _ h in
    let (item_id, e2, h2) = >>=-eq-ok (parse_positive_int id_str "item id") _ h1 in
    let (item_status, e3, h3) = >>=-eq-ok (read_item_status status_str) _ h2 in
    let (qty, e4, h4) = >>=-eq-ok (parse_positive_int qty_str "item quantity") _ h3 in
    let made : IsWireItem (record {
      order_id = item_order_id;
      id = item_id;
      status = item_status;
      desc = desc;
      qty = qty;
    }) =
      record {
        order_id = parse_positive_int-IsPositive _ _ _ e1;
        id = parse_positive_int-IsPositive _ _ _ e2;
        status = (read_item_status_sound status_str item_status e3).0;
        desc = clean;
        qty = parse_positive_int-IsPositive _ _ _ e4;
      } in
    subst IsWireItem (ok-injective h4) made
decode_item_sound [] item _ h = cc
decode_item_sound (a ∷ []) item _ h = cc
decode_item_sound (a ∷ b ∷ []) item _ h = cc
decode_item_sound (a ∷ b ∷ c ∷ []) item _ h = cc
decode_item_sound (a ∷ b ∷ c ∷ d ∷ []) item _ h = cc
decode_item_sound (a ∷ b ∷ c ∷ d ∷ e ∷ f ∷ fields) item _ h = cc

split_item-IsClean : (s : Text) → IsItemText s → All IsClean (split s b':')
split_item-IsClean s (bar, comma, semicolon) =
    All-zip₄ (split s b':') (split-Lacks_other s b':' b'|' bar)
      (split-Lacks_other s b':' b',' comma) (split-Lacks_other s b':' b';' semicolon)
      (split-Lacks s b':')

-- The loop keeps the id and the status, and adds one item for each text.
record IsFilled (order : Order) (added : ℕ) (result : Order) : Type 0 where
  id : result.id ≡ order.id
  status : result.status ≡ order.status
  count : length result.items ≡ length order.items + added
  items : All IsWireItem result.items

decode_items_sound :
    (order : Order) (item_fields : List Text) (result : Order)
    → All IsItemText item_fields
    → All IsWireItem order.items
    → decode_items order item_fields ≡ ok result
    → IsFilled order (length item_fields) result
unfolding decode_items add_item
decode_items_sound order [] result _ items h =
    subst (IsFilled order 0) (ok-injective h)
      (record { id = refl; status = refl; count = omega arith; items = items })
decode_items_sound order (s ∷ item_fields) result (hs, h_rest) items h =
    let (item, e, h') = >>=-eq-ok (decode_item (split s b':')) _ h in
    let wire = decode_item_sound (split s b':') item (split_item-IsClean s hs) e in
    let filled =
      decode_items_sound (add_item order item) item_fields result h_rest
        (All-append IsWireItem order.items (item ∷ []) items (wire, tt)) h' in
    record {
      id = filled.id;
      status = filled.status;
      count = omega (arith, filled.count, length-append order.items (item ∷ []));
      items = filled.items;
    }

decode_some_items_sound :
    (order : Order) (item_fields : List Text) (result : Order)
    → All IsItemText item_fields
    → order.items ≡ []
    → decode_some_items order item_fields ≡ ok result
    → (result.id ≡ order.id)
      × (result.status ≡ order.status)
      × (result.items ≢ [])
      × All IsWireItem result.items
unfolding decode_some_items
decode_some_items_sound order [] result _ _ h = cc
decode_some_items_sound order (s ∷ item_fields) result hs none_yet h =
    let filled = decode_items_sound order (s ∷ item_fields) result hs (rw none_yet tt) h in
    (
      filled.id,
      filled.status,
      (λ z. absurd (omega (arith, ap length z, filled.count))),
      filled.items,
    )

split_items-IsItemText : (s : Text) → Lacks b'|' s → Lacks b',' s → All IsItemText (split s b';')
split_items-IsItemText s bar comma =
    All-zip₃ (split s b';') (split-Lacks_other s b';' b'|' bar)
      (split-Lacks_other s b';' b',' comma) (split-Lacks s b';')

decode_order_fields_sound :
    (fields : List Text) (order : Order)
    → All (Lacks b'|') fields
    → All (Lacks b',') fields
    → decode_order_fields fields ≡ ok order
    → IsWireOrder order
unfolding decode_order_fields
decode_order_fields_sound (id_str ∷ status_str ∷ items_str ∷ []) order (_, (_, (bar, _)))
      (_, (_, (comma, _))) h =
    let (order_id, e1, h1) = >>=-eq-ok (parse_positive_int id_str "order id") _ h in
    let (order_status, e2, h2) = >>=-eq-ok (read_order_status status_str) _ h1 in
    let (same_id, same_status, ne, items) =
      decode_some_items_sound (new_order order_id order_status) (split items_str b';') order
        (split_items-IsItemText items_str bar comma) refl h2 in
    record {
      id = rw same_id (parse_positive_int-IsPositive _ _ _ e1);
      status = rw same_status (read_order_status_sound status_str order_status e2).0;
      some_item = ne;
      items = items;
    }
decode_order_fields_sound [] order _ _ h = cc
decode_order_fields_sound (a ∷ []) order _ _ h = cc
decode_order_fields_sound (a ∷ b ∷ []) order _ _ h = cc
decode_order_fields_sound (a ∷ b ∷ c ∷ d ∷ fields) order _ _ h = cc

-- A text without a bar decodes, if at all, to an order that can be encoded again: positive numbers
-- that fit an `int`, valid statuses, at least one item, and no separator in a description.
pub decode_order-IsWireOrder :
    (s : Text) (order : Order) → Lacks b'|' s → decode_order s ≡ ok order → IsWireOrder order
unfolding decode_order
decode_order-IsWireOrder s order bar h =
    decode_order_fields_sound (split s b',') order (split-Lacks_other s b',' b'|' bar)
      (split-Lacks s b',') h
