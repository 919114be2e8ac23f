-- ===== src/Wire/Orders/Growth.antt =====
-- src/wire.cpp and src/server.cpp: how long the message about an order gets when the server has given
-- it its id.
use restuarant_ordering_csf.Base.{
  ℕ, suc, ◌<◌, ◌≤◌, ltb, ℤ, ◌≡◌, ◌≢◌, sym, ap, ◌∙◌, List, [], ◌∷◌, ◌++◌, map, arith, Text, All,
  some, length, length-append, Bool-cases, inl, inr, codes,
}
use restuarant_ordering_csf.Except.{ok, ok-injective, ◌>>=◌, >>=-eq-ok}
use restuarant_ordering_csf.Numbers.{to_string}
use restuarant_ordering_csf.Model.{Item, Order, OrderStatus, set_order_id}
use restuarant_ordering_csf.Message.{Message, MessageType, order_message}
use restuarant_ordering_csf.Server.{admit}
use restuarant_ordering_csf.Wire.{encode}
use restuarant_ordering_csf.Wire.Names.{order_status_to_str}
use restuarant_ordering_csf.Wire.Orders.{encode_item, encode_items, encode_order}

module _ (id : ℤ) where
  -- The id has at least as many characters as the one that came with the order or an item.
  abbrev pub IsWider : ℤ → Type 0
  IsWider given = length (to_string given) ≤ length (to_string id)

  encode_item-length :
      (item : Item)
      → IsWider item.order_id
      → length (encode_item item) ≤ length (encode_item (set_order_id id item))
  unfolding encode_item
  encode_item-length item h =
      omega (arith, h, length-append (to_string item.order_id) _, length-append (to_string id) _)

  encode_items-length :
      (i : ℕ) (out longer : Text) (items : List Item)
      → length out ≤ length longer
      → All (λ (item : Item). IsWider item.order_id) items
      → length (encode_items i out items)
        ≤ length (encode_items i longer (map (set_order_id id) items))
  unfolding encode_items
  encode_items-length i out longer [] h _ = h
  encode_items-length i out longer (item ∷ items) h (wide, wides) =
      encode_items-length (suc i) _ _ items
        (elim (Bool-cases (ltb 0 i)) [
          | inl behind ↦ rw behind (
              omega (
                arith,
                h,
                encode_item-length item wide,
                length-append (out ++ b';' ∷ []) (encode_item item),
                length-append (longer ++ b';' ∷ []) (encode_item (set_order_id id item)),
                length-append out (b';' ∷ []),
                length-append longer (b';' ∷ []),
              ))
          | inr first ↦ rw first (
              omega (
                arith,
                h,
                encode_item-length item wide,
                length-append out (encode_item item),
                length-append longer (encode_item (set_order_id id item)),
              ))
        ])
        wides

-- The text of an order that has an item.
order_text : Order → Text
order_text order =
    encode_items 0 (to_string order.id ++ (b',' ∷ (order_status_to_str order.status ++ b',' ∷ [])))
      order.items

encode_some_items :
    (id : ℤ) (status : OrderStatus) (item : Item) (items : List Item)
    → let order : Order = record { id = id; status = status; items = item ∷ items } in
      encode_order (some order) ≡ ok (order_text order)
unfolding encode_order order_text
encode_some_items id status item items = ground arith

encode_no_items :
    (id : ℤ) (status : OrderStatus) (t : Text)
    → encode_order (some (record { id = id; status = status; items = [] })) ≢ ok t
unfolding encode_order
encode_no_items id status t e = ground (arith, e)

module _ (id : ℤ) where
  order_text-length :
      (order : Order)
      → order.status ≡ OrderStatus.new
      → IsWider id order.id
      → All (λ (item : Item). IsWider id item.order_id) order.items
      → length (order_text order) ≤ length (order_text (admit id order))
  unfolding order_text admit
  order_text-length order new wide wides =
      encode_items-length id 0 _ _ order.items
        (rw new (
          omega (
            arith,
            wide,
            length-append (to_string order.id)
                (b',' ∷ (order_status_to_str OrderStatus.new ++ b',' ∷ [])),
            length-append (to_string id)
                (b',' ∷ (order_status_to_str OrderStatus.new ++ b',' ∷ [])),
          )))
        wides

  admitted_text :
      (given : ℤ) (status : OrderStatus) (items : List Item) (t : Text)
      → let order : Order = record { id = given; status = status; items = items } in
        status ≡ OrderStatus.new
        → IsWider id given
        → All (λ (item : Item). IsWider id item.order_id) items
        → encode_order (some order) ≡ ok t
        → (encode_order (some (admit id order)) ≡ ok (order_text (admit id order)))
          × (length t ≤ length (order_text (admit id order)))
  unfolding admit
  admitted_text given status [] t new wide wides e = absurd (encode_no_items given status t e)
  admitted_text given status (item ∷ items) t new wide wides e =
      let order : Order = record { id = given; status = status; items = item ∷ items } in
      let same : order_text order ≡ t =
        ok-injective (sym (encode_some_items given status item items) ∙ e) in
      (
        encode_some_items id OrderStatus.new (set_order_id id item) (map (set_order_id id) items),
        omega (arith, ap length same, order_text-length order new wide wides),
      )

-- The message DISP_ORDER with which an order is announced.
abbrev pub announcement : ℤ → Order → Message
announcement id order = order_message MessageType.disp_order (some (admit id order))

-- The announcement of a NEW order is longer than the request that made it, if the server's id is at
-- least as long as the ids in the request.
pub announcement-longer :
    (id : ℤ) (order : Order) (t : Text)
    → order.status ≡ OrderStatus.new
    → IsWider id order.id
    → All (λ (item : Item). IsWider id item.order_id) order.items
    → encode (order_message MessageType.order_new (some order)) ≡ ok t
    → (u : Text) × (encode (announcement id order) ≡ ok u) × (length t < length u)
unfolding encode
announcement-longer id order t new wide wides e =
    let (payload, encoded, whole) =
      >>=-eq-ok (encode_order (some order)) (λ (x : Text). ok (codes "ORDER_NEW|" ++ x)) e in
    let (admitted, longer) =
      admitted_text id order.id order.status order.items payload new wide wides encoded in
    (
      codes "DISP_ORDER|" ++ order_text (admit id order),
      ap (λ m. m >>= (λ (x : Text). ok (codes "DISP_ORDER|" ++ x))) admitted,
      omega (arith, longer, ap length (ok-injective whole)),
    )
