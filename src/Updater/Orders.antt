-- ===== src/Updater/Orders.antt =====
-- src/updater_main.cpp: the order that the updater makes of the user's input.
use mathlib.Core.Path.{subst}
use restuarant_ordering_csf.Base.{
  ℕ, zero, suc, ℤ, pos, ◌<◌, IsPositive, true, ◌≡◌, ◌≢◌, refl, sym, ap, List, [], ◌∷◌, ◌+◌, some,
  Text, String, arith, length, length-append, All, All-append,
}
use restuarant_ordering_csf.Except.{ok, >>=-eq-ok, ok-injective}
use restuarant_ordering_csf.Model.{Item, Order, ItemStatus, OrderStatus, new_order, add_item}
use restuarant_ordering_csf.Message.{Message, MessageType, order_message}
use restuarant_ordering_csf.Server.Lifecycle.{all_new}
use restuarant_ordering_csf.Wire.Fields.Clean.{IsClean}
use restuarant_ordering_csf.Wire.Fields.Sound.{parse_positive-IsPositive}
use restuarant_ordering_csf.Wire.Orders.Shape.{IsWireItem}
use restuarant_ordering_csf.Wire.Shape.{IsSendable, IsWireMessage}
use restuarant_ordering_csf.ClientUtil.{getline, parse_positive_int}
use restuarant_ordering_csf.Updater.{count, read_item, read_items, order_new_request}

parsed-IsPositive :
    (s : Text) (field : String) (n : ℤ) → parse_positive_int s field ≡ ok n → IsPositive n
unfolding parse_positive_int
parsed-IsPositive s field n h = parse_positive-IsPositive _ _ s n h

-- An item as the updater makes it: of the temporary order 1, NEW, with a positive id and quantity.
pub record IsDraftItem (item : Item) : Type 0 where
  pub of_draft : item.order_id ≡ pos 1
  pub is_new : item.status ≡ ItemStatus.new
  pub id : IsPositive item.id
  pub qty : IsPositive item.qty

pub record IsDraft (n : ℕ) (order : Order) : Type 0 where
  pub own_id : order.id ≡ pos 1
  pub is_new : order.status ≡ OrderStatus.new
  pub as_many : length order.items ≡ n
  pub items : All IsDraftItem order.items

read_item-IsDraftItem :
    (input rest : List Text) (item : Item) → read_item input ≡ ok (item, rest) → IsDraftItem item
unfolding read_item
read_item-IsDraftItem input rest item h =
    let (id, e1, h1) = >>=-eq-ok (parse_positive_int (getline input).0 "item id") _ h in
    let (qty, e2, h2) =
      >>=-eq-ok (parse_positive_int (getline (getline (getline input).1).1).0 "item quantity") _
        h1 in
    subst IsDraftItem (ap (λ p. p.0) (ok-injective h2)) (record {
      of_draft = refl;
      is_new = refl;
      id = parsed-IsPositive _ _ id e1;
      qty = parsed-IsPositive _ _ qty e2;
    })

read_items-IsDraft :
    (left n : ℕ) (order made : Order) (input rest : List Text)
    → IsDraft n order
    → read_items left order input ≡ ok (made, rest)
    → IsDraft (n + left) made
unfolding read_items add_item
read_items-IsDraft zero n order made input rest d h =
    subst (IsDraft (n + zero)) (ap (λ p. p.0) (ok-injective h))
      (subst (λ k. IsDraft k order) (omega arith) d)
read_items-IsDraft (suc left) n order made input rest d h =
    let (got, e, h1) = >>=-eq-ok (read_item input) _ h in
    let added : IsDraft (suc n) (add_item order got.0) = record {
      own_id = d.own_id;
      is_new = d.is_new;
      as_many = omega (arith, length-append order.items (got.0 ∷ []), d.as_many);
      items =
          All-append IsDraftItem order.items (got.0 ∷ []) d.items
            (read_item-IsDraftItem input got.1 got.0 e, tt);
    } in
    subst (λ k. IsDraft k made) (omega arith)
      (read_items-IsDraft left (suc n) (add_item order got.0) made got.1 rest added h1)

draft-all_new : (items : List Item) → All IsDraftItem items → all_new items ≡ true
unfolding all_new
draft-all_new [] _ = refl
draft-all_new (item ∷ items) (h, hs) = rw (h.is_new, draft-all_new items hs) refl

positive_count : (n : ℤ) → IsPositive n → 0 < 0 + count n
positive_count (pos n) h = omega (arith, h.0)
positive_count (ℤ.negsuc n) h = absurd h

draft-IsWireItem :
    (items : List Item)
    → All IsDraftItem items
    → All (λ (item : Item). IsClean item.desc) items
    → All IsWireItem items
draft-IsWireItem [] _ _ = tt
draft-IsWireItem (item ∷ items) (h, hs) (clean, cleans) = (
  record {
    order_id = rw (h.of_draft) (omega arith);
    id = h.id;
    status = rw (h.is_new) (λ e. cc);
    desc = clean;
    qty = h.qty;
  },
  draft-IsWireItem items hs cleans,
)

-- The order of an order_new command.
pub record Drafted (msg : Message) : Type 0 where
  pub order : Order
  pub carried : msg ≡ order_message MessageType.order_new (some order)
  pub n : ℕ
  pub some_item : 0 < n
  pub draft : IsDraft n order

-- An order_new command sends an order with the id 1 and the status NEW that has at least one item;
-- its items are NEW too, with positive ids and quantities.
pub order_new_request-Drafted :
    (input rest : List Text) (msg : Message)
    → order_new_request input ≡ ok (msg, rest)
    → (d : Drafted msg) × (all_new d.order.items ≡ true)
unfolding order_new_request
order_new_request-Drafted input rest msg h =
    let (n, e1, h1) = >>=-eq-ok (parse_positive_int (getline input).0 "number of items") _ h in
    let (got, e2, h2) =
      >>=-eq-ok (read_items (count n) (new_order (pos 1) OrderStatus.new) (getline input).1) _ h1 in
    let draft =
      read_items-IsDraft (count n) 0 (new_order (pos 1) OrderStatus.new) got.0 (getline input).1
        got.1 (record { own_id = refl; is_new = refl; as_many = refl; items = tt }) e2 in
    (
      record {
        order = got.0;
        carried = sym (ap (λ p. p.0) (ok-injective h2));
        n = 0 + count n;
        some_item = positive_count n (parsed-IsPositive _ _ n e1);
        draft = draft;
      },
      draft-all_new got.0.items draft.items,
    )

some_items : (items : List Item) (n : ℕ) → length items ≡ n → 0 < n → items ≢ []
some_items [] n e h = absurd (omega (arith, e, h))
some_items (item ∷ items) n e h = λ x. cc

-- Such an order is carried by the wire format if no description has one of the four separators.
pub Drafted-IsSendable :
    (msg : Message) (d : Drafted msg)
    → All (λ (item : Item). IsClean item.desc) d.order.items
    → IsSendable msg
Drafted-IsSendable msg d clean = subst IsSendable (sym d.carried) (
    IsWireMessage.order_new d.order (record {
      id = rw (d.draft.own_id) (omega arith);
      status = rw (d.draft.is_new) (λ e. cc);
      some_item = some_items d.order.items d.n d.draft.as_many d.some_item;
      items = draft-IsWireItem d.order.items d.draft.items clean;
    }))
