-- ===== src/Message/Equality.antt =====
-- Copies of messages, and what `operator==` on messages decides.
use restuarant_ordering_csf.Base.{
  ◌!=◌, ◌||◌, Eq, if◌then◌else◌, int_eq, Bool, true, false, ◌≡◌, ◌↔◌, ◌⊎◌, arith, Option, none,
  some, text_eq, refl, ap,
}
use restuarant_ordering_csf.Model.{mode_eq, item_status_eq, order_status_eq, Order}
use restuarant_ordering_csf.Model.Equality.{order_equals_iff}
use restuarant_ordering_csf.Model.Orders.{duplicate_lem}
use restuarant_ordering_csf.Message.{
  Message, copy_order, duplicate_message, orders_differ, message_equals, message_type_eq,
}

copy_order_lem : (order : Option Order) → copy_order order ≡ order
unfolding copy_order
copy_order_lem none = refl
copy_order_lem (some order) = ap some (duplicate_lem _ _ order)

-- A duplicate of a message, which a client's queue gets, is equal to it in every field, the items
-- of its order included.
pub duplicate_message_lem : (msg : Message) → duplicate_message msg ≡ msg
unfolding duplicate_message
duplicate_message_lem msg = λ i. record msg { order = copy_order_lem msg.order i }

-- The two messages agree in every field, but the right one may have an order where the left one
-- has none.
abbrev pub CoveredBy : Message → Message → Type 0
CoveredBy a b = ((a.order ≡ none) ⊎ (a.order ≡ b.order)) × (record a { order = b.order } ≡ b)

orders_differ_iff : (a b : Option Order) → (orders_differ a b ≡ false) ↔ ((a ≡ none) ⊎ (a ≡ b))
unfolding orders_differ
orders_differ_iff none b = ground arith
orders_differ_iff (some a) none = ground arith
orders_differ_iff (some a) (some b) = ground (arith, order_equals_iff a b)

ne_or_iff {ℓ} :
    {A : Type ℓ} ⦃e : Eq A⦄ (a b : A) (rest : Bool)
    → (((a != b) || rest) ≡ false) ↔ ((a ≡ b) × (rest ≡ false))
ne_or_iff ⦃e⦄ a b rest = ground (arith, e.beq_iff a b)

or_iff : (x y : Bool) → ((x || y) ≡ false) ↔ ((x ≡ false) × (y ≡ false))
or_iff x y = ground arith

ne_iff {ℓ} : {A : Type ℓ} ⦃e : Eq A⦄ (a b : A) → ((a != b) ≡ false) ↔ (a ≡ b)
ne_iff ⦃e⦄ a b = ground (arith, e.beq_iff a b)

none_differs : (t : Bool) → ((if t then false else true) ≡ true) ↔ (t ≡ false)
none_differs t = ground arith

covered : (a b : Message) → message_equals a b ≡ true → CoveredBy a b
unfolding message_equals
covered a b h =
    let (kind, h1) = (ne_or_iff a.kind b.kind _).0 ((none_differs _).0 h) in
    let (mode, h2) = (ne_or_iff a.client_mode b.client_mode _).0 h1 in
    let (str, h3) = (ne_or_iff a.str b.str _).0 h2 in
    let (order, h4) = (or_iff (orders_differ a.order b.order) _).0 h3 in
    let (order_id, h5) = (ne_or_iff a.order_id b.order_id _).0 h4 in
    let (order_status, h6) = (ne_or_iff a.order_status b.order_status _).0 h5 in
    let (item_id, h7) = (ne_or_iff a.item_id b.item_id _).0 h6 in
    let item_status = (ne_iff a.item_status b.item_status).0 h7 in
    (
      (orders_differ_iff a.order b.order).0 order,
      λ i. record {
        kind = kind i;
        client_mode = mode i;
        str = str i;
        order = b.order;
        order_id = order_id i;
        order_status = order_status i;
        item_id = item_id i;
        item_status = item_status i;
      },
    )

covers : (a b : Message) → CoveredBy a b → message_equals a b ≡ true
unfolding message_equals
covers a b (order, rest) = (none_differs _).1 (
    (ne_or_iff a.kind b.kind _).1 (
      ap (λ (m : Message). m.kind) rest,
      (ne_or_iff a.client_mode b.client_mode _).1 (
        ap (λ (m : Message). m.client_mode) rest,
        (ne_or_iff a.str b.str _).1 (
          ap (λ (m : Message). m.str) rest,
          (or_iff (orders_differ a.order b.order) _).1 (
            (orders_differ_iff a.order b.order).1 order,
            (ne_or_iff a.order_id b.order_id _).1 (
              ap (λ (m : Message). m.order_id) rest,
              (ne_or_iff a.order_status b.order_status _).1 (
                ap (λ (m : Message). m.order_status) rest,
                (ne_or_iff a.item_id b.item_id _).1 (
                  ap (λ (m : Message). m.item_id) rest,
                  (ne_iff a.item_status b.item_status).1 (ap (λ (m : Message). m.item_status) rest),
                ),
              ),
            ),
          ),
        ),
      ),
    ))

-- `operator==` on messages is not symmetric in their orders: it holds exactly when all other
-- fields are equal, and the left message has no order or an equal one.
pub message_equals_iff : (a b : Message) → (message_equals a b ≡ true) ↔ CoveredBy a b
message_equals_iff a b = (covered a b, covers a b)
