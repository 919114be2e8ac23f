-- ===== src/Message.antt =====
-- include/message.h and src/message.cpp: one record holds the data of every kind of message.
mod Kinds
pub mod Equality
pub use Kinds.*
use restuarant_ordering_csf.Base.{
  ℕ, ℤ, pos, negsuc, leb_ℤ, Bool, true, false, not, ◌&&◌, ◌||◌, [], ◌∷◌, Option, none, some, Text,
  ◌==◌, ◌!=◌, int_eq, text_eq, nat_eq, if◌then◌else◌,
}
use restuarant_ordering_csf.Model.{
  ClientMode, ItemStatus, OrderStatus, mode_eq, item_status_eq, order_status_eq, Order,
  order_equals, duplicate,
}

pub record Message : Type 0 where
  pub kind : MessageType
  pub client_mode : ClientMode
  pub str : Text
  pub order : Option Order
  pub order_id : ℤ
  pub order_status : OrderStatus
  pub item_id : ℤ
  pub item_status : ItemStatus

-- `Message()`: every field is empty or invalid.
abbrev pub empty_message : Message
empty_message = record {
  kind = MessageType.invalid;
  client_mode = ClientMode.invalid;
  str = [];
  order = none;
  order_id = negsuc 0;
  order_status = OrderStatus.invalid;
  item_id = negsuc 0;
  item_status = ItemStatus.invalid;
}

-- The other constructors.
abbrev pub plain_message : MessageType → Message
plain_message kind = record empty_message { kind = kind }

abbrev pub str_message : MessageType → Text → Message
str_message kind str = record empty_message { kind = kind; str = str }

abbrev pub login_message : MessageType → ClientMode → Text → Message
login_message kind client_mode str = record empty_message {
  kind = kind;
  client_mode = client_mode;
  str = str;
}

abbrev pub order_message : MessageType → Option Order → Message
order_message kind order = record empty_message { kind = kind; order = order }

abbrev pub order_status_message : MessageType → ℤ → OrderStatus → Message
order_status_message kind order_id order_status = record empty_message {
  kind = kind;
  order_id = order_id;
  order_status = order_status;
}

abbrev pub item_status_message : MessageType → ℤ → ℤ → ItemStatus → Message
item_status_message kind order_id item_id item_status = record empty_message {
  kind = kind;
  order_id = order_id;
  item_id = item_id;
  item_status = item_status;
}

abbrev pub has_client_mode : Message → Bool
has_client_mode msg = msg.client_mode != ClientMode.invalid

abbrev is_empty : Text → Bool
is_empty [] = true
is_empty (c ∷ s) = false

abbrev pub has_str : Message → Bool
has_str msg = not (is_empty msg.str)

abbrev is_set : Option Order → Bool
is_set none = false
is_set (some order) = true

abbrev pub has_order : Message → Bool
has_order msg = is_set msg.order

abbrev pub has_order_id : Message → Bool
has_order_id msg = leb_ℤ (pos 0) msg.order_id

abbrev pub has_order_status : Message → Bool
has_order_status msg = msg.order_status != OrderStatus.invalid

abbrev pub has_item_id : Message → Bool
has_item_id msg = leb_ℤ (pos 0) msg.item_id

abbrev pub has_item_status : Message → Bool
has_item_status msg = msg.item_status != ItemStatus.invalid

-- The deep copy of the order, if there is one.
copy_order : Option Order → Option Order
copy_order none = none
copy_order (some order) = some (duplicate (negsuc 0) OrderStatus.invalid order)

-- `Message::operator=`. The first argument says whether the two are one object.
unfoldable pub assign_message : Bool → Message → Message → Message
unfolding copy_order
assign_message true this rhs = this
assign_message false this rhs = record {
  kind = rhs.kind;
  client_mode = rhs.client_mode;
  str = rhs.str;
  order = copy_order rhs.order;
  order_id = rhs.order_id;
  order_status = rhs.order_status;
  item_id = rhs.item_id;
  item_status = rhs.item_status;
}

-- `Message::duplicate`, by the copy constructor.
unfoldable pub duplicate_message : Message → Message
unfolding assign_message
duplicate_message msg = assign_message false empty_message msg

-- The test of `Message::operator==` on the orders: it looks at the left message first.
orders_differ : Option Order → Option Order → Bool
orders_differ none right = false
orders_differ (some a) none = true
orders_differ (some a) (some b) = not (order_equals a b)

-- `Message::operator==`
unfoldable pub message_equals : Message → Message → Bool
unfolding orders_differ
message_equals a b =
    if (a.kind != b.kind)
      || ((a.client_mode != b.client_mode)
          || ((a.str != b.str)
              || (orders_differ a.order b.order
                  || ((a.order_id != b.order_id)
                      || ((a.order_status != b.order_status)
                          || ((a.item_id != b.item_id) || (a.item_status != b.item_status)))))))
    then false
    else true
