-- ===== src/Wire/Names.antt =====
-- The names of the enumerators on the wire, both ways.
pub mod Inverse
use restuarant_ordering_csf.Base.{
  Bool, List, [], ◌∷◌, Option, none, some, Text, codes, Eq, ◌==◌, text_eq, if◌then◌else◌,
}
use restuarant_ordering_csf.Model.{
  ClientMode, ItemStatus, OrderStatus, mode_eq, item_status_eq, order_status_eq,
}
use restuarant_ordering_csf.Message.{MessageType, message_type_eq}
use restuarant_ordering_csf.Util.{invert_unordered_map}

-- `std::unordered_map::find`; `none` is `end()`.
find_entry {ℓ κ} : {K : Type ℓ} {V : Type κ} ⦃e : Eq K⦄ → K → List (K × V) → Option V
find_entry k [] = none
find_entry k ((j, v) ∷ m) = if j == k then some v else find_entry k m

abbrev or_else {ℓ} : {A : Type ℓ} → Option A → A → A
or_else none default = default
or_else (some a) default = a

client_mode_names : List (ClientMode × Text)
client_mode_names =
    (ClientMode.invalid, codes "INVALID")
    ∷ (ClientMode.updater, codes "UPDATER")
    ∷ (ClientMode.display, codes "DISPLAY")
    ∷ []

message_type_names : List (MessageType × Text)
message_type_names =
    (MessageType.invalid, codes "INVALID")
    ∷ (MessageType.login, codes "LOGIN")
    ∷ (MessageType.quit, codes "QUIT")
    ∷ (MessageType.order_new, codes "ORDER_NEW")
    ∷ (MessageType.item_update, codes "ITEM_UPDATE")
    ∷ (MessageType.order_update, codes "ORDER_UPDATE")
    ∷ (MessageType.ok_reply, codes "OK")
    ∷ (MessageType.error_reply, codes "ERROR")
    ∷ (MessageType.disp_order, codes "DISP_ORDER")
    ∷ (MessageType.disp_item_update, codes "DISP_ITEM_UPDATE")
    ∷ (MessageType.disp_order_update, codes "DISP_ORDER_UPDATE")
    ∷ (MessageType.disp_heartbeat, codes "DISP_HEARTBEAT")
    ∷ []

item_status_names : List (ItemStatus × Text)
item_status_names =
    (ItemStatus.invalid, codes "INVALID")
    ∷ (ItemStatus.new, codes "NEW")
    ∷ (ItemStatus.in_progress, codes "IN_PROGRESS")
    ∷ (ItemStatus.done, codes "DONE")
    ∷ []

order_status_names : List (OrderStatus × Text)
order_status_names =
    (OrderStatus.invalid, codes "INVALID")
    ∷ (OrderStatus.new, codes "NEW")
    ∷ (OrderStatus.in_progress, codes "IN_PROGRESS")
    ∷ (OrderStatus.done, codes "DONE")
    ∷ (OrderStatus.delivered, codes "DELIVERED")
    ∷ []

unfoldable pub client_mode_to_str : ClientMode → Text
unfolding find_entry client_mode_names
client_mode_to_str mode = or_else (find_entry mode client_mode_names) (codes "<invalid>")

unfoldable pub str_to_client_mode : Text → ClientMode
unfolding find_entry invert_unordered_map client_mode_names
str_to_client_mode s =
    or_else (find_entry s (invert_unordered_map client_mode_names)) ClientMode.invalid

unfoldable pub message_type_to_str : MessageType → Text
unfolding find_entry message_type_names
message_type_to_str kind = or_else (find_entry kind message_type_names) (codes "<invalid>")

unfoldable pub str_to_message_type : Text → MessageType
unfolding find_entry invert_unordered_map message_type_names
str_to_message_type s =
    or_else (find_entry s (invert_unordered_map message_type_names)) MessageType.invalid

unfoldable pub item_status_to_str : ItemStatus → Text
unfolding find_entry item_status_names
item_status_to_str status = or_else (find_entry status item_status_names) (codes "<invalid>")

unfoldable pub str_to_item_status : Text → ItemStatus
unfolding find_entry invert_unordered_map item_status_names
str_to_item_status s =
    or_else (find_entry s (invert_unordered_map item_status_names)) ItemStatus.invalid

unfoldable pub order_status_to_str : OrderStatus → Text
unfolding find_entry order_status_names
order_status_to_str status = or_else (find_entry status order_status_names) (codes "<invalid>")

unfoldable pub str_to_order_status : Text → OrderStatus
unfolding find_entry invert_unordered_map order_status_names
str_to_order_status s =
    or_else (find_entry s (invert_unordered_map order_status_names)) OrderStatus.invalid
