-- ===== src/Wire/Fields.antt =====
-- The fields of a wire message: integers and the names of enumerators, with the checks that
-- `decode` makes on them.
pub mod Sound
pub mod Clean
use restuarant_ordering_csf.Base.{
  ℕ, ℤ, pos, leb_ℤ, Bool, true, false, ◌||◌, ◌!=◌, ◌==◌, nat_eq, some, none, Text, String, length,
  if◌then◌else◌, Eq,
}
use restuarant_ordering_csf.Except.{Result, Exception, ok, err, invalid_message, ◌>>=◌}
use restuarant_ordering_csf.Numbers.{stoi}
use restuarant_ordering_csf.Model.{
  ClientMode, ItemStatus, OrderStatus, mode_eq, item_status_eq, order_status_eq,
}
use restuarant_ordering_csf.Wire.Names.{str_to_client_mode, str_to_item_status, str_to_order_status}
use Prim.Native.String.{◌++◌ as str_append}

-- The body of both functions `parse_positive_int`, over the exceptions that each throws.
abbrev pub parse_positive : Exception → Exception → Text → Result ℤ
parse_positive not_read not_positive str = elim (stoi str) [
  | none ↦ err not_read
  | some (number, stop) ↦
      if (stop != length str) || leb_ℤ number (pos 0) then err not_positive else ok number
]

-- `parse_positive_int` of src/wire.cpp.
unfoldable pub parse_positive_int : Text → String → Result ℤ
parse_positive_int str field_name =
    parse_positive (invalid_message (str_append "invalid integer field: " field_name))
      (invalid_message (str_append "invalid positive integer field: " field_name)) str

-- A name is read, and the invalid enumerator is refused.
unfoldable pub read_client_mode : Text → Result ClientMode
read_client_mode s =
    let mode = str_to_client_mode s in
    if mode == ClientMode.invalid then err (invalid_message "invalid client mode") else ok mode

unfoldable pub read_item_status : Text → Result ItemStatus
read_item_status s =
    let item_status = str_to_item_status s in
    if item_status == ItemStatus.invalid
    then err (invalid_message "invalid item status")
    else ok item_status

unfoldable pub read_order_status : Text → Result OrderStatus
read_order_status s =
    let order_status = str_to_order_status s in
    if order_status == OrderStatus.invalid
    then err (invalid_message "invalid order status")
    else ok order_status
