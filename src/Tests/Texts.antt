-- ===== src/Tests/Texts.antt =====
-- The wire format and its helpers.
use restuarant_ordering_csf.Base.{ℕ, pos, ◌<◌, ◌≤◌, int_max, ◌≡◌, ◌↔◌, refl, some, codes}
use restuarant_ordering_csf.Except.{ok, ◌>>=◌}
use restuarant_ordering_csf.Util.{split}
use restuarant_ordering_csf.Util.Parts.{parts}
use restuarant_ordering_csf.Util.Split.{split-eq-parts}
use restuarant_ordering_csf.Model.{ItemStatus}
use restuarant_ordering_csf.Message.{Message, MessageType, order_message, item_status_message}
use restuarant_ordering_csf.Numbers.Read.{Spells}
use restuarant_ordering_csf.Wire.{encode, decode}
use restuarant_ordering_csf.Numbers.{to_string, stoi}
use restuarant_ordering_csf.Wire.Names.{
  str_to_message_type, order_status_to_str, item_status_to_str, str_to_item_status,
}
use restuarant_ordering_csf.Wire.Fields.{parse_positive_int, read_item_status}
use restuarant_ordering_csf.Wire.Fields.Sound.{parse_positive_int_iff}
use restuarant_ordering_csf.Wire.Orders.{encode_order}
use restuarant_ordering_csf.Wire.Shape.{IsReceivable, IsWireMessage}
use restuarant_ordering_csf.Wire.RoundTrip.{decode-encode}
use restuarant_ordering_csf.Wire.Sound.{decode-IsReceivable}
use restuarant_ordering_csf.Wire.Canonical.{decode-encode-decode}
use restuarant_ordering_csf.Tests.Data.{lunch, lunch-IsWireOrder}

encoded_lunch :
    encode (order_message MessageType.order_new (some lunch))
    ≡ ok (codes "ORDER_NEW|1,NEW,1:7:NEW:Fries:2")
unfolding encode encode_order to_string order_status_to_str item_status_to_str
encoded_lunch = refl

abbrev done_fries : Message
done_fries = item_status_message MessageType.item_update (pos 1000) (pos 7) ItemStatus.done

decoded_update : decode (codes "ITEM_UPDATE|1000|7|DONE") ≡ ok done_fries
unfolding decode split str_to_message_type parse_positive_int stoi read_item_status
    str_to_item_status
decoded_update = refl

split-eq-parts_example : split (codes "a|b") b'|' ≡ parts b'|' (codes "a|b")
split-eq-parts_example = split-eq-parts (codes "a|b") b'|'

decode-encode_example :
    (encode (order_message MessageType.disp_order (some lunch)) >>= decode)
    ≡ ok (order_message MessageType.disp_order (some lunch))
decode-encode_example =
    decode-encode (order_message MessageType.disp_order (some lunch))
      (IsWireMessage.disp_order lunch lunch-IsWireOrder)

decode-IsReceivable_example : IsReceivable done_fries
decode-IsReceivable_example =
    decode-IsReceivable (codes "ITEM_UPDATE|1000|7|DONE") done_fries decoded_update

decode-encode-decode_example : (encode done_fries >>= decode) ≡ ok done_fries
decode-encode-decode_example =
    decode-encode-decode (codes "ITEM_UPDATE|1000|7|DONE") done_fries decoded_update
      (λ e. absurd (cc))

parse_positive_int_iff_example :
    (parse_positive_int (codes " +042") "order id" ≡ ok (pos 42))
    ↔ ((n : ℕ) × (pos 42 ≡ pos n) × Spells (codes " +042") n × (0 < n) × (n ≤ int_max))
parse_positive_int_iff_example = parse_positive_int_iff (codes " +042") "order id" (pos 42)
