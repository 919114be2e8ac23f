-- ===== src/Wire/Fields/Sound.antt =====
-- What the field readers accept, and that they read back what is printed.
use restuarant_ordering_csf.Base.{
  ℕ, ℤ, pos, negsuc, ◌<◌, ◌≤◌, int_max, IsPositive, ◌≡◌, ◌≢◌, ◌↔◌, refl, Text, String, length,
  arith, some, nat_eq,
}
use restuarant_ordering_csf.Except.{Exception, ok}
use restuarant_ordering_csf.Numbers.{stoi, to_string}
use restuarant_ordering_csf.Numbers.Read.{Spells, stoi_sound, stoi_complete, stoi-to_string}
use restuarant_ordering_csf.Model.{
  ClientMode, ItemStatus, OrderStatus, mode_eq, item_status_eq, order_status_eq,
}
use restuarant_ordering_csf.Wire.Names.{
  str_to_client_mode, client_mode_to_str, str_to_item_status, item_status_to_str,
  str_to_order_status, order_status_to_str,
}
use restuarant_ordering_csf.Wire.Names.Inverse.{
  str_to_client_mode-to_str, str_to_item_status-to_str, str_to_order_status-to_str,
}
use restuarant_ordering_csf.Wire.Fields.{
  parse_positive, parse_positive_int, read_client_mode, read_item_status, read_order_status,
}

module _ (not_read not_positive : Exception) where
  accepted :
      (str : Text) (number : ℤ)
      → parse_positive not_read not_positive str ≡ ok number
      → (n : ℕ) × (number ≡ pos n) × (0 < n) × (stoi str ≡ some (pos n, length str))
  accepted str (pos n) h = (n, refl, ground arith, ground arith)
  accepted str (negsuc n) h = absurd (ground arith)

  accepts :
      (str : Text) (n : ℕ)
      → 0 < n
      → stoi str ≡ some (pos n, length str)
      → parse_positive not_read not_positive str ≡ ok (pos n)
  accepts str n big e = rw (parse_positive, e) (ground arith)

  -- Exactly the spellings of the positive numbers that fit an `int` are accepted.
  pub parse_positive_iff :
      (str : Text) (n : ℕ)
      → (parse_positive not_read not_positive str ≡ ok (pos n))
        ↔ (Spells str n × (0 < n) × (n ≤ int_max))
  parse_positive_iff str n = (
    λ h.
        let (m, e, big, read) = accepted str (pos n) h in
        let same : m ≡ n = ground arith in
        let (spells, fits) = stoi_sound str m big read in
        (rw (← same) spells, rw (← same) big, rw (← same) fits),
    λ (spells, big, fits). accepts str n big (stoi_complete str n spells fits),
  )

  pub parse_positive-IsPositive :
      (str : Text) (number : ℤ)
      → parse_positive not_read not_positive str ≡ ok number
      → IsPositive number
  parse_positive-IsPositive str number h =
      let (m, e, big, read) = accepted str number h in rw e (big, (stoi_sound str m big read).1)

  pub parse_positive-to_string :
      (number : ℤ)
      → IsPositive number
      → parse_positive not_read not_positive (to_string number) ≡ ok number
  parse_positive-to_string (pos n) (big, fits) =
      accepts (to_string (pos n)) n big (stoi-to_string n fits)
  parse_positive-to_string (negsuc n) h = absurd h

-- `parse_positive_int` accepts exactly the spellings (blanks, at most a plus sign, and decimal
-- digits up to the end) of the numbers from 1 to the largest `int`, and returns their value.
pub parse_positive_int_iff :
    (str : Text) (field_name : String) (number : ℤ)
    → (parse_positive_int str field_name ≡ ok number)
      ↔ ((n : ℕ) × (number ≡ pos n) × Spells str n × (0 < n) × (n ≤ int_max))
unfolding parse_positive_int
parse_positive_int_iff str field_name number = (
  λ h.
      let (n, e, _, _) = accepted _ _ str number h in
      let (spells, big, fits) = (parse_positive_iff _ _ str n).0 (rw e at h) in
      (n, e, spells, big, fits),
  λ (n, e, spells, big, fits). rw e ((parse_positive_iff _ _ str n).1 (spells, big, fits)),
)

pub parse_positive_int-IsPositive :
    (str : Text) (field_name : String) (number : ℤ)
    → parse_positive_int str field_name ≡ ok number
    → IsPositive number
unfolding parse_positive_int
parse_positive_int-IsPositive str field_name number h = parse_positive-IsPositive _ _ str number h

-- A positive `int` is read back from its print.
pub parse_positive_int-to_string :
    (number : ℤ) (field_name : String)
    → IsPositive number
    → parse_positive_int (to_string number) field_name ≡ ok number
unfolding parse_positive_int
parse_positive_int-to_string number field_name h = parse_positive-to_string _ _ number h

pub read_client_mode-to_str :
    (mode : ClientMode)
    → mode ≢ ClientMode.invalid
    → read_client_mode (client_mode_to_str mode) ≡ ok mode
unfolding read_client_mode
read_client_mode-to_str mode h = rw str_to_client_mode-to_str (ground arith)

pub read_client_mode_sound :
    (s : Text) (mode : ClientMode)
    → read_client_mode s ≡ ok mode
    → (mode ≢ ClientMode.invalid) × (str_to_client_mode s ≡ mode)
unfolding read_client_mode
read_client_mode_sound s mode h = ground arith

pub read_item_status-to_str :
    (status : ItemStatus)
    → status ≢ ItemStatus.invalid
    → read_item_status (item_status_to_str status) ≡ ok status
unfolding read_item_status
read_item_status-to_str status h = rw str_to_item_status-to_str (ground arith)

pub read_item_status_sound :
    (s : Text) (status : ItemStatus)
    → read_item_status s ≡ ok status
    → (status ≢ ItemStatus.invalid) × (str_to_item_status s ≡ status)
unfolding read_item_status
read_item_status_sound s status h = ground arith

pub read_order_status-to_str :
    (status : OrderStatus)
    → status ≢ OrderStatus.invalid
    → read_order_status (order_status_to_str status) ≡ ok status
unfolding read_order_status
read_order_status-to_str status h = rw str_to_order_status-to_str (ground arith)

pub read_order_status_sound :
    (s : Text) (status : OrderStatus)
    → read_order_status s ≡ ok status
    → (status ≢ OrderStatus.invalid) × (str_to_order_status s ≡ status)
unfolding read_order_status
read_order_status_sound s status h = ground arith
