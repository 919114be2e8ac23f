-- ===== src/Io.antt =====
-- include/io.h and src/io.cpp: framing. `rio_readn` and `rio_writen` of the CS:APP library are the
-- operations of the interface `Rio` over a file descriptor's state `W`.
pub mod Prefix
pub mod Framing
use restuarant_ordering_csf.Base.{
  ℕ, zero, suc, ◌+◌, ◌-◌, ltb, leb, ℤ, pos, negsuc, leb_ℤ, Bool, true, false, ◌&&◌, List, [], ◌∷◌,
  ◌++◌, Option, none, some, Text, ◌==◌, nat_eq, if◌then◌else◌, length, replicate, take, get_elem?,
  pos_part, ◌!=◌, int_eq,
}
use restuarant_ordering_csf.Except.{Result, ok, err, io_exception, ◌>>=◌}
use restuarant_ordering_csf.Numbers.{show_ℕ, stoi, is_digit}

-- The calls of the CS:APP library. `readn` returns the bytes that it read, `none` for -1; `writen`
-- returns the number of bytes written, or -1.
pub record Rio (W : Type 0) : Type 0 where
  pub readn : W → ℕ → Option Text × W
  pub writen : W → Text → ℤ × W

abbrev pub newline : ℕ
newline = 10

-- `std::setw(width) << std::setfill(fill)` in front of a text.
abbrev pub pad : ℕ → ℕ → Text → Text
pad width fill s = replicate (width - length s) fill ++ s

unfoldable pub make_length_prefix : ℕ → Result Text
make_length_prefix payload_len_with_newline =
    if ltb 9999 payload_len_with_newline
    then err (io_exception "message too long to frame")
    else ok (pad 4 b'0' (show_ℕ payload_len_with_newline))

-- The loop that looks for a character that is no digit.
all_digits : Text → Bool
all_digits [] = true
all_digits (c ∷ s) = is_digit c && all_digits s

-- `std::stoi` does not fail on what the loop lets through; its failure is the branch `none`.
unfoldable pub parse_length_prefix : Text → Result ℤ
unfolding all_digits
parse_length_prefix prefix =
    if all_digits prefix
    then elim (stoi prefix) [
      | none ↦ err (io_exception "stoi")
      | some (n, stop) ↦
          if leb_ℤ n (pos 0) then err (io_exception "invalid framed length") else ok n
    ]
    else err (io_exception "invalid length prefix")

abbrev pub magnitude : ℤ → ℕ
magnitude = pos_part

-- The tests on the body: its length, and the newline at its end.
check_body : ℕ → Option Text → Result Text
check_body framed_len none = err (io_exception "error reading framed payload")
check_body framed_len (some body) =
    if length body != framed_len
    then err (io_exception "error reading framed payload")
    else elim (get_elem? body (length body - 1)) [
      | none ↦ err (io_exception "missing terminating newline in framed payload")
      | some back ↦
          if back != newline
          then err (io_exception "missing terminating newline in framed payload")
          else ok (take (length body - 1) body)
    ]

module _ {W : Type 0} (rio : Rio W) where
  -- The test on the count that `rio_writen` returns.
  written : ℕ → ℤ × W → Result (Unit {0}) × W
  written size (n, w) =
      if n != pos size then (err (io_exception "error sending framed message"), w) else (ok tt, w)

  send_framed : Text → Result Text → W → Result (Unit {0}) × W
  unfolding written
  send_framed s (err e) w = (err e, w)
  send_framed s (ok prefix) w =
      let framed = prefix ++ (s ++ newline ∷ []) in written (length framed) (rio.writen w framed)

  unfoldable pub send : Text → W → Result (Unit {0}) × W
  unfolding send_framed
  send s w = send_framed s (make_length_prefix (length s + 1)) w

  receive_body : Result ℤ → W → Result Text × W
  unfolding check_body
  receive_body (err e) w = (err e, w)
  receive_body (ok framed_len) w =
      let (got, w') = rio.readn w (magnitude framed_len) in
      (check_body (magnitude framed_len) got, w')

  receive_prefix : Option Text × W → Result Text × W
  unfolding receive_body
  receive_prefix (none, w) = (err (io_exception "error reading length prefix"), w)
  receive_prefix (some size_prefix, w) =
      if length size_prefix != 4
      then (err (io_exception "error reading length prefix"), w)
      else receive_body (parse_length_prefix size_prefix) w

  unfoldable pub receive : W → Result Text × W
  unfolding receive_prefix
  receive w = receive_prefix (rio.readn w 4)
