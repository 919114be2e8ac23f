-- ===== src/ClientUtil.antt =====
-- include/client_util.h and src/client_util.cpp: what both client programs do with their
-- connection, and the integers that a user types.
pub mod Exchange
pub mod Program
use restuarant_ordering_csf.Base.{
  ℕ, ℤ, leb_ℤ, ltb_ℤ, pos, Bool, true, false, ◌||◌, ◌!=◌, nat_eq, List, [], ◌∷◌, ◌++◌, Option, none,
  some, Text, String, codes, length, if◌then◌else◌,
}
use restuarant_ordering_csf.Except.{Result, ok, err, protocol_error, io_exception, ◌>>=◌}
use restuarant_ordering_csf.Numbers.{stoi}
use restuarant_ordering_csf.Message.{Message}
use restuarant_ordering_csf.Wire.{encode, decode}
use restuarant_ordering_csf.Io.{Rio}
use restuarant_ordering_csf.Io
use restuarant_ordering_csf.Wire.Fields.{parse_positive}
use Prim.Native.String.{◌++◌ as str_append}

-- The argument is what `open_clientfd` returns.
unfoldable pub connect_to_server : ℤ → Result ℤ
connect_to_server fd =
    if ltb_ℤ fd (pos 0) then err (io_exception "could not connect to server") else ok fd

-- `std::getline(std::cin, line)`: the next line of the input, and whether there was one; without
-- one the string is empty.
unfoldable pub getline : List Text → Text × List Text
getline [] = ([], [])
getline (line ∷ lines) = (line, lines)

-- What the user is asked for, joined by a slash.
unfoldable pub prompt_for_credentials : List Text → Text × List Text
unfolding getline
prompt_for_credentials input =
    let (username, after_username) = getline input in
    let (password, rest) = getline after_username in (username ++ b'/' ∷ password, rest)

module _ {W : Type 0} (rio : Rio W) where
  send_encoded : Result Text → W → Result (Unit {0}) × W
  send_encoded (err e) w = (err e, w)
  send_encoded (ok encoded) w = Io.send rio encoded w

  unfoldable pub send_message : Message → W → Result (Unit {0}) × W
  unfolding send_encoded
  send_message msg w = send_encoded (encode msg) w

  unfoldable pub receive_message : W → Result Message × W
  receive_message w = let (encoded, rest) = Io.receive rio w in (encoded >>= decode, rest)

-- `ClientUtil::parse_positive_int` throws one exception for both failures.
unfoldable pub parse_positive_int : Text → String → Result ℤ
parse_positive_int s field_name =
    let invalid = protocol_error (str_append "invalid integer for " field_name) in
    parse_positive invalid invalid s
