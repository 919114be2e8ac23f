-- ===== src/Updater.antt =====
-- src/updater_main.cpp: the updater client. The lines of the standard input are a list; what the
-- program prints is a text. The main loop reads a line in every round, so there are at most as
-- many rounds as lines and one more (`commands` counts them down, see Updater/Ends).
pub mod Orders
pub mod Ends
use restuarant_ordering_csf.Base.{
  ℕ, zero, suc, ℤ, pos, Bool, true, false, ◌==◌, ◌!=◌, text_eq, List, [], ◌∷◌, ◌++◌, Option, none,
  some, Text, codes, if◌then◌else◌,
}
use restuarant_ordering_csf.Except.{Exception, Result, ok, err, protocol_error, what, ◌>>=◌}
use restuarant_ordering_csf.Model.{
  ClientMode, Item, Order, ItemStatus, OrderStatus, new_order, add_item, item_status_eq,
  order_status_eq,
}
use restuarant_ordering_csf.Message.{
  Message, MessageType, message_type_eq, str_message, login_message, order_message,
  order_status_message, item_status_message,
}
use restuarant_ordering_csf.Wire.Names.{str_to_item_status, str_to_order_status}
use restuarant_ordering_csf.Io.{Rio}
use restuarant_ordering_csf.ClientUtil.{
  getline, prompt_for_credentials, send_message, receive_message, parse_positive_int,
}

unfoldable pub print_result_response : Message → Result Text
print_result_response response =
    if response.kind == MessageType.ok_reply
    then ok (codes "Success: " ++ response.str ++ codes "\n")
    else if response.kind == MessageType.error_reply
    then ok (codes "Failure: " ++ response.str ++ codes "\n")
    else err (protocol_error "Unexpected response type")

-- A round of the loop of `handle_order_new`: three lines are read, and give the next item.
unfoldable pub read_item : List Text → Result (Item × List Text)
unfolding getline
read_item input =
    let (item_id_s, input1) = getline input in
    let (item_desc, input2) = getline input1 in
    let (item_qty_s, input3) = getline input2 in
    do
      item_id ← parse_positive_int item_id_s "item id"
      item_qty ← parse_positive_int item_qty_s "item quantity"
      ok (
        record {
          order_id = pos 1;
          id = item_id;
          status = ItemStatus.new;
          desc = item_desc;
          qty = item_qty;
        },
        input3,
      )

-- The loop, with the number of items that are left.
unfoldable pub read_items : ℕ → Order → List Text → Result (Order × List Text)
unfolding add_item
read_items zero order input = ok (order, input)
read_items (suc left) order input = do
  (item, rest) ← read_item input
  read_items left (add_item order item) rest

abbrev pub count : ℤ → ℕ
count (pos n) = n
count (ℤ.negsuc n) = 0

-- The request of `handle_order_new`, and the input that is left.
unfoldable pub order_new_request : List Text → Result (Message × List Text)
unfolding getline
order_new_request input =
    let (line, rest) = getline input in
    do
      num_items ← parse_positive_int line "number of items"
      (order, left) ← read_items (count num_items) (new_order (pos 1) OrderStatus.new) rest
      ok (order_message MessageType.order_new (some order), left)

known_item_status : Text → Result ItemStatus
known_item_status s =
    let item_status = str_to_item_status s in
    if item_status == ItemStatus.invalid
    then err (protocol_error "invalid item status")
    else ok item_status

known_order_status : Text → Result OrderStatus
known_order_status s =
    let order_status = str_to_order_status s in
    if order_status == OrderStatus.invalid
    then err (protocol_error "invalid order status")
    else ok order_status

-- The request of `handle_item_update`.
unfoldable pub item_update_request : List Text → Result (Message × List Text)
unfolding getline known_item_status
item_update_request input =
    let (order_id_s, input1) = getline input in
    let (item_id_s, input2) = getline input1 in
    let (item_status_s, input3) = getline input2 in
    do
      order_id ← parse_positive_int order_id_s "order id"
      item_id ← parse_positive_int item_id_s "item id"
      item_status ← known_item_status item_status_s
      ok (item_status_message MessageType.item_update order_id item_id item_status, input3)

-- The request of `handle_order_update`.
unfoldable pub order_update_request : List Text → Result (Message × List Text)
unfolding getline known_order_status
order_update_request input =
    let (order_id_s, input1) = getline input in
    let (order_status_s, input2) = getline input1 in
    do
      order_id ← parse_positive_int order_id_s "order id"
      order_status ← known_order_status order_status_s
      ok (order_status_message MessageType.order_update order_id order_status, input2)

-- What comes after a command: the exit code, or the next prompt, with what was printed.
pub data Next : Type 0 where
  exited : ℕ → Next
  prompted : Text → List Text → Next

module _ {W : Type 0} (rio : Rio W) where
  receive_behind : Result (Unit {0}) × W → Result Message × W
  receive_behind (ok sent, w) = receive_message rio w
  receive_behind (err e, w) = (err e, w)

  unfoldable pub send_request_receive_response : Message → W → Result Message × W
  unfolding receive_behind
  send_request_receive_response request w = receive_behind (send_message rio request w)

  -- The end that the three handlers share: the request is sent, and the response is printed.
  exchange : Result (Message × List Text) → W → Result Next × W
  unfolding print_result_response
  exchange (err e) w = (err e, w)
  exchange (ok (request, input)) w =
      let (response, rest) = send_request_receive_response request w in
      (response >>= print_result_response >>= (λ printed. ok (prompted printed input)), rest)

  quit : W → Result Next × W
  quit w =
      let (response, rest) =
        send_request_receive_response (str_message MessageType.quit (codes "quit")) w in
      (
        response >>= (λ msg.
            if msg.kind != MessageType.ok_reply
            then err (protocol_error "Unexpected response type")
            else ok (exited 0)),
        rest,
      )

  -- One command; the handlers read their own lines.
  unfoldable pub run_command : Text → List Text → W → Result Next × W
  unfolding exchange quit order_new_request item_update_request order_update_request
  run_command command input w =
      if command == codes "quit"
      then quit w
      else if command == codes "order_new"
      then exchange (order_new_request input) w
      else if command == codes "item_update"
      then exchange (item_update_request input) w
      else if command == codes "order_update"
      then exchange (order_update_request input) w
      else (ok (prompted [] input), w)

  -- What follows a command: an exception is printed and gives the exit code 1.
  after_command : (List Text → W → Option ℕ × Text) → Result Next → W → Option ℕ × Text
  after_command go_on (err e) w = (some 1, codes "Error: " ++ codes (what e) ++ codes "\n")
  after_command go_on (ok (exited code)) w = (some code, [])
  after_command go_on (ok (prompted printed input)) w =
      let (code, later) = go_on input w in (code, printed ++ later)

  -- The main loop behind the login: the exit code (`none` with no rounds left), and what is
  -- printed.
  unfoldable pub commands : ℕ → List Text → W → Option ℕ × Text
  unfolding after_command run_command
  commands zero input w = (none, [])
  commands (suc left) [] w = (some 0, codes "> ")
  commands (suc left) (command ∷ input) w =
      let (next, rest) = run_command command input w in
      let (code, printed) = after_command (commands left) next rest in (code, codes "> " ++ printed)

  -- The response to the LOGIN request: only OK starts the main loop.
  welcomed : ℕ → Result Message → List Text → W → Option ℕ × Text
  unfolding commands
  welcomed left (err e) input w = (some 1, codes "Error: " ++ codes (what e) ++ codes "\n")
  welcomed left (ok login_response) input w =
      if login_response.kind == MessageType.error_reply
      then (some 1, codes "Error: " ++ login_response.str ++ codes "\n")
      else if login_response.kind != MessageType.ok_reply
      then (some 1, codes "Error: Unexpected response type\n")
      else commands left input w

  -- `main` on an open connection; the two prompts for the credentials are not in the text.
  unfoldable pub updater_main : ℕ → List Text → W → Option ℕ × Text
  unfolding welcomed send_request_receive_response
  updater_main left input w =
      let (credentials, rest) = prompt_for_credentials input in
      let (login_response, conn) =
        send_request_receive_response
          (login_message MessageType.login ClientMode.updater credentials) w in
      welcomed left login_response rest conn
