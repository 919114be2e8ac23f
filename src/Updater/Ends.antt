-- ===== src/Updater/Ends.antt =====
-- src/updater_main.cpp: the main loop of the updater ends.
use restuarant_ordering_csf.Base.{
  ℕ, zero, suc, ℤ, ◌≤◌, ◌<◌, text_eq, ◌≡◌, ◌≢◌, refl, ap, List, [], ◌∷◌, none, Text, arith, length,
}
use restuarant_ordering_csf.Except.{Result, ok, err, ◌>>=◌, >>=-eq-ok, ok-injective}
use restuarant_ordering_csf.Model.{ClientMode, Item, Order, OrderStatus, new_order, add_item}
use restuarant_ordering_csf.Message.{Message, MessageType, login_message, message_type_eq}
use restuarant_ordering_csf.Io.{Rio}
use restuarant_ordering_csf.ClientUtil.{getline, prompt_for_credentials, parse_positive_int}
use restuarant_ordering_csf.Updater.{
  count, read_item, read_items, order_new_request, known_item_status, known_order_status,
  item_update_request, order_update_request, Next, exchange, quit, run_command, after_command,
  commands, welcomed, updater_main, print_result_response, send_request_receive_response,
}

getline_shorter : (input : List Text) → length (getline input).1 ≤ length input
unfolding getline
getline_shorter [] = omega arith
getline_shorter (line ∷ input) = omega arith

third_line : (input : List Text) → length (getline (getline (getline input).1).1).1 ≤ length input
third_line input = omega (
  arith,
  getline_shorter input,
  getline_shorter (getline input).1,
  getline_shorter (getline (getline input).1).1,
)

read_item_shorter :
    (input rest : List Text) (item : Item)
    → read_item input ≡ ok (item, rest)
    → length rest ≤ length input
unfolding read_item
read_item_shorter input rest item h =
    let (id, _, h1) = >>=-eq-ok (parse_positive_int (getline input).0 "item id") _ h in
    let (qty, _, h2) =
      >>=-eq-ok (parse_positive_int (getline (getline (getline input).1).1).0 "item quantity") _
        h1 in
    let same = ap (λ p. length p.1) (ok-injective h2) in omega (arith, third_line input, same)

read_items_shorter :
    (left : ℕ) (order made : Order) (input rest : List Text)
    → read_items left order input ≡ ok (made, rest)
    → length rest ≤ length input
unfolding read_items
read_items_shorter zero order made input rest h =
    omega (arith, ap (λ p. length p.1) (ok-injective h))
read_items_shorter (suc left) order made input rest h =
    let (got, e, h1) = >>=-eq-ok (read_item input) _ h in
    omega (
      arith,
      read_item_shorter input got.1 got.0 e,
      read_items_shorter left (add_item order got.0) made got.1 rest h1,
    )

module _ (input rest : List Text) (msg : Message) where
  order_new_shorter : order_new_request input ≡ ok (msg, rest) → length rest ≤ length input
  unfolding order_new_request
  order_new_shorter h =
      let (n, _, h1) = >>=-eq-ok (parse_positive_int (getline input).0 "number of items") _ h in
      let (got, e, h2) =
        >>=-eq-ok (read_items (count n) (new_order (ℤ.pos 1) OrderStatus.new) (getline input).1) _
          h1 in
      omega (
        arith,
        getline_shorter input,
        read_items_shorter (count n) (new_order (ℤ.pos 1) OrderStatus.new) got.0 (getline input).1
            got.1 e,
        ap (λ p. length p.1) (ok-injective h2),
      )

  item_update_shorter : item_update_request input ≡ ok (msg, rest) → length rest ≤ length input
  unfolding item_update_request
  item_update_shorter h =
      let (order_id, _, h1) = >>=-eq-ok (parse_positive_int (getline input).0 "order id") _ h in
      let (item_id, _, h2) =
        >>=-eq-ok (parse_positive_int (getline (getline input).1).0 "item id") _ h1 in
      let (status, _, h3) =
        >>=-eq-ok (known_item_status (getline (getline (getline input).1).1).0) _ h2 in
      omega (arith, third_line input, ap (λ p. length p.1) (ok-injective h3))

  order_update_shorter : order_update_request input ≡ ok (msg, rest) → length rest ≤ length input
  unfolding order_update_request
  order_update_shorter h =
      let (order_id, _, h1) = >>=-eq-ok (parse_positive_int (getline input).0 "order id") _ h in
      let (status, _, h2) = >>=-eq-ok (known_order_status (getline (getline input).1).0) _ h1 in
      omega (
        arith,
        getline_shorter input,
        getline_shorter (getline input).1,
        ap (λ p. length p.1) (ok-injective h2),
      )

-- The input that is left after a command is not longer.
abbrev Shorter : List Text → Result Next → Type 0
Shorter input (err e) = Unit
Shorter input (ok (Next.exited code)) = Unit
Shorter input (ok (Next.prompted printed rest)) = length rest ≤ length input

module _ {W : Type 0} (rio : Rio W) where
  printed-Shorter :
      (input rest : List Text) (response : Result Text)
      → length rest ≤ length input
      → Shorter input (response >>= (λ printed. ok (Next.prompted printed rest)))
  printed-Shorter input rest (ok printed) h = h
  printed-Shorter input rest (err e) h = tt

  exchange-Shorter :
      (input : List Text) (request : Result (Message × List Text)) (w : W)
      → ((msg : Message) (rest : List Text) → request ≡ ok (msg, rest) → length rest ≤ length input)
      → Shorter input (exchange rio request w).0
  unfolding exchange
  exchange-Shorter input (err e) w h = tt
  exchange-Shorter input (ok (msg, rest)) w h =
      printed-Shorter input rest
        ((send_request_receive_response rio msg w).0 >>= print_result_response) (h msg rest refl)

  quit-Shorter : (input : List Text) (w : W) → Shorter input (quit rio w).0
  unfolding quit
  quit-Shorter input w = ground arith

  run_command-Shorter :
      (command : Text) (input : List Text) (w : W)
      → Shorter input (run_command rio command input w).0
  unfolding run_command
  run_command-Shorter command input w = ground (
    arith,
    quit-Shorter input w,
    exchange-Shorter input (order_new_request input) w
        (λ msg rest e. order_new_shorter input rest msg e),
    exchange-Shorter input (item_update_request input) w
        (λ msg rest e. item_update_shorter input rest msg e),
    exchange-Shorter input (order_update_request input) w
        (λ msg rest e. order_update_shorter input rest msg e),
  )

  after_command_ends :
      (left : ℕ) (input : List Text) (next : Result Next) (w : W)
      → Shorter input next
      → ((rest : List Text)
          → length rest ≤ length input
          → (u : W) → (commands rio left rest u).0 ≢ none)
      → (after_command rio (commands rio left) next w).0 ≢ none
  unfolding after_command
  after_command_ends left input (err e) w h go_on = λ e. cc
  after_command_ends left input (ok (Next.exited code)) w h go_on = λ e. cc
  after_command_ends left input (ok (Next.prompted printed rest)) w h go_on = go_on rest h w

  pub commands-ends :
      (left : ℕ) (input : List Text) (w : W)
      → length input < left
      → (commands rio left input w).0 ≢ none
  unfolding commands
  commands-ends zero input w h = absurd (omega (arith, h))
  commands-ends (suc left) [] w h = λ e. cc
  commands-ends (suc left) (command ∷ input) w h =
      after_command_ends left input (run_command rio command input w).0
        (run_command rio command input w).1 (run_command-Shorter command input w)
        (λ rest shorter u. commands-ends left rest u (omega arith))

  welcomed_ends :
      (left : ℕ) (response : Result Message) (input : List Text) (w : W)
      → length input < left
      → (welcomed rio left response input w).0 ≢ none
  unfolding welcomed
  welcomed_ends left (err e) input w h = λ x. cc
  welcomed_ends left (ok response) input w h = λ x. ground (arith, commands-ends left input w h, x)

  credentials_shorter : (input : List Text) → length (prompt_for_credentials input).1 ≤ length input
  unfolding prompt_for_credentials
  credentials_shorter input =
      omega (arith, getline_shorter input, getline_shorter (getline input).1)

  -- With more rounds than there are input lines the updater program ends with an exit code,
  -- whatever the server answers.
  pub updater_main-ends :
      (left : ℕ) (input : List Text) (w : W)
      → length input < left
      → (updater_main rio left input w).0 ≢ none
  unfolding updater_main
  updater_main-ends left input w h =
      let typed = prompt_for_credentials input in
      let login_req = login_message MessageType.login ClientMode.updater typed.0 in
      let response = send_request_receive_response rio login_req w in
      welcomed_ends left response.0 typed.1 response.1 (omega (arith, credentials_shorter input, h))
