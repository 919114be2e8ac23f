-- ===== src/Client.antt =====
-- include/client.h and src/client.cpp: the thread of the server that talks to one client. A thread
-- sees the server, the connection's state, and whether its loop still runs. Between two rounds of
-- its loop other threads may change the server; within a round the server is changed at most once,
-- under its mutex. A loop without an end is given by its first rounds.
pub mod Answers
pub mod Threads
pub mod Oversized
use restuarant_ordering_csf.Base.{
  ℕ, zero, suc, ℤ, Bool, true, false, not, ◌||◌, nat_eq, ◌==◌, ◌!=◌, List, [], ◌∷◌, ◌++◌, Option,
  none, some, Text, codes, if◌then◌else◌,
}
use restuarant_ordering_csf.Except.{
  Exception, Result, ok, err, protocol_error, semantic_error, what, ◌>>=◌,
}
use restuarant_ordering_csf.Numbers.{to_string}
use restuarant_ordering_csf.Model.{Order, ClientMode, mode_eq, item_status_eq, order_status_eq}
use restuarant_ordering_csf.Message.{
  Message, MessageType, message_type_eq, str_message, plain_message, has_client_mode, has_str,
  has_order_id, has_item_id, has_item_status, has_order_status,
}
use restuarant_ordering_csf.MessageQueue
use restuarant_ordering_csf.Server.{
  Server, register_display, unregister_display, process_new_order, process_item_update,
  process_order_update,
}
use restuarant_ordering_csf.PasswordDb.{authenticate}
use restuarant_ordering_csf.Io.{Rio}
use restuarant_ordering_csf.ClientUtil

-- What `updater_loop` does with one message: the reply, the server after it, and whether the loop
-- goes on; or the exception that leaves the loop.
pub record Answer : Type 0 where
  pub reply : Message
  pub server : Server
  pub goes_on : Bool

abbrev answer_ok : Text → Server → Bool → Result Answer
answer_ok str s goes_on =
    ok (record { reply = str_message MessageType.ok_reply str; server = s; goes_on = goes_on })

abbrev answer_error : Text → Server → Result Answer
answer_error str s =
    ok (record { reply = str_message MessageType.error_reply str; server = s; goes_on = true })

-- The `try` block round the call of the server: a `SemanticError` becomes a reply.
answer_update : Text → Server → Result Server → Result Answer
answer_update success s (ok t) = answer_ok success t true
answer_update success s (err (semantic_error desc)) = answer_error (codes desc) s
answer_update success s (err e) = err e

answer_order_new : Option Order → Server → Result Answer
answer_order_new none s = answer_error (codes "missing order") s
answer_order_new (some order) s =
    let (id, t) = process_new_order order s in
    answer_ok (codes "Created order id " ++ to_string id) t true

-- The branches by the type of the message.
answer_kind : MessageType → Message → Server → Result Answer
unfolding answer_update answer_order_new
answer_kind MessageType.quit msg s = answer_ok (codes "bye") s false
answer_kind MessageType.order_new msg s = answer_order_new msg.order s
answer_kind MessageType.item_update msg s =
    if not (has_order_id msg) || (not (has_item_id msg) || not (has_item_status msg))
    then answer_error (codes "missing item fields") s
    else answer_update (codes "successful item update") s
        (process_item_update msg.order_id msg.item_id msg.item_status s)
answer_kind MessageType.order_update msg s =
    if not (has_order_id msg) || not (has_order_status msg)
    then answer_error (codes "missing order fields") s
    else answer_update (codes "successful order update") s
        (process_order_update msg.order_id msg.order_status s)
answer_kind _ msg s = answer_error (codes "Updater: unexpected message type") s

unfoldable pub answer : Message → Server → Result Answer
unfolding answer_kind
answer msg s = answer_kind msg.kind msg s

-- The part of `chat` that looks at the first message: the mode of an authenticated client, `none`
-- with wrong credentials, or the exception that ends the connection.
unfoldable pub login : Message → Result (Option ClientMode)
login login_msg =
    if login_msg.kind != MessageType.login
    then err (protocol_error "expected LOGIN")
    else if not (has_client_mode login_msg) || not (has_str login_msg)
    then err (protocol_error "LOGIN missing fields")
    else if not (authenticate login_msg.str)
    then ok none
    else ok (some login_msg.client_mode)

-- What `display_loop` sends: the message that was taken out of the queue, or a heartbeat.
abbrev pub next_message : Option Message → Message
next_message none = plain_message MessageType.disp_heartbeat
next_message (some msg) = msg

abbrev is_ok {ℓ} : {A : Type ℓ} → Result A → Bool
is_ok (ok a) = true
is_ok (err e) = false

pub record Thread (W : Type 0) : Type 0 where
  pub server : Server
  pub conn : W
  pub looping : Bool

module _ {W : Type 0} (rio : Rio W) where
  -- `Client::send_message`: whether it was sent.
  unfoldable pub send_message : Message → W → Bool × W
  send_message msg w = let (sent, rest) = ClientUtil.send_message rio msg w in (is_ok sent, rest)

  -- The loop ends after QUIT, and on an exception; that a reply could not be sent is not looked at.
  reply_to : Result Answer → Server → W → Thread W
  unfolding send_message
  reply_to (ok a) s w = record {
    server = a.server;
    conn = (send_message a.reply w).1;
    looping = a.goes_on;
  }
  reply_to (err e) s w = record { server = s; conn = w; looping = false }

  -- A message that is not received, or not decoded, ends the loop.
  unfoldable pub updater_round : Server → W → Thread W
  unfolding reply_to
  updater_round s w =
      let (received, rest) = ClientUtil.receive_message rio w in
      elim received [
        | ok msg ↦ reply_to (answer msg s) s rest
        | err e ↦ record { server = s; conn = rest; looping = false }
      ]

  -- The loop ends when it cannot be sent.
  unfoldable pub display_round : ℕ → Server → W → Thread W
  unfolding send_message
  display_round client s w =
      let (taken, queue) = MessageQueue.dequeue (s.queues client) in
      let (sent, rest) = send_message (next_message taken) w in
      record {
        server = record s { queues = λ other. if client == other then queue else s.queues other };
        conn = rest;
        looping = sent;
      }

  -- The first rounds of a loop.
  rounds : ℕ → (Server → W → Thread W) → Thread W → Thread W
  rounds zero round thread = thread
  rounds (suc n) round thread =
      let next = rounds n round (round thread.server thread.conn) in
      if thread.looping then next else thread

  unfoldable pub updater_loop : ℕ → Server → W → Thread W
  unfolding rounds updater_round
  updater_loop n s w = rounds n updater_round (record { server = s; conn = w; looping = true })

  -- The client is unregistered when its loop has ended.
  unfoldable pub display_loop : ℕ → ℕ → Server → W → Thread W
  unfolding rounds display_round
  display_loop n client s w =
      let thread =
        rounds n (display_round client)
          (record { server = register_display client s; conn = w; looping = true }) in
      if thread.looping
      then thread
      else record thread { server = unregister_display client thread.server }

  -- `chat` behind the login, with the reply to it.
  start_loop : ℕ → ℕ → Result (Option ClientMode) → Server → W → Thread W
  unfolding send_message updater_loop display_loop
  start_loop n client (err e) s w = record { server = s; conn = w; looping = false }
  start_loop n client (ok none) s w = record {
    server = s;
    conn = (send_message (str_message MessageType.error_reply (codes "Invalid credentials")) w).1;
    looping = false;
  }
  start_loop n client (ok (some mode)) s w =
      let welcomed =
        (send_message (str_message MessageType.ok_reply (codes "Login successful")) w).1 in
      elim mode [
        | ClientMode.display ↦ display_loop n client s welcomed
        | ClientMode.updater ↦ updater_loop n s welcomed
        | ClientMode.invalid ↦ record { server = s; conn = welcomed; looping = false }
      ]

  -- `Client::chat`, up to the given number of rounds of its loop.
  unfoldable pub chat : ℕ → ℕ → Server → W → Thread W
  unfolding start_loop
  chat n client s w =
      let (received, rest) = ClientUtil.receive_message rio w in
      start_loop n client (received >>= login) s rest
