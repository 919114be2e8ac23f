-- ===== src/Display/Program.antt =====
-- `main` of src/display_main.cpp: the login, and the main loop with what it prints. The loop ends
-- only with an exception; it is given by its first rounds.
pub mod Screens
use restuarant_ordering_csf.Base.{
  ℕ, zero, suc, ℤ, List, [], ◌∷◌, ◌++◌, Option, none, some, Text, codes, ◌==◌, ◌!=◌, if◌then◌else◌,
}
use restuarant_ordering_csf.Except.{Exception, Result, ok, err, what}
use restuarant_ordering_csf.Model.{ClientMode}
use restuarant_ordering_csf.Message.{Message, MessageType, message_type_eq, login_message}
use restuarant_ordering_csf.Io.{Rio}
use restuarant_ordering_csf.ClientUtil.{prompt_for_credentials, receive_message}
use restuarant_ordering_csf.ClientUtil.Program.{Ended, client_main}
use restuarant_ordering_csf.Updater.{send_request_receive_response}
use restuarant_ordering_csf.Display.{Orders, refresh_display, handle, printed}

-- The `catch` clauses of `main`.
abbrev pub failed : Exception → Option ℕ × Text
failed e = (some 1, codes "Error: " ++ (codes (what e) ++ codes "\n"))

abbrev pub after_text : Text → Option ℕ × Text → Option ℕ × Text
after_text text (code, later) = (code, text ++ later)

-- What follows the handler of a message: the refreshed display, and the next round.
unfoldable pub after_handler :
    (Orders → Option ℕ × Text) → Message → Result Orders → Option ℕ × Text
after_handler go_on msg (err e) = failed e
after_handler go_on msg (ok orders) = after_text (printed msg orders) (go_on orders)

unfoldable pub after_receive :
    (Orders → Option ℕ × Text) → Orders → Result Message → Option ℕ × Text
unfolding after_handler
after_receive go_on orders (err e) = failed e
after_receive go_on orders (ok msg) = after_handler go_on msg (handle msg orders)

module _ {W : Type 0} (rio : Rio W) where
  -- The exit code, `none` while the loop runs, and what is printed.
  unfoldable pub display_rounds : ℕ → Orders → W → Option ℕ × Text
  unfolding after_receive
  display_rounds zero orders w = (none, [])
  display_rounds (suc n) orders w =
      let (received, rest) = receive_message rio w in
      after_receive (λ (next : Orders). display_rounds n next rest) orders received

  -- The response to the LOGIN request: only OK starts the loop, with an empty display.
  display_welcomed : ℕ → Result Message × W → Option ℕ × Text
  unfolding display_rounds
  display_welcomed n (err e, w) = failed e
  display_welcomed n (ok login_response, w) =
      if login_response.kind == MessageType.error_reply
      then (some 1, codes "Error: " ++ (login_response.str ++ codes "\n"))
      else if login_response.kind != MessageType.ok_reply
      then (some 1, codes "Error: Unexpected response type\n")
      else after_text (refresh_display []) (display_rounds n [] w)

  -- `main` on an open connection; the two prompts for the credentials are not in the text.
  unfoldable pub display_session : ℕ → List Text → W → Option ℕ × Text
  unfolding display_welcomed
  display_session n input w =
      let (credentials, rest) = prompt_for_credentials input in
      display_welcomed n (
        send_request_receive_response rio
          (login_message MessageType.login ClientMode.display credentials) w)

  unfoldable pub display_main : ℕ → ℕ → Text → ℤ → List Text → W → Ended
  unfolding display_session
  display_main n argc program opened input w =
      client_main argc program opened (λ fd. display_session n input w)
