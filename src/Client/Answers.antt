-- ===== src/Client/Answers.antt =====
-- src/client.cpp: what `updater_loop` answers, and the request that it makes of the server.
mod Refusals
use Refusals.{
  IsReplyText, IsAnswerable, accepted, refused, process_item_update-IsAnswerable,
  process_order_update-IsAnswerable,
}
use mathlib.Core.Path.{subst}
use restuarant_ordering_csf.Base.{
  ◌!=◌, Bool, eq_sound, ℕ, ℤ, pos, negsuc, suc, true, not, ◌||◌, ◌≡◌, ◌≢◌, refl, sym, [], ◌++◌,
  Option, none, some, Text, String, codes, arith, All-map, All-append, Lacks, if◌then◌else◌,
  Bool-cases, Option-cases, inl, inr,
}
use restuarant_ordering_csf.Except.{Result, ok, err, semantic_error}
use restuarant_ordering_csf.Numbers.{to_string, show_ℕ}
use restuarant_ordering_csf.Numbers.Print.{IsDigit, show-IsDigit}
use restuarant_ordering_csf.Model.{
  Order, ItemStatus, OrderStatus, find_item, order_status_eq, item_status_eq,
}
use restuarant_ordering_csf.Message.{
  Message, MessageType, str_message, message_type_eq, has_order_id, has_item_id, has_item_status,
  has_order_status,
}
use restuarant_ordering_csf.OrderedMap
use restuarant_ordering_csf.Server.{
  Server, process_new_order, is_item_transition, process_item_update, process_order_update,
}
use restuarant_ordering_csf.Server.Updates.{
  process_item_update-accepted, process_order_update-accepted,
}
use restuarant_ordering_csf.Server.Requests.{Request, after, step}
use restuarant_ordering_csf.Wire.Shape.{IsSendable, IsWireMessage}
use restuarant_ordering_csf.Client.{Answer, answer, answer_kind, answer_update, answer_order_new}

-- The request that a message stands for, if it has the data for one.
unfoldable pub requested_order : Option Order → Option Request
requested_order none = none
requested_order (some order) = some (Request.new_order order)

unfoldable pub requested_kind : MessageType → Message → Option Request
unfolding requested_order
requested_kind MessageType.order_new msg = requested_order msg.order
requested_kind MessageType.item_update msg =
    if not (has_order_id msg) || (not (has_item_id msg) || not (has_item_status msg))
    then none
    else some (Request.item_update msg.order_id msg.item_id msg.item_status)
requested_kind MessageType.order_update msg =
    if not (has_order_id msg) || not (has_order_status msg)
    then none
    else some (Request.order_update msg.order_id msg.order_status)
requested_kind _ msg = none

unfoldable pub request_of : Message → Option Request
unfolding requested_kind
request_of msg = requested_kind msg.kind msg

abbrev pub stepped : Server → Option Request → Server
stepped s none = s
stepped s (some r) = step s r

show-Lacks_bar : (n : ℕ) → Lacks b'|' (show_ℕ n)
show-Lacks_bar n = All-map IsDigit (λ c. c ≢ b'|') (show_ℕ n) (λ c d. omega arith) (show-IsDigit n)

to_string-Lacks_bar : (n : ℤ) → Lacks b'|' (to_string n)
unfolding to_string
to_string-Lacks_bar (pos n) = show-Lacks_bar n
to_string-Lacks_bar (negsuc n) = (omega arith, show-Lacks_bar (suc n))

-- What is right about an answer: there is one, the wire format carries its reply, the server took the
-- step of the request, and the loop goes on if it is to.
pub record IsAnswered (wanted : Option Request) (on : Bool) (s : Server) (m : Result Answer)
    : Type 0 where
  pub made : Answer
  pub returned : m ≡ ok made
  pub sendable : IsSendable made.reply
  pub requested : made.server ≡ stepped s wanted
  pub looping : made.goes_on ≡ on

said_error : (str : Text) → IsReplyText str → IsSendable (str_message MessageType.error_reply str)
said_error str (ne, bar) = IsWireMessage.error_reply str ne bar

said_ok : (str : Text) → IsReplyText str → IsSendable (str_message MessageType.ok_reply str)
said_ok str (ne, bar) = IsWireMessage.ok_reply str ne bar

made_error :
    (str : Text) (s : Server)
    → IsReplyText str
    → IsAnswered none true s (
        ok (record { reply = str_message MessageType.error_reply str; server = s; goes_on = true }))
made_error str s text = record {
  made = _;
  returned = refl;
  sendable = said_error str text;
  requested = refl;
  looping = refl;
}

answer_update-IsAnswered :
    (r : Request) (success : Text) (s : Server) (m : Result Server)
    → IsReplyText success
    → IsAnswerable m
    → step s r ≡ after s m
    → IsAnswered (some r) true s (answer_update success s m)
unfolding answer_update
answer_update-IsAnswered r success s _ text (accepted t) e = record {
  made = _;
  returned = refl;
  sendable = said_ok success text;
  requested = sym e;
  looping = refl;
}
answer_update-IsAnswered r success s _ text (refused desc desc_text) e = record {
  made = _;
  returned = refl;
  sendable = said_error (codes desc) desc_text;
  requested = sym e;
  looping = refl;
}

answer_order_new-IsAnswered :
    (order : Option Order) (s : Server)
    → IsAnswered (requested_order order) true s (answer_order_new order s)
unfolding answer_order_new requested_order step
answer_order_new-IsAnswered none s = made_error (codes "missing order") s ((λ e. cc), omega arith)
answer_order_new-IsAnswered (some order) s =
    let id = (process_new_order order s).0 in
    record {
      made = _;
      returned = refl;
      sendable = said_ok (codes "Created order id " ++ to_string id) (
        (λ e. cc),
        All-append (λ c. c ≢ b'|') (codes "Created order id ") (to_string id) (omega arith)
            (to_string-Lacks_bar id),
      );
      requested = refl;
      looping = refl;
    }

unexpected :
    (s : Server)
    → IsAnswered none true s (
        ok (record {
          reply = str_message MessageType.error_reply (codes "Updater: unexpected message type");
          server = s;
          goes_on = true;
        }))
unexpected s = made_error (codes "Updater: unexpected message type") s ((λ e. cc), omega arith)

answer_kind-IsAnswered :
    (kind : MessageType) (msg : Message) (s : Server)
    → IsAnswered (requested_kind kind msg) (kind != MessageType.quit) s (answer_kind kind msg s)
unfolding answer_kind requested_kind step
answer_kind-IsAnswered MessageType.quit msg s = record {
  made = _;
  returned = refl;
  sendable = said_ok (codes "bye") ((λ e. cc), omega arith);
  requested = refl;
  looping = refl;
}
answer_kind-IsAnswered MessageType.order_new msg s = answer_order_new-IsAnswered msg.order s
answer_kind-IsAnswered MessageType.item_update msg s =
    elim (Bool-cases
      (not (has_order_id msg) || (not (has_item_id msg) || not (has_item_status msg)))) [
        | inl missing ↦
            rw missing (made_error (codes "missing item fields") s ((λ e. cc), omega arith))
        | inr present ↦ rw present (
            answer_update-IsAnswered (Request.item_update msg.order_id msg.item_id msg.item_status)
              (codes "successful item update") s _ ((λ e. cc), omega arith)
              (process_item_update-IsAnswerable msg.order_id msg.item_id msg.item_status s) refl)
      ]
answer_kind-IsAnswered MessageType.order_update msg s =
    elim (Bool-cases (not (has_order_id msg) || not (has_order_status msg))) [
      | inl missing ↦
          rw missing (made_error (codes "missing order fields") s ((λ e. cc), omega arith))
      | inr present ↦ rw present (
          answer_update-IsAnswered (Request.order_update msg.order_id msg.order_status)
            (codes "successful order update") s _ ((λ e. cc), omega arith)
            (process_order_update-IsAnswerable msg.order_id msg.order_status s) refl)
    ]
answer_kind-IsAnswered MessageType.invalid msg s = unexpected s
answer_kind-IsAnswered MessageType.login msg s = unexpected s
answer_kind-IsAnswered MessageType.ok_reply msg s = unexpected s
answer_kind-IsAnswered MessageType.error_reply msg s = unexpected s
answer_kind-IsAnswered MessageType.disp_order msg s = unexpected s
answer_kind-IsAnswered MessageType.disp_item_update msg s = unexpected s
answer_kind-IsAnswered MessageType.disp_order_update msg s = unexpected s
answer_kind-IsAnswered MessageType.disp_heartbeat msg s = unexpected s

-- Every message that `updater_loop` takes is answered, and never by an exception: the reply is one that
-- the wire format carries, the server takes exactly the step of the request that the message stands
-- for, or none, and the loop goes on, except after QUIT. So it does after a message that an updater
-- may not send, a second LOGIN or a DISP_ORDER.
pub answer-IsAnswered :
    (msg : Message) (s : Server)
    → IsAnswered (request_of msg) (msg.kind != MessageType.quit) s (answer msg s)
unfolding answer request_of
answer-IsAnswered msg s = answer_kind-IsAnswered msg.kind msg s
