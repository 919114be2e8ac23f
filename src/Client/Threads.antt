-- ===== src/Client/Threads.antt =====
-- src/client.cpp and src/passwd_db.cpp: what a client's thread does to the server, and who may.
use mathlib.Core.Path.{subst}
use restuarant_ordering_csf.Base.{
  ℕ, zero, suc, ◌≤◌, true, false, ◌≡◌, ◌≢◌, ◌↔◌, refl, sym, ap, ◌∙◌, List, [], ◌∷◌, ◌++◌,
  All-append, length-append, Option, none, some, Text, arith, All, length, Bool-cases, inl, inr,
}
use restuarant_ordering_csf.Except.{Result, ok, err, >>=-eq-ok}
use restuarant_ordering_csf.Model.{Order, ClientMode, mode_eq, item_status_eq, order_status_eq}
use restuarant_ordering_csf.Message.{Message, MessageType, message_type_eq}
use restuarant_ordering_csf.PasswordDb.{passwd_db, contains, authenticate}
use restuarant_ordering_csf.Server.{Server}
use restuarant_ordering_csf.Server.Requests.{Request, run, run-append}
use restuarant_ordering_csf.Io.{Rio}
use restuarant_ordering_csf.ClientUtil
use restuarant_ordering_csf.Display.System.{IsAllowed}
use restuarant_ordering_csf.Client.{
  Thread, answer, login, reply_to, updater_round, rounds, updater_loop, start_loop, chat,
}
use restuarant_ordering_csf.Client.Answers.{
  request_of, requested_kind, requested_order, stepped, answer-IsAnswered,
}

authenticate_nonempty : (cred : Text) → authenticate cred ≡ true → cred ≢ []
unfolding authenticate contains passwd_db
authenticate_nonempty [] h e = absurd (cc)
authenticate_nonempty (c ∷ cred) h e = cc

-- A client is let in exactly with a LOGIN message whose credentials are in the password database
-- and whose mode is valid, and then in that mode.
pub login_iff :
    (msg : Message) (mode : ClientMode)
    → (login msg ≡ ok (some mode)) ↔ (
        (msg.kind ≡ MessageType.login)
        × (msg.client_mode ≡ mode)
        × (mode ≢ ClientMode.invalid)
        × (authenticate msg.str ≡ true))
unfolding login
login_iff msg mode = (
  λ h. ground (
    arith,
    message_type_eq.beq_iff msg.kind MessageType.login,
    mode_eq.beq_iff msg.client_mode ClientMode.invalid,
    h,
  ),
  λ (kind, same, valid, known). ground (
    arith,
    message_type_eq.beq_iff msg.kind MessageType.login,
    mode_eq.beq_iff msg.client_mode ClientMode.invalid,
    authenticate_nonempty msg.str known,
  ),
)

-- The requests that change the server from one state to the other, each allowed.
pub record Requested (most : ℕ) (s t : Server) : Type 0 where
  pub requests : List Request
  pub allowed : All IsAllowed requests
  pub few : length requests ≤ most
  pub reached : t ≡ run s requests

abbrev IsAllowed? : Option Request → Type 0
IsAllowed? none = Unit
IsAllowed? (some r) = IsAllowed r

order-IsAllowed? : (order : Option Order) → IsAllowed? (requested_order order)
unfolding requested_order
order-IsAllowed? none = tt
order-IsAllowed? (some order) = tt

kind-IsAllowed? : (kind : MessageType) (msg : Message) → IsAllowed? (requested_kind kind msg)
unfolding requested_kind
kind-IsAllowed? MessageType.order_new msg = order-IsAllowed? msg.order
kind-IsAllowed? MessageType.item_update msg = ground arith
kind-IsAllowed? MessageType.order_update msg = ground arith
kind-IsAllowed? _ msg = tt

none_made : (most : ℕ) (s : Server) → Requested most s s
unfolding run
none_made most s = record { requests = []; allowed = tt; few = omega arith; reached = refl }

stepped-Requested :
    (wanted : Option Request) (s : Server) → IsAllowed? wanted → Requested 1 s (stepped s wanted)
unfolding run
stepped-Requested none s h = none_made 1 s
stepped-Requested (some r) s h = record {
  requests = r ∷ [];
  allowed = (h, tt);
  few = omega arith;
  reached = refl;
}

module _ {W : Type 0} (rio : Rio W) where
  reply_to-Requested :
      (msg : Message) (s : Server) (w : W) → Requested 1 s (reply_to rio (answer msg s) s w).server
  unfolding reply_to request_of
  reply_to-Requested msg s w =
      let answered = answer-IsAnswered msg s in
      rw (answered.returned) (
        subst (Requested 1 s) (sym answered.requested)
          (stepped-Requested (request_of msg) s (kind-IsAllowed? msg.kind msg)))

  received-Requested :
      (received : Result Message) (s : Server) (rest : W)
      → Requested 1 s
          (elim received as (λ r. Thread W) [
            | ok msg ↦ reply_to rio (answer msg s) s rest
            | err e ↦ record { server = s; conn = rest; looping = false }
          ]).server
  received-Requested (ok msg) s rest = reply_to-Requested msg s rest
  received-Requested (err e) s rest = none_made 1 s

  -- A round of an updater's loop makes at most one request.
  pub updater_round-Requested : (s : Server) (w : W) → Requested 1 s (updater_round rio s w).server
  unfolding updater_round
  updater_round-Requested s w =
      received-Requested (ClientUtil.receive_message rio w).0 s (ClientUtil.receive_message rio w).1

  one_more :
      (most : ℕ) (s t u : Server) → Requested 1 s t → Requested most t u → Requested (suc most) s u
  unfolding run
  one_more most s t u first later = record {
    requests = first.requests ++ later.requests;
    allowed = All-append IsAllowed first.requests later.requests first.allowed later.allowed;
    few = omega (arith, length-append first.requests later.requests, first.few, later.few);
    reached =
        later.reached
        ∙ ap (λ x. run x later.requests) first.reached
        ∙ sym (run-append s first.requests later.requests);
  }

  rounds-Requested :
      (n : ℕ) (thread : Thread W)
      → Requested n thread.server (rounds rio n (updater_round rio) thread).server
  unfolding rounds
  rounds-Requested zero thread = none_made 0 thread.server
  rounds-Requested (suc n) thread = elim (Bool-cases thread.looping) [
    | inl on ↦
        let next = updater_round rio thread.server thread.conn in
        rw on (
          one_more n thread.server next.server _ (updater_round-Requested thread.server thread.conn)
            (rounds-Requested n next))
    | inr off ↦ rw off (none_made (suc n) thread.server)
  ]

  -- The loop of an updater changes the server only by requests that are allowed, at most one in
  -- each round.
  pub updater_loop-Requested :
      (n : ℕ) (s : Server) (w : W) → Requested n s (updater_loop rio n s w).server
  unfolding updater_loop
  updater_loop-Requested n s w = rounds-Requested n _

  refused_start :
      (n : ℕ) (client : ℕ) (m : Result (Option ClientMode)) (s : Server) (w : W)
      → ((mode : ClientMode) → m ≢ ok (some mode))
      → ((start_loop rio n client m s w).server ≡ s)
        × ((start_loop rio n client m s w).looping ≡ false)
  unfolding start_loop
  refused_start n client (err e) s w h = (refl, refl)
  refused_start n client (ok none) s w h = (refl, refl)
  refused_start n client (ok (some mode)) s w h = absurd (h mode refl)

  -- A client is not served unless its first message arrives, decodes, and is a LOGIN with a valid mode
  -- and with credentials that the password database has: otherwise the server stays as it was, and
  -- no loop is entered.
  pub chat-without_login :
      (n : ℕ) (client : ℕ) (s : Server) (w : W)
      → ((msg : Message)
          → (ClientUtil.receive_message rio w).0 ≡ ok msg
          → msg.kind ≡ MessageType.login
          → msg.client_mode ≢ ClientMode.invalid
          → authenticate msg.str ≡ true
          → ⊥)
      → ((chat rio n client s w).server ≡ s) × ((chat rio n client s w).looping ≡ false)
  unfolding chat
  chat-without_login n client s w stranger =
      refused_start n client _ s (ClientUtil.receive_message rio w).1 (λ mode e.
        let (msg, received, accepted) = >>=-eq-ok (ClientUtil.receive_message rio w).0 login e in
        let (kind, same, valid, known) = (login_iff msg mode).0 accepted in
        stranger msg received kind (λ invalid. valid (sym same ∙ invalid)) known)
