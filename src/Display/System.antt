-- ===== src/Display/System.antt =====
-- The server with its display clients (`Client::display_loop` in src/client.cpp on one side,
-- src/display_main.cpp on the other). A message that a client's thread takes out of its queue is sent
-- or not, for whatever reason (`Client::send_message`); one that is sent is handled by the display at
-- once: what the wire format and the framing do in between is in Wire/RoundTrip and Io/Framing. After
-- one that is not, the loop ends, and the client stays registered until `unregister_display`. A display
-- whose handler failed keeps the error.
use restuarant_ordering_csf.Base.{
  ℕ, pos, ◌≤ℤ◌, Bool, true, false, Option, nat_eq, ◌==◌, ◌≡◌, [], if◌then◌else◌,
}
use restuarant_ordering_csf.Except.{Result, ok, ◌>>=◌}
use restuarant_ordering_csf.Client.{next_message}
use restuarant_ordering_csf.Message.{Message}
use restuarant_ordering_csf.MessageQueue.{MessageQueue}
use restuarant_ordering_csf.MessageQueue
use restuarant_ordering_csf.Server.{Server, init, register_display}
use restuarant_ordering_csf.Server.Clients.{has_client}
use restuarant_ordering_csf.Server.Requests.{Request, step}
use restuarant_ordering_csf.Display.{Orders, handle}

pub record System : Type 0 where
  pub server : Server
  pub screens : ℕ → Result Orders
  -- The clients to which a message could not be sent: their loop has ended.
  pub broken : ℕ → Bool

abbrev pub start : System
start = record { server = init; screens = λ client. ok []; broken = λ client. false }

abbrev pub at_client {ℓ} : {A : Type ℓ} → ℕ → A → (ℕ → A) → ℕ → A
at_client client a f other = if client == other then a else f other

-- A message that was sent reaches the display; one that was not ends the loop.
abbrev pub screens_after : Bool → ℕ → Option Message → (ℕ → Result Orders) → ℕ → Result Orders
screens_after true client msg screens =
    at_client client (screens client >>= handle (next_message msg)) screens
screens_after false client msg screens = screens

abbrev pub broken_after : Bool → ℕ → (ℕ → Bool) → ℕ → Bool
broken_after true client broken = broken
broken_after false client broken = at_client client true broken

-- A round of the display loop of a client: a message of its queue, or a heartbeat. The first
-- argument is what `send_message` returns.
unfoldable pub serve : Bool → ℕ → System → System
serve sent client sys =
    let (taken, queue) = MessageQueue.dequeue (sys.server.queues client) in
    record {
      server = record sys.server { queues = at_client client queue sys.server.queues };
      screens = screens_after sent client taken sys.screens;
      broken = broken_after sent client sys.broken;
    }

-- A client is registered once, at the start of its display loop, with its queue still empty, and
-- `updater_loop` checks that an item id is there.
abbrev pub IsAllowed : Request → Type 0
IsAllowed (Request.register client) = ⊥
IsAllowed (Request.item_update order_id item_id status) = pos 0 ≤ℤ item_id
IsAllowed _ = Unit

pub data Step : System → System → Type 0 where
  connect :
      (client : ℕ) (sys : System)
      → has_client client sys.server.display_clients ≡ false
      → sys.server.queues client ≡ MessageQueue.empty_queue
      → Step sys (record {
        server = register_display client sys.server;
        screens = at_client client (ok []) sys.screens;
        broken = at_client client false sys.broken;
      })
  request :
      (r : Request) (sys : System)
      → IsAllowed r
      → Step sys (record sys { server = step sys.server r })
  served :
      (sent : Bool) (client : ℕ) (sys : System)
      → sys.broken client ≡ false
      → Step sys (serve sent client sys)
  -- The wait of `dequeue` is over just before a message arrives, and the heartbeat is not sent.
  heartbeat_lost :
      (client : ℕ) (sys : System)
      → sys.broken client ≡ false
      → Step sys (record sys { broken = at_client client true sys.broken })

pub data Steps : System → System → Type 0 where
  none_left : (sys : System) → Steps sys sys
  one_more : {a b c : System} → Steps a b → Step b c → Steps a c
