-- ===== src/Concurrent.antt =====
-- src/client.cpp and src/server.cpp with their threads: the thread of each client moves on its own,
-- a function of the server holds the server's mutex from its first access to its last, and the
-- display threads take messages out of the queues at any moment in between. One access is one
-- step: a write under the mutex, a call of `Client::enqueue`, a call of `dequeue` (the steps inside
-- of the queue's calls are in MessageQueue/Threads). A client is known by a number of its own, which
-- is not used again after `delete`. A message that is taken is sent or not (`Client::send_message`),
-- and after one that is not, the thread takes no further one: all that is left for it is
-- `unregister_display`.
pub mod Commute
pub mod Invariant
pub mod Locks
pub mod Moves
pub mod Safety
use restuarant_ordering_csf.Base.{
  ℕ, ℤ, Bool, true, false, pos, ◌≤ℤ◌, ◌≡◌, List, [], ◌∷◌, Option, some, none,
}
use restuarant_ordering_csf.Except.{Result, ok, ◌>>=◌}
use restuarant_ordering_csf.Message.{Message}
use restuarant_ordering_csf.MessageQueue.{MessageQueue}
use restuarant_ordering_csf.MessageQueue
use restuarant_ordering_csf.Server.{Server, init}
use restuarant_ordering_csf.Server.Requests.{Request}
use restuarant_ordering_csf.Server.Script.{Act, perform, script}
use restuarant_ordering_csf.Display.{Orders}
use restuarant_ordering_csf.Display.System.{at_client, screens_after, broken_after, IsAllowed}

-- The life of a Client object and its thread.
pub data Stage : Type 0 where
  absent : Stage
  connected : Stage  -- in `chat`, before its loop
  registering : Stage  -- in `register_display`, with the mutex
  displaying : Stage  -- in `display_loop`, between the two
  unregistering : Stage  -- in `unregister_display`, with the mutex
  updating : Stage  -- in `updater_loop`
  requesting : Stage  -- in a function of the server, with the mutex
  leaving : Stage  -- behind its loop
  deleted : Stage

pub record World : Type 0 where
  pub server : Server
  pub stage : ℕ → Stage
  pub holder : Option ℕ  -- whose thread has `m_mutex`
  pub todo : List Act  -- what it has still to do before it unlocks
  pub screens : ℕ → Result Orders
  pub broken : ℕ → Bool  -- a message could not be sent

abbrev pub begin : World
begin = record {
  server = init;
  stage = λ client. Stage.absent;
  holder = none;
  todo = [];
  screens = λ client. ok [];
  broken = λ client. false;
}

-- `updater_loop` calls the server for new orders and updates; it checks that an item id is there.
abbrev pub IsUpdate : Request → Type 0
IsUpdate (Request.register client) = ⊥
IsUpdate (Request.unregister client) = ⊥
IsUpdate r = IsAllowed r

-- The end of a function of the server.
abbrev pub after_call : Stage → Stage
after_call Stage.registering = Stage.displaying
after_call Stage.unregistering = Stage.leaving
after_call Stage.requesting = Stage.updating
after_call stage = stage

abbrev pub set_queue : ℕ → MessageQueue → Server → Server
set_queue client queue s = record s { queues = at_client client queue s.queues }

-- `Guard g(m_mutex)` in a function of the server, called by the thread of a client.
abbrev pub lock : ℕ → Stage → Request → World → World
lock client stage r w = record w {
  stage = at_client client stage w.stage;
  holder = some client;
  todo = script r w.server;
}

-- What the thread of a client sends to its display, which handles it, or fails to send. The first
-- argument is what `send_message` returns.
abbrev pub show : Bool → ℕ → Option Message → MessageQueue → World → World
show sent client msg queue w = record w {
  server = set_queue client queue w.server;
  screens = screens_after sent client msg w.screens;
  broken = broken_after sent client w.broken;
}

abbrev pub move_to : ℕ → Stage → World → World
move_to client stage w = record w { stage = at_client client stage w.stage }

pub data Step (w : World) : World → Type 0 where
  connect : (client : ℕ) → w.stage client ≡ Stage.absent → Step w (move_to client Stage.connected w)
  log_in_updater :
      (client : ℕ) → w.stage client ≡ Stage.connected → Step w (move_to client Stage.updating w)
  -- A display begins with an empty map.
  lock_register :
      (client : ℕ)
      → w.stage client ≡ Stage.connected
      → w.holder ≡ none
      → Step w (
          lock client Stage.registering (Request.register client) (record w {
            screens = at_client client (ok []) w.screens;
            broken = at_client client false w.broken;
          }))
  lock_unregister :
      (client : ℕ)
      → w.stage client ≡ Stage.displaying
      → w.holder ≡ none
      → Step w (lock client Stage.unregistering (Request.unregister client) w)
  lock_update :
      (client : ℕ) (r : Request)
      → IsUpdate r
      → w.stage client ≡ Stage.updating
      → w.holder ≡ none
      → Step w (lock client Stage.requesting r w)
  act :
      {a : Act} {acts : List Act}
      → w.todo ≡ a ∷ acts
      → Step w (record w { server = perform a w.server; todo = acts })
  unlock :
      (client : ℕ)
      → w.holder ≡ some client
      → w.todo ≡ []
      → Step w (record w {
        holder = none;
        stage = at_client client (after_call (w.stage client)) w.stage;
      })
  take :
      (sent : Bool) (client : ℕ) {msg : Message} {queue : MessageQueue}
      → w.stage client ≡ Stage.displaying
      → w.broken client ≡ false
      → MessageQueue.dequeue (w.server.queues client) ≡ (some msg, queue)
      → Step w (show sent client (some msg) queue w)
  time_out :
      (sent : Bool) (client : ℕ)
      → w.stage client ≡ Stage.displaying
      → w.broken client ≡ false
      → Step w (show sent client none (w.server.queues client) w)
  -- The login is refused, or the loop of an updater ends.
  refuse : (client : ℕ) → w.stage client ≡ Stage.connected → Step w (move_to client Stage.leaving w)
  stop : (client : ℕ) → w.stage client ≡ Stage.updating → Step w (move_to client Stage.leaving w)
  delete : (client : ℕ) → w.stage client ≡ Stage.leaving → Step w (move_to client Stage.deleted w)

pub data Reach : World → Type 0 where
  start : Reach begin
  later : {v w : World} → Reach v → Step v w → Reach w
