-- ===== src/Display/Mirror.antt =====
-- src/server.cpp, src/client.cpp and src/display_main.cpp together: the displays show the orders
-- of the server, up to the messages that are still in the queues.
use mathlib.Core.Path.{subst}
use restuarant_ordering_csf.Base.{
  ℕ, Bool, true, false, nat_eq, ◌==◌, ◌≡◌, refl, sym, ap, ◌∙◌, List, [], ◌∷◌, ◌++◌, Option, some,
  none, arith, Bool-cases, inl, inr, eq_refl, eq_sound,
}
use restuarant_ordering_csf.Except.{Result, ok, err, ◌>>=◌}
use restuarant_ordering_csf.Message.{Message}
use restuarant_ordering_csf.MessageQueue.Fifo.{queue-enqueue_all}
use restuarant_ordering_csf.MessageQueue.{
  MessageQueue, IsBalanced, enqueue-IsBalanced, dequeue-IsBalanced, enqueue_all, taken_list,
  dequeue, dequeue-queue,
}
use restuarant_ordering_csf.MessageQueue
use restuarant_ordering_csf.OrderedMap
use restuarant_ordering_csf.OrderedMap.Entries.{Entries-map}
use restuarant_ordering_csf.Server.{Server, register_display, unregister_display}
use restuarant_ordering_csf.Server.Effects.{Queues, post_all, snapshot, register_display-effect}
use restuarant_ordering_csf.Server.Clients.{
  has_client, has_client-insert, has_client-erase, post_all-member, post_all-other,
}
use restuarant_ordering_csf.Server.Filed.{
  IsFiled, IsFiledOrder, init-IsFiled, register_display-IsFiled, step-IsFiled, after_induction,
}
use restuarant_ordering_csf.Server.Updates.{process_item_update-found, process_order_update-found}
use restuarant_ordering_csf.Server.Requests.{Request, step}
use restuarant_ordering_csf.Display.{Orders, handle, replay}
use restuarant_ordering_csf.Display.Replay.{replay-append, HasOwnId, replay-snapshot}
use restuarant_ordering_csf.Display.Announced.{
  Announced, new_order-Announced, set_item-Announced, deliver-Announced,
}
use restuarant_ordering_csf.Client.{next_message}
use restuarant_ordering_csf.Display.System.{System, start, at_client, serve, IsAllowed, Step, Steps}

-- The display of a registered client whose loop goes on, once it has the messages of its queue, shows
-- the orders.
abbrev Shows : Result Orders → MessageQueue → Orders → Type 0
Shows screen queue orders = (screen >>= replay queue.queue) ≡ ok orders

abbrev Mirrors : (ℕ → Bool) → Server → (ℕ → Result Orders) → Type 0
Mirrors broken s screens =
    (client : ℕ)
    → has_client client s.display_clients ≡ true
    → broken client ≡ false
    → Shows (screens client) (s.queues client) s.orders

pub record IsMirrored (sys : System) : Type 0 where
  pub filed : IsFiled sys.server
  pub mirrors : Mirrors sys.broken sys.server sys.screens

Shows-enqueue_all :
    (screen : Result Orders) (queue : MessageQueue) (msgs : List Message) (before after : Orders)
    → Shows screen queue before
    → replay msgs before ≡ ok after
    → Shows screen (enqueue_all msgs queue) after
Shows-enqueue_all (ok screen) queue msgs before after h e =
    ap (λ q. replay q screen) (queue-enqueue_all msgs queue)
    ∙ replay-append queue.queue msgs screen
    ∙ ap (λ m. m >>= replay msgs) h
    ∙ e
Shows-enqueue_all (err x) queue msgs before after h e = absurd (cc)

module _ (broken : ℕ → Bool) where
  Announced-Mirrors :
      (s t : Server) (screens : ℕ → Result Orders)
      → Announced s t
      → IsFiled s
      → Mirrors broken s screens
      → Mirrors broken t screens
  Announced-Mirrors s t screens a filed h client member sound =
      let before = subst (λ clients. has_client client clients ≡ true) a.same_clients member in
      subst (λ queue. Shows (screens client) queue t.orders)
        (sym (
          ap (λ (q : Queues). q client) a.posted
          ∙ post_all-member client s.display_clients a.msgs s.queues filed.clients before))
        (Shows-enqueue_all (screens client) (s.queues client) a.msgs s.orders t.orders
          (h client before sound) a.shown)

  unregister-Mirrors :
      (left : ℕ) (s : Server) (screens : ℕ → Result Orders)
      → IsFiled s
      → Mirrors broken s screens
      → Mirrors broken (unregister_display left s) screens
  unfolding unregister_display
  unregister-Mirrors left s screens filed h client member sound =
      h client (ground (arith, has_client-erase left s.display_clients client filed.clients)) sound

  step-Mirrors :
      (s : Server) (r : Request) (screens : ℕ → Result Orders)
      → IsAllowed r
      → IsFiled s
      → Mirrors broken s screens
      → Mirrors broken (step s r) screens
  unfolding step
  step-Mirrors s (Request.register client) screens allowed filed h = elim allowed [ ]
  step-Mirrors s (Request.unregister client) screens _ filed h =
      unregister-Mirrors client s screens filed h
  step-Mirrors s (Request.new_order order) screens _ filed h =
      Announced-Mirrors s _ screens (new_order-Announced order s) filed h
  step-Mirrors s (Request.item_update order_id item_id status) screens allowed filed h =
      after_induction (λ t. Mirrors broken t screens) s _ h
        λ t e.
          let (found, same) = process_item_update-found order_id item_id status s t e in
          subst (λ u. Mirrors broken u screens) (sym same)
            (Announced-Mirrors s _ screens
              (set_item-Announced order_id item_id status s filed allowed found) filed h)
  step-Mirrors s (Request.order_update order_id status) screens _ filed h =
      after_induction (λ t. Mirrors broken t screens) s _ h
        λ t e.
          let (found, same) = process_order_update-found order_id status s t e in
          subst (λ u. Mirrors broken u screens) (sym same)
            (Announced-Mirrors s _ screens
              (deliver-Announced order_id found.order s filed found.has_order) filed h)

served-Shows :
    (screen : Result Orders) (msg : Option Message) (queue rest : MessageQueue) (orders : Orders)
    → queue.queue ≡ taken_list msg ++ rest.queue
    → Shows screen queue orders
    → Shows (screen >>= handle (next_message msg)) rest orders
unfolding replay taken_list handle
served-Shows (ok screen) none queue rest orders e h = ap (λ q. replay q screen) (sym e) ∙ h
served-Shows (ok screen) (some msg) queue rest orders e h = ap (λ q. replay q screen) (sym e) ∙ h
served-Shows (err x) msg queue rest orders e h = absurd (cc)

serve-Mirrors :
    (client : ℕ) (sys : System)
    → Mirrors sys.broken sys.server sys.screens
    → Mirrors sys.broken (serve true client sys).server (serve true client sys).screens
unfolding serve
serve-Mirrors client sys h other member sound = elim (Bool-cases (client == other)) [
  | inl same ↦
      let at = eq_sound client other same in
      let queue = sys.server.queues client in
      rw same (
        served-Shows (sys.screens client) (dequeue queue).0 queue (dequeue queue).1
          sys.server.orders (dequeue-queue queue)
          (h client (subst (λ c. has_client c sys.server.display_clients ≡ true) (sym at) member)
            (subst (λ c. sys.broken c ≡ false) (sym at) sound)))
  | inr another ↦ rw another (h other member sound)
]

-- What happens to a client whose loop has ended does not matter.
broken_apart :
    (client other : ℕ) (broken : ℕ → Bool)
    → at_client client true broken other ≡ false
    → ((client == other) ≡ false) × (broken other ≡ false)
broken_apart client other broken e = ground (arith, e)

serve_failed-Mirrors :
    (client : ℕ) (sys : System)
    → Mirrors sys.broken sys.server sys.screens
    → Mirrors
        (serve false client sys).broken
        (serve false client sys).server
        (serve false client sys).screens
unfolding serve
serve_failed-Mirrors client sys h other member sound =
    let (another, was_sound) = broken_apart client other sys.broken sound in
    rw another (h other member was_sound)

own_ids :
    (s : Server) → IsFiled s → restuarant_ordering_csf.OrderedMap.Entries.Entries HasOwnId s.orders
own_ids s filed =
    Entries-map (IsFiledOrder s.next_order_id) HasOwnId s.orders (λ key order h. h.own_id)
      filed.entries

empty-Shows : Shows (ok []) MessageQueue.empty_queue []
unfolding replay
empty-Shows = refl

connect-Mirrors :
    (broken : ℕ → Bool) (client : ℕ) (s : Server) (screens : ℕ → Result Orders)
    → s.queues client ≡ MessageQueue.empty_queue
    → IsFiled s
    → Mirrors broken s screens
    → Mirrors
        (at_client client false broken)
        (register_display client s)
        (at_client client (ok []) screens)
connect-Mirrors broken client s screens empty filed h =
    rw register_display-effect (λ other member sound. elim (Bool-cases (client == other)) [
      | inl same ↦
          let at = eq_sound client other same in
          rw same (
            subst
              (λ c. Shows (ok []) (post_all (client ∷ []) (snapshot s.orders) s.queues c) s.orders)
              at
              (rw
                (
                  post_all-member client (client ∷ []) (snapshot s.orders) s.queues (refl, tt)
                      (rw (eq_refl client) refl),
                  empty,
                )
                (Shows-enqueue_all (ok []) MessageQueue.empty_queue (snapshot s.orders) [] s.orders
                  empty-Shows (replay-snapshot s.orders filed.sorted (own_ids s filed)))))
      | inr another ↦
          rw
            (
              another,
              post_all-other other (client ∷ []) (snapshot s.orders) s.queues (rw another refl),
            )
            (h other (ground (arith, has_client-insert client s.display_clients other))
              (ground (arith, sound, another)))
    ])

served-IsFiled :
    (sent : Bool) (client : ℕ) (sys : System)
    → IsFiled sys.server
    → IsFiled (serve sent client sys).server
unfolding serve
served-IsFiled sent client sys h = record {
  sorted = h.sorted;
  entries = h.entries;
  next = h.next;
  clients = h.clients;
}

pub Step-IsMirrored : (a b : System) → Step a b → IsMirrored a → IsMirrored b
unfolding serve
Step-IsMirrored a b (Step.connect client _ fresh empty) h = record {
  filed = register_display-IsFiled client a.server h.filed;
  mirrors = connect-Mirrors a.broken client a.server a.screens empty h.filed h.mirrors;
}
Step-IsMirrored a b (Step.request r _ allowed) h = record {
  filed = step-IsFiled a.server r h.filed;
  mirrors = step-Mirrors a.broken a.server r a.screens allowed h.filed h.mirrors;
}
Step-IsMirrored a b (Step.served true client _ sound) h = record {
  filed = served-IsFiled true client a h.filed;
  mirrors = serve-Mirrors client a h.mirrors;
}
Step-IsMirrored a b (Step.served false client _ sound) h = record {
  filed = served-IsFiled false client a h.filed;
  mirrors = serve_failed-Mirrors client a h.mirrors;
}
Step-IsMirrored a b (Step.heartbeat_lost client _ sound) h = record {
  filed = h.filed;
  mirrors =
      λ other member still. h.mirrors other member (broken_apart client other a.broken still).1;
}

start-IsMirrored : IsMirrored start
start-IsMirrored = record { filed = init-IsFiled; mirrors = λ client member sound. absurd (cc) }

Steps-IsMirrored : (a b : System) → Steps a b → IsMirrored a → IsMirrored b
Steps-IsMirrored a b (Steps.none_left _) h = h
Steps-IsMirrored a b (Steps.one_more {b = between} before last) h =
    Step-IsMirrored between b last (Steps-IsMirrored a between before h)

pub reached-IsFiled : (sys : System) → Steps start sys → IsFiled sys.server
reached-IsFiled sys steps = (Steps-IsMirrored start sys steps start-IsMirrored).filed

-- In every state that the server and its display clients reach, the display of a registered client to
-- which no message has failed to be sent, after the messages that are still in its queue, shows exactly
-- the orders of the server.
pub displays-follow :
    (sys : System)
    → Steps start sys
    → (client : ℕ) → has_client client sys.server.display_clients ≡ true
    → sys.broken client ≡ false
    → (sys.screens client >>= replay (sys.server.queues client).queue) ≡ ok sys.server.orders
displays-follow sys steps client member sound =
    (Steps-IsMirrored start sys steps start-IsMirrored).mirrors client member sound
