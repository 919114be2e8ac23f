-- ===== src/Tests/Threads.antt =====
-- A display and an updater: the display is registered, and the updater's thread is in the midst of
-- `process_new_order`.
use restuarant_ordering_csf.Base.{ℕ, pos, ◌≡◌, ◌≢◌, refl, [], ◌∷◌, none, some, ◌⊎◌, true, false}
use restuarant_ordering_csf.Except.{ok, ◌>>=◌}
use restuarant_ordering_csf.Message.{Message, MessageType, order_message, duplicate_message}
use restuarant_ordering_csf.Server.{admit, insert_client}
use restuarant_ordering_csf.Server.Clients.{has_client}
use restuarant_ordering_csf.Server.Requests.{Request}
use restuarant_ordering_csf.Server.Script.{Act, perform, perform_all, script}
use restuarant_ordering_csf.Display.{replay}
use restuarant_ordering_csf.Display.System.{Steps, at_client}
use restuarant_ordering_csf.Display.System
use restuarant_ordering_csf.Concurrent.{
  Stage, World, begin, after_call, lock, move_to, connect, log_in_updater, lock_register,
  lock_update, act, unlock, Reach, start, later,
}
use restuarant_ordering_csf.Concurrent.Safety.{
  threads-refine_Steps, free-displays_follow, send-to_living,
}
use restuarant_ordering_csf.Tests.Data.{lunch}

abbrev next : World → World
next w = elim w.todo [ [] ↦ w | a ∷ acts ↦ record w { server = perform a w.server; todo = acts } ]

abbrev unlocked : ℕ → World → World
unlocked client w = record w {
  holder = none;
  stage = at_client client (after_call (w.stage client)) w.stage;
}

abbrev registered : World
registered = unlocked 1 (
    next (
      lock 1 Stage.registering (Request.register 1) (record (move_to 1 Stage.connected begin) {
        screens = at_client 1 (ok []) begin.screens;
        broken = at_client 1 false begin.broken;
      })))

abbrev ordering : World
ordering = next (
    next (
      lock 2 Stage.requesting (Request.new_order lunch)
        (move_to 2 Stage.updating (move_to 2 Stage.connected registered))))

registered-Reach : Reach registered
unfolding script perform
registered-Reach =
    later (later (later (later start (connect 1 refl)) (lock_register 1 refl refl)) (act refl))
      (unlock 1 refl refl)

ordering-Reach : Reach ordering
unfolding script perform
ordering-Reach =
    later
      (later
        (later (later (later registered-Reach (connect 2 refl)) (log_in_updater 2 refl))
          (lock_update 2 (Request.new_order lunch) tt refl refl))
        (act refl))
      (act refl)

abbrev told : Message
told = duplicate_message (order_message MessageType.disp_order (some (admit (pos 1000) lunch)))

registered-member : has_client 1 registered.server.display_clients ≡ true
unfolding script perform insert_client
registered-member = refl

ordering-todo : ordering.todo ≡ Act.send 1 told ∷ []
unfolding script perform insert_client
ordering-todo = refl

threads-refine_Steps_example : Steps System.start (record {
  server = perform_all ordering.todo ordering.server;
  screens = ordering.screens;
  broken = ordering.broken;
})
threads-refine_Steps_example = threads-refine_Steps ordering ordering-Reach

registered_sound : registered.broken 1 ≡ false
unfolding script perform insert_client
registered_sound = refl

free-displays_follow_example :
    (registered.screens 1 >>= replay (registered.server.queues 1).queue)
    ≡ ok registered.server.orders
free-displays_follow_example =
    free-displays_follow registered 1 registered-Reach refl registered-member registered_sound

send-to_living_example :
    ((ordering.stage 1 ≡ Stage.registering) ⊎ (ordering.stage 1 ≡ Stage.displaying))
    × (ordering.holder ≢ none)
send-to_living_example = send-to_living ordering 1 told [] ordering-Reach ordering-todo
