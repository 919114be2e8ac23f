-- ===== src/Concurrent/Safety.antt =====
-- What the threads of src/client.cpp and src/server.cpp promise under every interleaving.
use mathlib.Core.Path.{subst}
use restuarant_ordering_csf.Base.{
  ℕ, ◌≡◌, ◌≢◌, arith, refl, List, ◌∷◌, none, ◌⊎◌, inl, inr, true, false, All,
}
use restuarant_ordering_csf.Except.{ok, ◌>>=◌}
use restuarant_ordering_csf.Message.{Message}
use restuarant_ordering_csf.Server.Clients.{has_client}
use restuarant_ordering_csf.Server.Script.{Act, perform_all}
use restuarant_ordering_csf.Server.Script.Targets.{IsSentTo}
use restuarant_ordering_csf.Display.{replay}
use restuarant_ordering_csf.Display.System.{Steps}
use restuarant_ordering_csf.Display.System
use restuarant_ordering_csf.Display.Mirror.{displays-follow}
use restuarant_ordering_csf.Concurrent.{Stage, World, Reach}
use restuarant_ordering_csf.Concurrent.Invariant.{OnList}
use restuarant_ordering_csf.Concurrent.Moves.{Reach-Inv}

-- Whatever the interleaving of the threads, the state in which the server is once the function that
-- has begun is through, with the displays as they are, is one that the server and its displays reach
-- when each function of the server and each round of a display is a single step.
pub threads-refine_Steps :
    (w : World)
    → Reach w
    → Steps System.start
        (record { server = perform_all w.todo w.server; screens = w.screens; broken = w.broken })
threads-refine_Steps w r = (Reach-Inv w r).reached

-- In every state that the threads reach with the mutex of the server free, the display of a
-- registered client to which no message has failed to be sent shows, after the messages that are
-- still in its queue, exactly the orders of the server.
pub free-displays_follow :
    (w : World) (client : ℕ)
    → Reach w
    → w.holder ≡ none
    → has_client client w.server.display_clients ≡ true
    → w.broken client ≡ false
    → (w.screens client >>= replay (w.server.queues client).queue) ≡ ok w.server.orders
unfolding perform_all
free-displays_follow w client r free member sound =
    let i = Reach-Inv w r in
    displays-follow (record { server = w.server; screens = w.screens; broken = w.broken })
      (subst
        (λ (acts : List Act).
          Steps System.start
            (record { server = perform_all acts w.server; screens = w.screens; broken = w.broken }))
        (i.free free) i.reached)
      client member sound

OnList-stages :
    (stage : Stage) → OnList stage → (stage ≡ Stage.registering) ⊎ (stage ≡ Stage.displaying)
OnList-stages Stage.registering h = inl refl
OnList-stages Stage.displaying h = inr refl
OnList-stages Stage.absent h = elim h [ ]
OnList-stages Stage.connected h = elim h [ ]
OnList-stages Stage.unregistering h = elim h [ ]
OnList-stages Stage.updating h = elim h [ ]
OnList-stages Stage.requesting h = elim h [ ]
OnList-stages Stage.leaving h = elim h [ ]
OnList-stages Stage.deleted h = elim h [ ]

-- The server never puts a message into the queue of a Client object that is deleted or may be: at the
-- moment of each call of `Client::enqueue` the client's thread is in `register_display`, or behind it
-- in `display_loop` and not yet in `unregister_display`. And at that moment the mutex of the server
-- is held.
pub send-to_living :
    (w : World) (client : ℕ) (msg : Message) (acts : List Act)
    → Reach w
    → w.todo ≡ Act.send client msg ∷ acts
    → ((w.stage client ≡ Stage.registering) ⊎ (w.stage client ≡ Stage.displaying))
      × (w.holder ≢ none)
send-to_living w client msg acts r e =
    let i = Reach-Inv w r in
    (
      OnList-stages (w.stage client) (subst (All (IsSentTo (λ c. OnList (w.stage c)))) e i.sends).0,
      λ free. absurd (ground (arith, i.free free, e)),
    )
