-- ===== src/Tests/Displays.antt =====
-- A display client that connects, is told of an order, and takes the message.
use restuarant_ordering_csf.Base.{pos, ◌∷◌, arith, List, All, ◌≡◌, refl, [], true, false}
use restuarant_ordering_csf.Except.{ok, ◌>>=◌}
use restuarant_ordering_csf.Server.{Server, init, register_display, process_new_order, broadcast}
use restuarant_ordering_csf.Model.{ItemStatus}
use restuarant_ordering_csf.Wire.Shape.{IsSendable}
use restuarant_ordering_csf.Server.Sending.{queued-IsSendable}
use restuarant_ordering_csf.Server.Requests.{Request, step, run}
use restuarant_ordering_csf.Server.Unordered.{IsAlike, with_clients, run-IsAlike}
use restuarant_ordering_csf.Server.Clients.{has_client}
use restuarant_ordering_csf.Display.{replay}
use restuarant_ordering_csf.Display.System.{System, start, at_client, serve, Step, Steps}
use restuarant_ordering_csf.Display.Mirror.{displays-follow}
use restuarant_ordering_csf.Tests.Data.{lunch, lunch-IsWireOrder}

abbrev connected : System
connected = record {
  server = register_display 1 start.server;
  screens = at_client 1 (ok []) start.screens;
  broken = at_client 1 false start.broken;
}

abbrev told : System
told = record connected { server = step connected.server (Request.new_order lunch) }

told-Steps : Steps start (serve true 1 told)
told-Steps =
    Steps.one_more
      (Steps.one_more (Steps.one_more (Steps.none_left start) (Step.connect 1 start refl refl))
        (Step.request (Request.new_order lunch) connected tt))
      (Step.served true 1 told refl)

registered : has_client 1 (serve true 1 told).server.display_clients ≡ true
unfolding serve step register_display process_new_order broadcast
registered = refl

told_sound : (serve true 1 told).broken 1 ≡ false
unfolding serve
told_sound = refl

displays-follow_example :
    ((serve true 1 told).screens 1 >>= replay ((serve true 1 told).server.queues 1).queue)
    ≡ ok (serve true 1 told).server.orders
displays-follow_example = displays-follow (serve true 1 told) told-Steps 1 registered told_sound

abbrev ordered : List Request
ordered =
    Request.register 1
    ∷ Request.new_order lunch
    ∷ Request.item_update (pos 1000) (pos 7) ItemStatus.in_progress
    ∷ []

queued-IsSendable_example : All IsSendable ((run init ordered).queues 1).queue
queued-IsSendable_example =
    queued-IsSendable ordered 1 (omega arith)
      (tt, (lunch-IsWireOrder, ((omega arith, omega arith), tt)))

abbrev two_displays : Server
two_displays = record init { display_clients = 1 ∷ 2 ∷ [] }

run-IsAlike_example :
    IsAlike (run two_displays ordered) (run (with_clients (2 ∷ 1 ∷ []) two_displays) ordered)
run-IsAlike_example = run-IsAlike two_displays (2 ∷ 1 ∷ []) ordered (record {
  first_distinct = (refl, (refl, tt));
  second_distinct = (refl, (refl, tt));
  same = λ client. ground arith;
})
