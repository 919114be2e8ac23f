-- ===== src/Server/Requests.antt =====
-- The requests that the clients make of the server, and runs of them. Since each request is
-- processed under the mutex, the interleavings of the client threads are the lists of requests.
use restuarant_ordering_csf.Base.{ℕ, ℤ, List, [], ◌∷◌, ◌++◌, ◌≡◌, refl}
use restuarant_ordering_csf.Except.{Result, ok, err}
use restuarant_ordering_csf.Model.{Order, ItemStatus, OrderStatus}
use restuarant_ordering_csf.Server.{
  Server, register_display, unregister_display, process_new_order, process_item_update,
  process_order_update,
}

pub data Request : Type 0 where
  register unregister : ℕ → Request
  new_order : Order → Request
  item_update : ℤ → ℤ → ItemStatus → Request
  order_update : ℤ → OrderStatus → Request

-- A request that throws leaves the server as it was.
abbrev pub after : Server → Result Server → Server
after s (ok t) = t
after s (err e) = s

unfoldable pub step : Server → Request → Server
step s (register client) = register_display client s
step s (unregister client) = unregister_display client s
step s (new_order order) = (process_new_order order s).1
step s (item_update order_id item_id status) =
    after s (process_item_update order_id item_id status s)
step s (order_update order_id status) = after s (process_order_update order_id status s)

unfoldable pub run : Server → List Request → Server
run s [] = s
run s (request ∷ requests) = run (step s request) requests

pub run-append : (s : Server) (xs ys : List Request) → run s (xs ++ ys) ≡ run (run s xs) ys
unfolding run
run-append s [] ys = refl
run-append s (x ∷ xs) ys = run-append (step s x) xs ys
