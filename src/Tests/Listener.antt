-- ===== src/Tests/Listener.antt =====
-- The server accepts two connections; the thread for the second cannot be started, and then the
-- client of the first leaves.
use restuarant_ordering_csf.Base.{◌+◌, ◌≤◌, ℤ, pos, ◌≡◌, none, String, arith}
use restuarant_ordering_csf.Listener.{
  Process, Returned, new_process, client_thread_ends, delete_client, start_thread, serve_connection,
  server_round,
}
use restuarant_ordering_csf.Listener.Descriptors.{count, Reach, start, round, ends, accepted-closed}

abbrev describe : ℤ → String
describe errno = "out of memory"

abbrev first : Returned
first = record { connfd = pos 4; errno = pos 0; refused = none; rc = pos 0 }

abbrev second : Returned
second = record { connfd = pos 5; errno = pos 0; refused = none; rc = pos 11 }

abbrev both : Process
both = server_round (pos 4) describe second (server_round (pos 4) describe first new_process)

first-serving : 1 ≤ count (pos 4) both.serving
unfolding server_round serve_connection start_thread delete_client
first-serving = omega arith

second-fresh : count (pos 5) (server_round (pos 4) describe first new_process).serving ≡ 0
unfolding server_round serve_connection start_thread
second-fresh = omega arith

both-Reach : Reach (pos 4) describe both
both-Reach = round second (round first start (λ h. omega arith)) (λ h. second-fresh)

abbrev left : Process
left = client_thread_ends (pos 4) both

accepted-closed_example :
    (count (pos 4) left.accepted ≡ count (pos 4) left.closed + count (pos 4) left.serving)
    × (count (pos 4) left.serving ≤ 1)
accepted-closed_example =
    accepted-closed (pos 4) describe left (pos 4) (ends (pos 4) both-Reach first-serving)
