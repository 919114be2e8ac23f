-- ===== src/Listener/Ends.antt =====
-- src/server_main.cpp: how the server program ends.
use restuarant_ordering_csf.Base.{
  ℕ, ℤ, pos, ◌<ℤ◌, ◌≤ℤ◌, nat_eq, ◌≡◌, ◌≢◌, ◌↔◌, List, some, none, String, Text, arith,
}
use restuarant_ordering_csf.Listener.{Returned, server_loop, server_main}

-- The server program ends with the code 1 exactly if it does not have one argument, with the code 0
-- exactly if it has and cannot listen at the port, and runs on exactly in all other cases, whatever
-- the calls of its rounds return.
server_main_iff :
    (eintr : ℤ) (strerror : ℤ → String) (argc : ℕ) (program : Text) (server_fd errno : ℤ)
    (rs : List Returned)
    → let status = (server_main eintr strerror argc program server_fd errno rs).0 in
      ((status ≡ some 1) ↔ (argc ≢ 2))
      × ((status ≡ some 0) ↔ ((argc ≡ 2) × (server_fd <ℤ pos 0)))
      × ((status ≡ none) ↔ ((argc ≡ 2) × (pos 0 ≤ℤ server_fd)))
unfolding server_main server_loop
server_main_iff eintr strerror argc program server_fd errno rs =
    ground (arith, nat_eq.beq_iff argc 2)
