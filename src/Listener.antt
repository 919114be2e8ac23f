-- ===== src/Listener.antt =====
-- src/server_main.cpp, and of src/server.cpp the part that accepts connections: server_loop and
-- client_thread_start, with the constructor and the destructor of Client (src/client.cpp). What the
-- operating system returns is an argument: the descriptors of `open_listenfd` and `accept`, `errno`,
-- whether `new Client` throws, and the result of `pthread_create`. The value of EINTR and `strerror`
-- are parameters. The loop does not end; it is given by its first rounds.
pub mod Descriptors
pub mod Ends
use restuarant_ordering_csf.Base.{
  ℕ, zero, suc, ℤ, pos, ltb_ℤ, leb_ℤ, int_eq, nat_eq, ◌==◌, ◌!=◌, List, [], ◌∷◌, ◌++◌, Option, none,
  some, Text, String, codes, if◌then◌else◌,
}
use restuarant_ordering_csf.Except.{Exception, Result, ok, err, io_exception, what}
use Prim.Native.String.{◌++◌ as str_append}

-- The process of the server, as far as its connections go.
pub record Process : Type 0 where
  pub accepted : List ℤ  -- what `accept` has returned, the last one first
  pub closed : List ℤ  -- the calls of `close`, the last one first
  pub serving : List ℤ  -- `m_fd` of the Client objects that have a thread
  pub cerr : Text  -- what was printed

-- What the calls of one round return.
pub record Returned : Type 0 where
  pub connfd : ℤ  -- `accept`
  pub errno : ℤ
  pub refused : Option String  -- `new Client`: `e.what()`, if it throws
  pub rc : ℤ  -- `pthread_create`

abbrev pub new_process : Process
new_process = record { accepted = []; closed = []; serving = []; cerr = [] }

abbrev pub close : ℤ → Process → Process
close fd p = record p { closed = fd ∷ p.closed }

-- `delete client`, with the destructor of Client.
unfoldable pub delete_client : ℤ → Process → Process
delete_client fd p = if leb_ℤ (pos 0) fd then close fd p else p

abbrev pub without : ℤ → List ℤ → List ℤ
without fd [] = []
without fd (x ∷ fds) = if x == fd then fds else x ∷ without fd fds

-- `client_thread_start`, when `chat` has returned: the `unique_ptr` deletes the client.
unfoldable pub client_thread_ends : ℤ → Process → Process
unfolding delete_client
client_thread_ends fd p = delete_client fd (record p { serving = without fd p.serving })

abbrev report : Text → String → Process → Process
report prefix reason p = record p { cerr = p.cerr ++ (prefix ++ (codes reason ++ codes "\n")) }

module _ (eintr : ℤ) (strerror : ℤ → String) where
  -- The thread for a client is started.
  unfoldable pub start_thread : ℤ → ℤ → Process → Process
  unfolding delete_client
  start_thread fd rc p =
      if rc != pos 0
      then delete_client fd (report (codes "pthread_create error: ") (strerror rc) p)
      else record p { serving = fd ∷ p.serving }

  -- A connection was accepted.
  unfoldable pub serve_connection : ℤ → Option String → ℤ → Process → Process
  unfolding start_thread
  serve_connection fd (some reason) rc p =
      close fd (report (codes "Error creating client: ") reason p)
  serve_connection fd none rc p = start_thread fd rc p

  -- One round of the loop.
  unfoldable pub server_round : Returned → Process → Process
  unfolding serve_connection
  server_round r p =
      if ltb_ℤ r.connfd (pos 0)
      then if r.errno != eintr then report (codes "accept error: ") (strerror r.errno) p else p
      else serve_connection r.connfd r.refused r.rc (record p { accepted = r.connfd ∷ p.accepted })

  unfoldable pub server_rounds : List Returned → Process → Process
  unfolding server_round
  server_rounds [] p = p
  server_rounds (r ∷ rs) p = server_rounds rs (server_round r p)

  -- `server_loop`: it throws if there is no socket to listen at.
  unfoldable pub server_loop : ℤ → ℤ → List Returned → Process → Result Process
  unfolding server_rounds
  server_loop server_fd errno rs p =
      if ltb_ℤ server_fd (pos 0)
      then err (io_exception (str_append "open_listenfd failed: " (strerror errno)))
      else ok (server_rounds rs p)

  -- The exit code of `main`, `none` while it runs.
  caught : Process → Result Process → Option ℕ × Process
  caught p (ok q) = (none, q)
  caught p (err e) = (some 0, report (codes "Error: ") (what e) p)

  unfoldable pub server_main : ℕ → Text → ℤ → ℤ → List Returned → Option ℕ × Process
  unfolding caught server_loop
  server_main argc program server_fd errno rs =
      if argc != 2
      then (some 1, record new_process { cerr = codes "Usage: " ++ (program ++ codes " <port>\n") })
      else caught new_process (server_loop server_fd errno rs new_process)
