-- ===== src/ClientUtil/Program.antt =====
-- The frame of `main` in src/updater_main.cpp and in src/display_main.cpp, with the `FdGuard`
-- (include/fd_guard.h) of the connection. What a program prints is one text.
use restuarant_ordering_csf.Base.{
  ℕ, ℤ, pos, leb_ℤ, nat_eq, ◌!=◌, List, [], ◌∷◌, ◌++◌, Option, none, some, Text, codes,
  if◌then◌else◌,
}
use restuarant_ordering_csf.Except.{Result, ok, err, what}
use restuarant_ordering_csf.ClientUtil.{connect_to_server}

pub record Ended : Type 0 where
  pub status : Option ℕ  -- the exit code, `none` while the program runs
  pub printed : Text
  pub closed : List ℤ  -- the calls of `close`

-- The destructor of `FdGuard`: the calls of `close` that it makes.
unfoldable pub fd_guard_ends : ℤ → List ℤ
fd_guard_ends fd = if leb_ℤ (pos 0) fd then fd ∷ [] else []

-- The scope of the guard in `main`. What the program does in between is a parameter: it does not
-- close the connection itself, and the destructor runs when it is over.
unfoldable pub guarded : ℤ → Option ℕ × Text → Ended
unfolding fd_guard_ends
guarded fd (none, text) = record { status = none; printed = text; closed = [] }
guarded fd (some code, text) = record {
  status = some code;
  printed = text;
  closed = fd_guard_ends fd;
}

connected : (ℤ → Option ℕ × Text) → Result ℤ → Ended
unfolding guarded
connected body (err e) = record {
  status = some 1;
  printed = codes "Error: " ++ (codes (what e) ++ codes "\n");
  closed = [];
}
connected body (ok fd) = guarded fd (body fd)

-- `main`, with what `open_clientfd` returns, and what the program does on its connection.
unfoldable pub client_main : ℕ → Text → ℤ → (ℤ → Option ℕ × Text) → Ended
unfolding connected
client_main argc program opened body =
    if argc != 3
    then record {
      status = some 1;
      printed = codes "Usage: " ++ (program ++ codes " <hostname> <port>\n");
      closed = [];
    }
    else connected body (connect_to_server opened)
