-- ===== src/Listener/Descriptors.antt =====
-- src/server.cpp and src/client.cpp: the descriptors of the connections, under every interleaving of
-- the accepting thread with the ends of the client threads.
use restuarant_ordering_csf.Base.{
  ℕ, ◌+◌, ◌≤◌, ℤ, pos, leb_ℤ, ◌≤ℤ◌, int_eq, nat_eq, ◌==◌, ◌≡◌, List, [], ◌∷◌, String, if◌then◌else◌,
  arith,
}
use restuarant_ordering_csf.Listener.{
  Process, Returned, new_process, delete_client, without, client_thread_ends, start_thread,
  serve_connection, server_round,
}

-- How often a descriptor is in a list.
abbrev pub count : ℤ → List ℤ → ℕ
count fd [] = 0
count fd (x ∷ fds) = (if x == fd then 1 else 0) + count fd fds

-- `accept` returns a descriptor that is not open.
abbrev pub IsFresh : Returned → Process → Type 0
IsFresh r p = pos 0 ≤ℤ r.connfd → count r.connfd p.serving ≡ 0

module _ (eintr : ℤ) (strerror : ℤ → String) where
  pub data Reach : Process → Type 0 where
    start : Reach new_process
    round :
        {p : Process} (r : Returned)
        → Reach p
        → IsFresh r p
        → Reach (server_round eintr strerror r p)
    ends :
        {p : Process} (fd : ℤ) → Reach p → 1 ≤ count fd p.serving → Reach (client_thread_ends fd p)

pub record IsKept (p : Process) : Type 0 where
  pub kept : (fd : ℤ) → count fd p.accepted ≡ count fd p.closed + count fd p.serving
  pub once : (fd : ℤ) → count fd p.serving ≤ 1
  pub valid : (fd : ℤ) → 1 ≤ count fd p.serving → pos 0 ≤ℤ fd

count-without :
    (fd : ℤ) (fds : List ℤ) (x : ℤ)
    → 1 ≤ count fd fds
    → count x fds ≡ (if fd == x then 1 else 0) + count x (without fd fds)
count-without fd [] x h = absurd (omega (arith, h))
count-without fd (y ∷ fds) x h =
    ground
      (arith, int_eq.beq_iff y fd, int_eq.beq_iff y x, int_eq.beq_iff fd x, count-without fd fds x)

-- A connection that is not served is closed, one that is served is counted among the served.
settled :
    (eintr : ℤ) (strerror : ℤ → String) (r : Returned) (p : Process) (fd : ℤ)
    → let q = server_round eintr strerror r p in
      (count fd q.accepted + (count fd p.closed + count fd p.serving)
        ≡ count fd p.accepted + (count fd q.closed + count fd q.serving))
      × (count fd q.serving
          ≤ count fd p.serving
            + (if r.connfd == fd then (if leb_ℤ (pos 0) r.connfd then 1 else 0) else 0))
unfolding server_round serve_connection start_thread delete_client
settled eintr strerror r p fd = ground (arith)

ends-IsKept :
    (fd : ℤ) (p : Process) → 1 ≤ count fd p.serving → IsKept p → IsKept (client_thread_ends fd p)
unfolding client_thread_ends delete_client
ends-IsKept fd p there i = record {
  kept = λ x. ground (arith, i.kept x, i.valid fd there, count-without fd p.serving x there);
  once = λ x. ground (arith, i.once x, count-without fd p.serving x there);
  valid = λ x h. i.valid x (ground (arith, h, count-without fd p.serving x there));
}

round-IsKept :
    (eintr : ℤ) (strerror : ℤ → String) (r : Returned) (p : Process)
    → IsFresh r p
    → IsKept p
    → IsKept (server_round eintr strerror r p)
round-IsKept eintr strerror r p fresh i = record {
  kept = λ fd. omega (arith, (settled eintr strerror r p fd).0, i.kept fd);
  once = λ fd.
      ground
        (arith, (settled eintr strerror r p fd).1, i.once fd, fresh, int_eq.beq_iff r.connfd fd);
  valid = λ fd h.
      ground (arith, h, (settled eintr strerror r p fd).1, i.valid fd, int_eq.beq_iff r.connfd fd);
}

Reach-IsKept : (eintr : ℤ) (strerror : ℤ → String) (p : Process) → Reach eintr strerror p → IsKept p
Reach-IsKept eintr strerror p start = record {
  kept = λ fd. omega arith;
  once = λ fd. omega arith;
  valid = λ fd h. absurd (omega (arith, h));
}
Reach-IsKept eintr strerror p (round {p = before} r reach fresh) =
    round-IsKept eintr strerror r before fresh (Reach-IsKept eintr strerror before reach)
Reach-IsKept eintr strerror p (ends {p = before} fd reach there) =
    ends-IsKept fd before there (Reach-IsKept eintr strerror before reach)

-- However the accepting thread and the ends of the client threads interleave: every descriptor that
-- was accepted has been closed, exactly as often as it was accepted, except for those whose client
-- still has a thread, and no two such clients share one. It is assumed that `accept` never returns a
-- descriptor that is open.
pub accepted-closed :
    (eintr : ℤ) (strerror : ℤ → String) (p : Process) (fd : ℤ)
    → Reach eintr strerror p
    → (count fd p.accepted ≡ count fd p.closed + count fd p.serving) × (count fd p.serving ≤ 1)
accepted-closed eintr strerror p fd r =
    let i = Reach-IsKept eintr strerror p r in (i.kept fd, i.once fd)
