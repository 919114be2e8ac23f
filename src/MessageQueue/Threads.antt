-- ===== src/MessageQueue/Threads.antt =====
-- src/message_queue.cpp, one access to the shared memory at a time: any number of threads that call
-- `enqueue` and `dequeue` of one queue. `sem_timedwait` may time out whatever the semaphore holds.
-- The lists `put` and `got` are no part of the program: they record what was pushed and popped.
pub mod Invariant
pub mod Safety
use restuarant_ordering_csf.Base.{ℕ, suc, Bool, true, false, ◌≡◌, List, [], ◌∷◌, ◌++◌}
use restuarant_ordering_csf.Message.{Message}

pub record Shared : Type 0 where
  pub queue : List Message
  pub locked : Bool  -- m_mutex
  pub avail : ℕ  -- the count of m_avail
  pub put : List Message
  pub got : List Message

-- Where a thread stands, with the local variable that is live there.
pub data Pc : Type 0 where
  idle : Pc
  locking : (msg : Message) → Pc  -- `enqueue`, before it locks
  pushing : (msg : Message) → Pc  -- before `push_back`
  unlocking : Pc  -- before it unlocks
  posting : Pc  -- before `sem_post`
  waiting : Pc  -- `dequeue`, before `sem_timedwait`
  taking : Pc  -- before it locks
  popping : Pc  -- before `front` and `pop_front`
  leaving : (msg : Message) → Pc  -- before it unlocks, and returns the message
  crashed : Pc  -- `front` of an empty deque is undefined

pub data Move (m : Shared) : Pc → Shared → Pc → Type 0 where
  call_enqueue : (msg : Message) → Move m idle m (locking msg)
  lock_put :
      {msg : Message}
      → m.locked ≡ false
      → Move m (locking msg) (record m { locked = true }) (pushing msg)
  push :
      {msg : Message}
      → Move m
          (pushing msg)
          (record m { queue = m.queue ++ msg ∷ []; put = m.put ++ msg ∷ [] })
          unlocking
  unlock_put : Move m unlocking (record m { locked = false }) posting
  post : Move m posting (record m { avail = suc m.avail }) idle
  call_dequeue : Move m idle m waiting
  time_out : Move m waiting m idle
  acquire : {n : ℕ} → m.avail ≡ suc n → Move m waiting (record m { avail = n }) taking
  lock_get : m.locked ≡ false → Move m taking (record m { locked = true }) popping
  pop :
      {msg : Message} {rest : List Message}
      → m.queue ≡ msg ∷ rest
      → Move m popping (record m { queue = rest; got = m.got ++ msg ∷ [] }) (leaving msg)
  crash : m.queue ≡ [] → Move m popping m crashed
  unlock_get : {msg : Message} → Move m (leaving msg) (record m { locked = false }) idle

pub record Queue : Type 0 where
  pub mem : Shared
  pub threads : List Pc

-- Any thread may be the next to move.
pub data Step (s : Queue) : Queue → Type 0 where
  turn :
      (front back : List Pc) {p q : Pc} {m : Shared}
      → s.threads ≡ front ++ p ∷ back
      → Move s.mem p m q
      → Step s (record { mem = m; threads = front ++ q ∷ back })

-- A new queue, and threads that have not called it yet.
abbrev pub new_queue : List Pc → Queue
new_queue threads = record {
  mem = record { queue = []; locked = false; avail = 0; put = []; got = [] };
  threads = threads;
}

abbrev pub AllIdle : List Pc → Type 0
AllIdle [] = Unit
AllIdle (p ∷ threads) = (p ≡ idle) × AllIdle threads

pub data Reach : Queue → Type 0 where
  start : (threads : List Pc) → AllIdle threads → Reach (new_queue threads)
  later : {s t : Queue} → Reach s → Step s t → Reach t
