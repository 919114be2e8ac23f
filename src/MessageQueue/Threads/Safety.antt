-- ===== src/MessageQueue/Threads/Safety.antt =====
-- src/message_queue.cpp under every interleaving of its threads.
use native.Mathlib.Decide.{dec_le}
use restuarant_ordering_csf.Base.{
  ◌+◌, ◌≤◌, Bool, Bool-cases, true, false, ◌≡◌, ◌≢◌, refl, ap, List, [], ◌∷◌, ◌++◌, arith, length,
  ◌⊎◌, inl, inr,
}
use restuarant_ordering_csf.Message.{Message}
use restuarant_ordering_csf.MessageQueue.Threads.{
  Shared, Pc, idle, locking, pushing, unlocking, posting, waiting, taking, popping, leaving,
  crashed, Move, lock_put, push, unlock_put, post, time_out, lock_get, pop, crash, unlock_get,
  Queue, AllIdle, Reach,
}
use restuarant_ordering_csf.MessageQueue.Threads.Invariant.{
  holds, owes, crashes, weigh, weigh-append, weigh-idle, rest, lock_count, Reach-IsSound,
}

lock_count-le : (b : Bool) → lock_count b ≤ 1
lock_count-le true = omega arith
lock_count-le false = omega arith

-- Of two threads that use a queue at most one is between its lock and its unlock of the mutex.
pub one_holder :
    {s : Queue} (front middle back : List Pc) (p q : Pc)
    → Reach s
    → s.threads ≡ front ++ p ∷ (middle ++ q ∷ back)
    → holds p + holds q ≤ 1
one_holder {s} front middle back p q r e = omega (
  arith,
  (Reach-IsSound r).lock,
  lock_count-le s.mem.locked,
  ap (weigh holds) e,
  weigh-append holds front p (middle ++ q ∷ back),
  weigh-append holds middle q back,
)

-- A thread never calls `front` on an empty deque: no thread has crashed.
pub no_crash :
    {s : Queue} (front back : List Pc) (p : Pc)
    → Reach s
    → s.threads ≡ front ++ p ∷ back
    → p ≢ crashed
no_crash front back p r e c = absurd (
    omega (
      arith,
      (Reach-IsSound r).alive,
      ap (weigh crashes) e,
      weigh-append crashes front p back,
      ap crashes c,
    ))

-- What was taken out, followed by what is still queued, is what was put in, in the order of the
-- pushes; and when no thread is in a call the semaphore counts the queued messages.
pub first_in_first_out :
    {s : Queue}
    → Reach s
    → (s.mem.put ≡ s.mem.got ++ s.mem.queue)
      × (AllIdle s.threads → s.mem.avail ≡ length s.mem.queue)
first_in_first_out {s} r = (
  (Reach-IsSound r).logged,
  λ h. omega (arith, (Reach-IsSound r).counted, weigh-idle owes s.threads h refl),
)

pub record CanMove (s : Queue) : Type 0 where
  pub front : List Pc
  pub back : List Pc
  pub before : Pc
  pub after : Pc
  pub mem : Shared
  pub is_there : s.threads ≡ front ++ before ∷ back
  pub busy : before ≢ idle
  pub move : Move s.mem before mem after

abbrev Next : Shared → Pc → Type 0
Next m p = (after : Pc) × (mem : Shared) × Move m p mem after

popping-Next : (m : Shared) (queue : List Message) → m.queue ≡ queue → Next m popping
popping-Next m [] e = (_, _, crash e)
popping-Next m (msg ∷ rest) e = (_, _, pop e)

-- A thread in a call can move if the mutex is free, or if it has it.
busy-Next :
    (m : Shared) (p : Pc) → p ≢ idle → p ≢ crashed → (m.locked ≡ false) ⊎ (1 ≤ holds p) → Next m p
busy-Next m idle n c h = absurd (n refl)
busy-Next m (locking msg) n c (inl free) = (_, _, lock_put free)
busy-Next m (locking msg) n c (inr h) = absurd (omega (arith, h))
busy-Next m (pushing msg) n c h = (_, _, push)
busy-Next m unlocking n c h = (_, _, unlock_put)
busy-Next m posting n c h = (_, _, post)
busy-Next m waiting n c h = (_, _, time_out)
busy-Next m taking n c (inl free) = (_, _, lock_get free)
busy-Next m taking n c (inr h) = absurd (omega (arith, h))
busy-Next m popping n c h = popping-Next m m.queue refl
busy-Next m (leaving msg) n c h = (_, _, unlock_get)
busy-Next m crashed n c h = absurd (c refl)

record Holder (threads : List Pc) : Type 0 where
  front : List Pc
  back : List Pc
  holder : Pc
  is_there : threads ≡ front ++ holder ∷ back
  has_it : 1 ≤ holds holder

Holder-behind : (p : Pc) {threads : List Pc} → Holder threads → Holder (p ∷ threads)
Holder-behind p h = record {
  front = p ∷ h.front;
  back = h.back;
  holder = h.holder;
  is_there = ap (λ l. p ∷ l) h.is_there;
  has_it = h.has_it;
}

weigh-Holder : (threads : List Pc) → 1 ≤ weigh holds threads → Holder threads
unfolding weigh
weigh-Holder [] h = absurd (omega (arith, h))
weigh-Holder (p ∷ threads) h = elim (dec_le 1 (holds p)) [
  | yes has ↦ record { front = []; back = threads; holder = p; is_there = refl; has_it = has }
  | no not ↦ Holder-behind p (weigh-Holder threads (omega (arith, h, not)))
]

holder-busy : (p : Pc) → 1 ≤ holds p → p ≢ idle
holder-busy p h e = absurd (omega (arith, h, ap holds e))

free-CanMove :
    {s : Queue} (front back : List Pc) (p : Pc)
    → Reach s
    → s.threads ≡ front ++ p ∷ back
    → p ≢ idle
    → (s.mem.locked ≡ false) ⊎ (1 ≤ holds p)
    → CanMove s
free-CanMove {s} front back p r e n h =
    let (after, mem, move) = busy-Next s.mem p n (no_crash front back p r e) h in
    record {
      front = front;
      back = back;
      before = p;
      after = after;
      mem = mem;
      is_there = e;
      busy = n;
      move = move;
    }

held-CanMove : {s : Queue} → Reach s → Holder s.threads → CanMove s
held-CanMove r h =
    free-CanMove h.front h.back h.holder r h.is_there (holder-busy h.holder h.has_it) (inr h.has_it)

-- The threads never block each other for good: while a thread is in a call, some thread that is in
-- a call can move.
pub progress :
    {s : Queue} (front back : List Pc) (p : Pc)
    → Reach s
    → s.threads ≡ front ++ p ∷ back
    → p ≢ idle
    → CanMove s
progress {s} front back p r e n = elim (Bool-cases s.mem.locked) [
  | inl held ↦
      held-CanMove r
        (weigh-Holder s.threads (omega (arith, (Reach-IsSound r).lock, ap lock_count held)))
  | inr free ↦ free-CanMove front back p r e n (inl free)
]
