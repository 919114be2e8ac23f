-- ===== src/MessageQueue/Threads/Invariant.antt =====
-- What the threads hold and owe, summed over all of them.

use restuarant_ordering_csf.Base.{
  ℕ, ◌+◌, Bool, true, false, ◌≡◌, refl, sym, ap, ◌∙◌, List, [], ◌∷◌, ◌++◌, append_assoc, arith,
  length, length-append,
}
use restuarant_ordering_csf.MessageQueue.Threads.{
  Shared, Pc, idle, pushing, unlocking, posting, taking, popping, leaving, crashed, Move,
  call_enqueue, lock_put, push, unlock_put, post, call_dequeue, time_out, acquire, lock_get, pop,
  crash, unlock_get, Queue, Step, turn, AllIdle, Reach, start, later,
}

-- Whether a thread has the mutex,
abbrev pub holds : Pc → ℕ
holds (pushing _) = 1
holds unlocking = 1
holds popping = 1
holds (leaving _) = 1
holds _ = 0

-- whether the semaphore does not count a message of the queue because of it: it has pushed and not
-- posted, or taken from the semaphore and not popped.
abbrev pub owes : Pc → ℕ
owes unlocking = 1
owes posting = 1
owes taking = 1
owes popping = 1
owes _ = 0

abbrev pub crashes : Pc → ℕ
crashes crashed = 1
crashes _ = 0

module _ (w : Pc → ℕ) where
  unfoldable pub weigh : List Pc → ℕ
  weigh [] = 0
  weigh (p ∷ threads) = w p + weigh threads

  pub weigh-append :
      (front : List Pc) (p : Pc) (back : List Pc)
      → weigh (front ++ p ∷ back) ≡ weigh front + (w p + weigh back)
  unfolding weigh
  weigh-append [] p back = omega arith
  weigh-append (x ∷ front) p back = omega (arith, weigh-append front p back)

  pub weigh-idle : (threads : List Pc) → AllIdle threads → w idle ≡ 0 → weigh threads ≡ 0
  unfolding weigh
  weigh-idle [] _ z = refl
  weigh-idle (p ∷ threads) (e, h) z = omega (arith, ap w e, z, weigh-idle threads h z)

abbrev pub rest : (Pc → ℕ) → List Pc → List Pc → ℕ
rest w front back = weigh w front + weigh w back

pub apart :
    (w : Pc → ℕ) (front : List Pc) (p : Pc) (back : List Pc)
    → weigh w (front ++ p ∷ back) ≡ rest w front back + w p
apart w front p back = omega (arith, weigh-append w front p back)

abbrev pub lock_count : Bool → ℕ
lock_count true = 1
lock_count false = 0

pub record Inv (m : Shared) (held owed crashes_seen : ℕ) : Type 0 where
  pub lock : held ≡ lock_count m.locked
  pub counted : m.avail + owed ≡ length m.queue
  pub alive : crashes_seen ≡ 0
  pub logged : m.put ≡ m.got ++ m.queue

abbrev pub IsSound : Queue → Type 0
IsSound s = Inv s.mem (weigh holds s.threads) (weigh owes s.threads) (weigh crashes s.threads)

-- One move, with the other threads summed up in `h`, `o` and `c`.
Move-Inv :
    {m m' : Shared} {p q : Pc} (h o c : ℕ)
    → Move m p m' q
    → Inv m (h + holds p) (o + owes p) (c + crashes p)
    → Inv m' (h + holds q) (o + owes q) (c + crashes q)
Move-Inv h o c (call_enqueue msg) i = record {
  lock = i.lock;
  counted = i.counted;
  alive = i.alive;
  logged = i.logged;
}
Move-Inv h o c (lock_put free) i = record {
  lock = ground (arith, i.lock);
  counted = i.counted;
  alive = i.alive;
  logged = i.logged;
}
Move-Inv {m} h o c (push {msg}) i = record {
  lock = i.lock;
  counted = omega (arith, i.counted, length-append m.queue (msg ∷ []));
  alive = i.alive;
  logged = rw (i.logged) (append_assoc m.got m.queue (msg ∷ []));
}
Move-Inv h o c unlock_put i = record {
  lock = ground (arith, i.lock);
  counted = i.counted;
  alive = i.alive;
  logged = i.logged;
}
Move-Inv h o c post i = record {
  lock = i.lock;
  counted = omega (arith, i.counted);
  alive = i.alive;
  logged = i.logged;
}
Move-Inv h o c call_dequeue i = record {
  lock = i.lock;
  counted = i.counted;
  alive = i.alive;
  logged = i.logged;
}
Move-Inv h o c time_out i = record {
  lock = i.lock;
  counted = i.counted;
  alive = i.alive;
  logged = i.logged;
}
Move-Inv h o c (acquire e) i = record {
  lock = i.lock;
  counted = omega (arith, i.counted, e);
  alive = i.alive;
  logged = i.logged;
}
Move-Inv h o c (lock_get free) i = record {
  lock = ground (arith, i.lock);
  counted = i.counted;
  alive = i.alive;
  logged = i.logged;
}
Move-Inv {m} h o c (pop {msg} {rest} e) i = record {
  lock = i.lock;
  counted = omega (arith, i.counted, ap length e);
  alive = i.alive;
  logged = i.logged ∙ ap (λ q. m.got ++ q) e ∙ sym (append_assoc m.got (msg ∷ []) rest);
}
Move-Inv h o c (crash e) i = absurd (omega (arith, i.counted, ap length e))
Move-Inv h o c unlock_get i = record {
  lock = ground (arith, i.lock);
  counted = i.counted;
  alive = i.alive;
  logged = i.logged;
}

-- The threads before and after the one that moves keep what they hold and owe.
Step-IsSound : {s t : Queue} → Step s t → IsSound s → IsSound t
Step-IsSound {s} (turn front back {p} {q} {m} e move) i =
    let around = λ (w : Pc → ℕ) (r : Pc). apart w front r back in
    let before : Inv s.mem (rest holds front back + holds p) (rest owes front back + owes p)
        (rest crashes front back + crashes p) =
      record {
        lock = sym (ap (weigh holds) e ∙ around holds p) ∙ i.lock;
        counted = ap (λ o. s.mem.avail + o) (sym (ap (weigh owes) e ∙ around owes p)) ∙ i.counted;
        alive = sym (ap (weigh crashes) e ∙ around crashes p) ∙ i.alive;
        logged = i.logged;
      } in
    let after = Move-Inv _ _ _ move before in
    record {
      lock = around holds q ∙ after.lock;
      counted = ap (λ o. m.avail + o) (around owes q) ∙ after.counted;
      alive = around crashes q ∙ after.alive;
      logged = after.logged;
    }

pub Reach-IsSound : {s : Queue} → Reach s → IsSound s
Reach-IsSound (start threads h) = record {
  lock = weigh-idle holds threads h refl;
  counted = omega (arith, weigh-idle owes threads h refl);
  alive = weigh-idle crashes threads h refl;
  logged = refl;
}
Reach-IsSound (later r step) = Step-IsSound step (Reach-IsSound r)
