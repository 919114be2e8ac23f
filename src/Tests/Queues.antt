-- ===== src/Tests/Queues.antt =====
-- A message queue with two threads: one has put a message in and is about to put in another, the
-- other is about to pop.
use restuarant_ordering_csf.Base.{◌+◌, ◌≤◌, true, ◌≡◌, ◌≢◌, refl, [], ◌∷◌, ◌++◌, length}
use restuarant_ordering_csf.Message.{Message, MessageType, plain_message}
use restuarant_ordering_csf.MessageQueue.Threads.{
  idle, locking, unlocking, waiting, taking, popping, crashed, call_enqueue, lock_put, push,
  unlock_put, post, call_dequeue, acquire, lock_get, Queue, turn, AllIdle, Reach, start, later,
}
use restuarant_ordering_csf.MessageQueue.Threads.Invariant.{holds}
use restuarant_ordering_csf.MessageQueue.Threads.Safety.{
  one_holder, no_crash, first_in_first_out, CanMove, progress,
}

abbrev ok_message : Message
ok_message = plain_message MessageType.ok_reply

abbrev met : Queue
met = record {
  mem = record {
    queue = ok_message ∷ [];
    locked = true;
    avail = 0;
    put = ok_message ∷ [];
    got = [];
  };
  threads = locking ok_message ∷ popping ∷ [];
}

met-Reach : Reach met
met-Reach =
    let r0 = start (idle ∷ idle ∷ []) (refl, (refl, tt)) in
    let r1 = later r0 (turn [] (idle ∷ []) refl (call_enqueue ok_message)) in
    let r2 = later r1 (turn [] (idle ∷ []) refl (lock_put refl)) in
    let r3 = later r2 (turn [] (idle ∷ []) refl push) in
    let r4 = later r3 (turn (unlocking ∷ []) [] refl call_dequeue) in
    let r5 = later r4 (turn [] (waiting ∷ []) refl unlock_put) in
    let r6 = later r5 (turn [] (waiting ∷ []) refl post) in
    let r7 = later r6 (turn (idle ∷ []) [] refl (acquire {n = 0} refl)) in
    let r8 = later r7 (turn [] (taking ∷ []) refl (call_enqueue ok_message)) in
    later r8 (turn (locking ok_message ∷ []) [] refl (lock_get refl))

one_holder_example : holds (locking ok_message) + holds popping ≤ 1
one_holder_example = one_holder [] [] [] (locking ok_message) popping met-Reach refl

no_crash_example : popping ≢ crashed
no_crash_example = no_crash (locking ok_message ∷ []) [] popping met-Reach refl

first_in_first_out_example :
    (met.mem.put ≡ met.mem.got ++ met.mem.queue)
    × (AllIdle met.threads → met.mem.avail ≡ length met.mem.queue)
first_in_first_out_example = first_in_first_out met-Reach

progress_example : CanMove met
progress_example = progress [] (popping ∷ []) (locking ok_message) met-Reach refl (λ e. cc)
