-- ===== src/MessageQueue/Fifo.antt =====
-- src/message_queue.cpp: the messages leave a queue in the order in which they were put into it.
use restuarant_ordering_csf.Base.{
  ℕ, zero, suc, ◌≡◌, refl, sym, ap, ◌∙◌, List, [], ◌∷◌, ◌++◌, append_assoc, append-nil, map, Option,
  some, length,
}
use restuarant_ordering_csf.Message.{Message}
use restuarant_ordering_csf.MessageQueue.{
  MessageQueue, empty_queue, enqueue, taken, pop_front, dequeue, enqueue_all, IsBalanced,
  enqueue-IsBalanced,
}

pub queue-enqueue_all :
    (msgs : List Message) (q : MessageQueue) → (enqueue_all msgs q).queue ≡ q.queue ++ msgs
unfolding enqueue_all enqueue
queue-enqueue_all [] q = sym (append-nil q.queue)
queue-enqueue_all (msg ∷ msgs) q =
    queue-enqueue_all msgs (enqueue msg q) ∙ append_assoc q.queue (msg ∷ []) msgs

enqueue_all-IsBalanced :
    (msgs : List Message) (q : MessageQueue) → IsBalanced q → IsBalanced (enqueue_all msgs q)
unfolding enqueue_all
enqueue_all-IsBalanced [] q h = h
enqueue_all-IsBalanced (msg ∷ msgs) q h =
    enqueue_all-IsBalanced msgs (enqueue msg q) (enqueue-IsBalanced msg q h)

-- What a number of calls of `dequeue` return.
unfoldable pub dequeue_times : ℕ → MessageQueue → List (Option Message)
dequeue_times zero q = []
dequeue_times (suc n) q = let (msg, rest) = dequeue q in msg ∷ dequeue_times n rest

holding : List Message → MessageQueue
holding msgs = record { queue = msgs; avail = length msgs }

dequeue_times-holding :
    (msgs : List Message) → dequeue_times (length msgs) (holding msgs) ≡ map some msgs
unfolding dequeue_times holding dequeue taken pop_front
dequeue_times-holding [] = refl
dequeue_times-holding (msg ∷ msgs) = ap (λ rest. some msg ∷ rest) (dequeue_times-holding msgs)

balanced-holding :
    (msgs : List Message) (q : MessageQueue) → IsBalanced q → q.queue ≡ msgs → q ≡ holding msgs
unfolding holding
balanced-holding msgs q h e i = record { queue = e i; avail = (h ∙ ap length e) i }

-- The messages that were put into a new queue are returned by as many calls of `dequeue`, all of
-- them and in the same order.
pub dequeue_times-enqueue_all :
    (msgs : List Message)
    → dequeue_times (length msgs) (enqueue_all msgs empty_queue) ≡ map some msgs
dequeue_times-enqueue_all msgs =
    ap (dequeue_times (length msgs)) (
      balanced-holding msgs (enqueue_all msgs empty_queue)
        (enqueue_all-IsBalanced msgs empty_queue refl) (queue-enqueue_all msgs empty_queue))
    ∙ dequeue_times-holding msgs
