-- ===== src/MessageQueue.antt =====
-- include/message_queue.h and src/message_queue.cpp: the queue of one client. A call of `enqueue`
-- or `dequeue` is one step here; Threads takes them apart.
pub mod Fifo
pub mod Threads
use restuarant_ordering_csf.Base.{
  ℕ, zero, suc, ◌≡◌, refl, List, [], ◌∷◌, ◌++◌, Option, none, some, length, length-append, arith,
}
use restuarant_ordering_csf.Message.{Message}

pub record MessageQueue : Type 0 where
  pub queue : List Message
  -- the count of the semaphore `m_avail`
  pub avail : ℕ

-- The constructor.
abbrev pub empty_queue : MessageQueue
empty_queue = record { queue = []; avail = 0 }

-- The message is pushed at the back, and the semaphore is posted.
unfoldable pub enqueue : Message → MessageQueue → MessageQueue
enqueue msg q = record { queue = q.queue ++ msg ∷ []; avail = suc q.avail }

-- `front` and `pop_front`, after the semaphore was taken; an empty deque is not met (see `IsBalanced`).
pop_front : List Message → ℕ → Option Message × MessageQueue
pop_front [] avail = (none, record { queue = []; avail = avail })
pop_front (msg ∷ queue) avail = (some msg, record { queue = queue; avail = avail })

taken : MessageQueue → ℕ → Option Message × MessageQueue
unfolding pop_front
taken q zero = (none, q)
taken q (suc avail) = pop_front q.queue avail

-- `none` is the null pointer: the semaphore was not posted within a second.
unfoldable pub dequeue : MessageQueue → Option Message × MessageQueue
unfolding taken
dequeue q = taken q q.avail

-- The semaphore counts the messages.
abbrev pub IsBalanced : MessageQueue → Type 0
IsBalanced q = q.avail ≡ length q.queue

pub enqueue-IsBalanced :
    (msg : Message) (q : MessageQueue) → IsBalanced q → IsBalanced (enqueue msg q)
unfolding enqueue
enqueue-IsBalanced msg q h = omega (arith, length-append q.queue (msg ∷ []))

pub dequeue-IsBalanced : (q : MessageQueue) → IsBalanced q → IsBalanced (dequeue q).1
unfolding dequeue
dequeue-IsBalanced q h = ground arith

-- The messages of a list are put in one after the other.
unfoldable pub enqueue_all : List Message → MessageQueue → MessageQueue
enqueue_all [] q = q
enqueue_all (msg ∷ msgs) q = enqueue_all msgs (enqueue msg q)

unfoldable pub taken_list : Option Message → List Message
taken_list none = []
taken_list (some msg) = msg ∷ []

pop_front-queue :
    (queue : List Message) (avail : ℕ)
    → queue ≡ taken_list (pop_front queue avail).0 ++ (pop_front queue avail).1.queue
unfolding pop_front taken_list
pop_front-queue [] avail = refl
pop_front-queue (msg ∷ queue) avail = refl

taken-queue :
    (q : MessageQueue) (avail : ℕ)
    → q.queue ≡ taken_list (taken q avail).0 ++ (taken q avail).1.queue
unfolding taken taken_list
taken-queue q zero = refl
taken-queue q (suc avail) = pop_front-queue q.queue avail

-- A message that is taken out was the first one in the queue, and nothing else is lost.
pub dequeue-queue : (q : MessageQueue) → q.queue ≡ taken_list (dequeue q).0 ++ (dequeue q).1.queue
unfolding dequeue
dequeue-queue q = taken-queue q q.avail
