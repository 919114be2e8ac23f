-- ===== src/Concurrent/Commute.antt =====
-- A message that is taken out of a queue in the midst of a function of the server could as well have
-- been taken out behind it.
use mathlib.Core.Path.{fun_ext}
use restuarant_ordering_csf.Base.{
  ℕ, nat_eq, ◌==◌, ◌≡◌, refl, ap, ◌∙◌, List, [], ◌∷◌, Option, some, arith, suc, zero, if◌then◌else◌,
  Bool-cases, inl, inr, eq_sound,
}
use restuarant_ordering_csf.Message.{Message}
use restuarant_ordering_csf.MessageQueue.{MessageQueue, dequeue}
use restuarant_ordering_csf.MessageQueue
use restuarant_ordering_csf.Server.{Server}
use restuarant_ordering_csf.Server.Script.{Act, perform, perform_all}
use restuarant_ordering_csf.Display.System.{at_client}
use restuarant_ordering_csf.Concurrent.{set_queue}

-- What an access does to the queue of a client.
unfoldable pub queue_after : Act → ℕ → MessageQueue → MessageQueue
queue_after (Act.send other msg) client queue =
    if other == client then MessageQueue.enqueue msg queue else queue
queue_after _ client queue = queue

unfoldable pub queue_after_all : List Act → ℕ → MessageQueue → MessageQueue
unfolding queue_after
queue_after_all [] client queue = queue
queue_after_all (a ∷ acts) client queue = queue_after_all acts client (queue_after a client queue)

pub perform-queues :
    (a : Act) (client : ℕ) (s : Server)
    → (perform a s).queues client ≡ queue_after a client (s.queues client)
unfolding perform queue_after restuarant_ordering_csf.Server.enqueue
perform-queues (Act.send other msg) client s = refl
perform-queues (Act.write_orders orders) client s = refl
perform-queues (Act.write_clients clients) client s = refl
perform-queues (Act.write_next_id id) client s = refl

pub perform_all-queues :
    (acts : List Act) (client : ℕ) (s : Server)
    → (perform_all acts s).queues client ≡ queue_after_all acts client (s.queues client)
unfolding perform_all queue_after_all
perform_all-queues [] client s = refl
perform_all-queues (a ∷ acts) client s =
    perform_all-queues acts client (perform a s)
    ∙ ap (queue_after_all acts client) (perform-queues a client s)

perform-set_queue :
    (a : Act) (client : ℕ) (queue : MessageQueue) (s : Server)
    → perform a (set_queue client queue s)
      ≡ set_queue client (queue_after a client queue) (perform a s)
unfolding perform queue_after restuarant_ordering_csf.Server.enqueue
perform-set_queue (Act.send other msg) client queue s =
    let same : (c : ℕ)
        → (if other == c
            then MessageQueue.enqueue msg (if client == c then queue else s.queues c)
            else (if client == c then queue else s.queues c))
          ≡ (if client == c
              then (if other == client then MessageQueue.enqueue msg queue else queue)
              else (if other == c then MessageQueue.enqueue msg (s.queues c) else s.queues c)) =
      λ c. ground (arith, nat_eq.beq_iff client c) in
    ap (λ (q : ℕ → MessageQueue). record s { queues = q }) (fun_ext same)
perform-set_queue (Act.write_orders orders) client queue s = refl
perform-set_queue (Act.write_clients clients) client queue s = refl
perform-set_queue (Act.write_next_id id) client queue s = refl

pub perform_all-set_queue :
    (acts : List Act) (client : ℕ) (queue : MessageQueue) (s : Server)
    → perform_all acts (set_queue client queue s)
      ≡ set_queue client (queue_after_all acts client queue) (perform_all acts s)
unfolding perform_all queue_after_all
perform_all-set_queue [] client queue s = refl
perform_all-set_queue (a ∷ acts) client queue s =
    ap (perform_all acts) (perform-set_queue a client queue s)
    ∙ perform_all-set_queue acts client (queue_after a client queue) (perform a s)

taken-enqueue :
    (avail : ℕ) (queue : List Message) (msg new : Message) (rest : MessageQueue)
    → dequeue (record { queue = queue; avail = avail }) ≡ (some msg, rest)
    → dequeue (MessageQueue.enqueue new (record { queue = queue; avail = avail }))
      ≡ (some msg, MessageQueue.enqueue new rest)
unfolding dequeue MessageQueue.enqueue
taken-enqueue zero queue msg new rest e = absurd (cc)
taken-enqueue (suc avail) [] msg new rest e = absurd (cc)
taken-enqueue (suc avail) (x ∷ queue) msg new rest e =
    ap (λ (p : Option Message × MessageQueue). (p.0, MessageQueue.enqueue new p.1)) e

taken-queue_after :
    (a : Act) (client : ℕ) (queue : MessageQueue) (msg : Message) (rest : MessageQueue)
    → dequeue queue ≡ (some msg, rest)
    → dequeue (queue_after a client queue) ≡ (some msg, queue_after a client rest)
unfolding queue_after
taken-queue_after (Act.send other new) client queue msg rest e =
    elim (Bool-cases (other == client)) [
      | inl hit ↦ rw hit (taken-enqueue queue.avail queue.queue msg new rest e)
      | inr miss ↦ rw miss e
    ]
taken-queue_after (Act.write_orders orders) client queue msg rest e = e
taken-queue_after (Act.write_clients clients) client queue msg rest e = e
taken-queue_after (Act.write_next_id id) client queue msg rest e = e

-- The first message stays the first, whatever is put in behind it.
pub taken-queue_after_all :
    (acts : List Act) (client : ℕ) (queue : MessageQueue) (msg : Message) (rest : MessageQueue)
    → dequeue queue ≡ (some msg, rest)
    → dequeue (queue_after_all acts client queue) ≡ (some msg, queue_after_all acts client rest)
unfolding queue_after_all
taken-queue_after_all [] client queue msg rest e = e
taken-queue_after_all (a ∷ acts) client queue msg rest e =
    taken-queue_after_all acts client (queue_after a client queue) msg (queue_after a client rest)
      (taken-queue_after a client queue msg rest e)

at_client-same {ℓ} :
    {A : Type ℓ} (client : ℕ) (f : ℕ → A) (c : ℕ) → at_client client (f client) f c ≡ f c
at_client-same client f c = elim (Bool-cases (client == c)) [
  | inl hit ↦ rw hit (ap f (eq_sound client c hit))
  | inr miss ↦ rw miss refl
]

pub at_client-unchanged {ℓ} :
    {A : Type ℓ} (client : ℕ) (f : ℕ → A) → at_client client (f client) f ≡ f
at_client-unchanged client f = fun_ext (at_client-same client f)
