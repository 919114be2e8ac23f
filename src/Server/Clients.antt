-- ===== src/Server/Clients.antt =====
-- The set of the display clients has no client twice, and what one of them finds in its queue.
use restuarant_ordering_csf.Base.{
  ℕ, Bool, true, false, nat_eq, ◌==◌, ◌≡◌, refl, ap, ◌∙◌, List, [], ◌∷◌, if◌then◌else◌, arith, ◌||◌,
}
use restuarant_ordering_csf.Message.{Message}
use restuarant_ordering_csf.MessageQueue.{MessageQueue, enqueue_all}
use restuarant_ordering_csf.MessageQueue
use restuarant_ordering_csf.Server.{insert_client, erase_client}
use restuarant_ordering_csf.Server.Effects.{Queues, put, post, post_all}

abbrev pub has_client : ℕ → List ℕ → Bool
has_client client [] = false
has_client client (other ∷ clients) = (other == client) || has_client client clients

abbrev pub Distinct : List ℕ → Type 0
Distinct [] = Unit
Distinct (client ∷ clients) = (has_client client clients ≡ false) × Distinct clients

pub has_client-insert :
    (client : ℕ) (clients : List ℕ) (other : ℕ)
    → has_client other (insert_client client clients)
      ≡ ((client == other) || has_client other clients)
unfolding insert_client
has_client-insert client [] other = refl
has_client-insert client (x ∷ clients) other = ground (
  arith,
  nat_eq.beq_iff x client,
  nat_eq.beq_iff client other,
  nat_eq.beq_iff x other,
  has_client-insert client clients other,
)

pub insert_client-Distinct :
    (client : ℕ) (clients : List ℕ) → Distinct clients → Distinct (insert_client client clients)
unfolding insert_client
insert_client-Distinct client [] _ = (refl, tt)
insert_client-Distinct client (x ∷ clients) (hx, h) = ground (
  arith,
  nat_eq.beq_iff x client,
  nat_eq.beq_iff client x,
  has_client-insert client clients x,
  insert_client-Distinct client clients h,
)

pub has_client-erase :
    (client : ℕ) (clients : List ℕ) (other : ℕ)
    → Distinct clients
    → has_client other (erase_client client clients)
      ≡ (if client == other then false else has_client other clients)
unfolding erase_client
has_client-erase client [] other _ = ground arith
has_client-erase client (x ∷ clients) other (hx, h) = ground (
  arith,
  nat_eq.beq_iff x client,
  nat_eq.beq_iff client other,
  nat_eq.beq_iff x other,
  has_client-erase client clients other h,
)

pub erase_client-Distinct :
    (client : ℕ) (clients : List ℕ) → Distinct clients → Distinct (erase_client client clients)
unfolding erase_client
erase_client-Distinct client [] h = h
erase_client-Distinct client (x ∷ clients) (hx, h) =
    ground (arith, has_client-erase client clients x h, erase_client-Distinct client clients h)

pub post-other :
    (client : ℕ) (clients : List ℕ) (msg : Message) (queues : Queues)
    → has_client client clients ≡ false
    → post clients msg queues client ≡ queues client
unfolding post put
post-other client [] msg queues h = refl
post-other client (x ∷ clients) msg queues h =
    ground (arith, post-other client clients msg (put x msg queues))

-- A message to a set of clients is put once into the queue of each of them.
pub post-member :
    (client : ℕ) (clients : List ℕ) (msg : Message) (queues : Queues)
    → Distinct clients
    → has_client client clients ≡ true
    → post clients msg queues client ≡ MessageQueue.enqueue msg (queues client)
unfolding post put
post-member client [] msg queues _ h = absurd (cc)
post-member client (x ∷ clients) msg queues (hx, hs) h = ground (
  arith,
  nat_eq.beq_iff x client,
  post-other client clients msg (put x msg queues),
  post-member client clients msg (put x msg queues) hs,
)

pub post_all-member :
    (client : ℕ) (clients : List ℕ) (msgs : List Message) (queues : Queues)
    → Distinct clients
    → has_client client clients ≡ true
    → post_all clients msgs queues client ≡ enqueue_all msgs (queues client)
unfolding post_all enqueue_all
post_all-member client clients [] queues hs h = refl
post_all-member client clients (msg ∷ msgs) queues hs h =
    post_all-member client clients msgs (post clients msg queues) hs h
    ∙ ap (enqueue_all msgs) (post-member client clients msg queues hs h)

pub post_all-other :
    (client : ℕ) (clients : List ℕ) (msgs : List Message) (queues : Queues)
    → has_client client clients ≡ false
    → post_all clients msgs queues client ≡ queues client
unfolding post_all
post_all-other client clients [] queues h = refl
post_all-other client clients (msg ∷ msgs) queues h =
    post_all-other client clients msgs (post clients msg queues) h
    ∙ post-other client clients msg queues h
