-- ===== src/Concurrent/Invariant.antt =====
-- What holds between any two accesses of the threads: who is inside of a function of the server, who
-- is on the list of displays, and what the function that has begun still sends.
use mathlib.Core.Path.{subst}
use restuarant_ordering_csf.Base.{
  ℕ, Bool, nat_eq, ◌==◌, ◌≡◌, false, refl, List, [], Option, some, none, arith, Bool-cases, inl,
  inr, eq_sound, All, All-map,
}
use restuarant_ordering_csf.Except.{Result}
use restuarant_ordering_csf.MessageQueue.{MessageQueue}
use restuarant_ordering_csf.MessageQueue
use restuarant_ordering_csf.Server.{Server}
use restuarant_ordering_csf.Server.Script.{Act, perform_all}
use restuarant_ordering_csf.Server.Script.Targets.{IsSentTo, IsSentTo-map, IsMember}
use restuarant_ordering_csf.Display.{Orders}
use restuarant_ordering_csf.Display.System.{System, Steps, at_client}
use restuarant_ordering_csf.Display.System
use restuarant_ordering_csf.Concurrent.{Stage, World, after_call, move_to}
use restuarant_ordering_csf.Concurrent.Commute.{queue_after}

-- A property of every client, when the thread of one of them has moved.
pub at_client-each {ℓ κ} :
    {A : Type ℓ} (P : ℕ → A → Type κ) (client : ℕ) (a : A) (f : ℕ → A)
    → P client a
    → ((c : ℕ) → (client == c) ≡ false → P c (f c))
    → (c : ℕ) → P c (at_client client a f c)
at_client-each P client a f here there c = elim (Bool-cases (client == c)) [
  | inl hit ↦ rw hit (subst (λ d. P d a) (eq_sound client c hit) here)
  | inr miss ↦ rw miss (there c miss)
]

-- The displays that the server may send to,
abbrev pub OnList : Stage → Type 0
OnList Stage.registering = Unit
OnList Stage.displaying = Unit
OnList _ = ⊥

-- the threads that are in a function of the server,
abbrev pub IsInside : Stage → Type 0
IsInside Stage.registering = Unit
IsInside Stage.unregistering = Unit
IsInside Stage.requesting = Unit
IsInside _ = ⊥

-- and those that were on no list yet.
abbrev pub IsNew : Stage → Type 0
IsNew Stage.absent = Unit
IsNew Stage.connected = Unit
IsNew _ = ⊥

-- The server and its displays when the function that has begun is through.
abbrev pub settle : List Act → Server → (ℕ → Result Orders) → (ℕ → Bool) → System
settle acts s screens broken = record {
  server = perform_all acts s;
  screens = screens;
  broken = broken;
}

pub record Inv (w : World) : Type 0 where
  pub free : w.holder ≡ none → w.todo ≡ []
  pub inside : (client : ℕ) → IsInside (w.stage client) → w.holder ≡ some client
  pub listed :
      (client : ℕ)
      → IsMember (perform_all w.todo w.server).display_clients client
      → OnList (w.stage client)
  pub sends : All (IsSentTo (λ client. OnList (w.stage client))) w.todo
  pub empty :
      (client : ℕ) → IsNew (w.stage client) → w.server.queues client ≡ MessageQueue.empty_queue
  pub reached : Steps System.start (settle w.todo w.server w.screens w.broken)

-- A thread moves outside of the mutex.
pub move_to-Inv :
    (client : ℕ) (stage : Stage) (w : World)
    → (OnList (w.stage client) → OnList stage)
    → (IsInside stage → ⊥)
    → (IsNew stage → IsNew (w.stage client))
    → Inv w
    → Inv (move_to client stage w)
move_to-Inv client stage w on outside new i =
    let keeps =
      at_client-each (λ c p. OnList (w.stage c) → OnList p) client stage w.stage on
        (λ c miss h. h) in
    record {
      free = i.free;
      inside =
          at_client-each (λ c p. IsInside p → w.holder ≡ some c) client stage w.stage
            (λ h. elim (outside h) [ ]) (λ c miss. i.inside c);
      listed = λ c h. keeps c (i.listed c h);
      sends = All-map _ _ w.todo (IsSentTo-map _ _ keeps) i.sends;
      empty =
          at_client-each (λ c p. IsNew p → w.server.queues c ≡ MessageQueue.empty_queue) client
            stage w.stage (λ h. i.empty client (new h)) (λ c miss. i.empty c);
      reached = i.reached;
    }

after_call-OnList : (stage : Stage) → OnList stage → OnList (after_call stage)
after_call-OnList Stage.registering h = tt
after_call-OnList Stage.displaying h = tt
after_call-OnList Stage.absent h = h
after_call-OnList Stage.connected h = h
after_call-OnList Stage.unregistering h = h
after_call-OnList Stage.updating h = h
after_call-OnList Stage.requesting h = h
after_call-OnList Stage.leaving h = h
after_call-OnList Stage.deleted h = h

after_call-outside : (stage : Stage) → IsInside (after_call stage) → ⊥
after_call-outside Stage.registering h = h
after_call-outside Stage.displaying h = h
after_call-outside Stage.absent h = h
after_call-outside Stage.connected h = h
after_call-outside Stage.unregistering h = h
after_call-outside Stage.updating h = h
after_call-outside Stage.requesting h = h
after_call-outside Stage.leaving h = h
after_call-outside Stage.deleted h = h

after_call-IsNew : (stage : Stage) → IsNew (after_call stage) → IsNew stage
after_call-IsNew Stage.registering h = h
after_call-IsNew Stage.displaying h = h
after_call-IsNew Stage.absent h = h
after_call-IsNew Stage.connected h = h
after_call-IsNew Stage.unregistering h = h
after_call-IsNew Stage.updating h = h
after_call-IsNew Stage.requesting h = h
after_call-IsNew Stage.leaving h = h
after_call-IsNew Stage.deleted h = h

-- A function returns, and its `Guard` unlocks.
pub unlock-Inv :
    (client : ℕ) (w : World)
    → w.holder ≡ some client
    → w.todo ≡ []
    → Inv w
    → Inv
        (record w { holder = none; stage = at_client client (after_call (w.stage client)) w.stage })
unlock-Inv client w held done i =
    let next = after_call (w.stage client) in
    let keeps =
      at_client-each (λ c p. OnList (w.stage c) → OnList p) client next w.stage
        (after_call-OnList (w.stage client)) (λ c miss h. h) in
    record {
      free = λ e. done;
      inside =
          at_client-each (λ c p. IsInside p → ◌≡◌ {A = Option ℕ} none (some c)) client next w.stage
            (λ h. elim (after_call-outside (w.stage client) h) [ ])
            (λ c miss h.
              absurd (ground (arith, miss, held, i.inside c h, nat_eq.beq_iff client c)));
      listed = λ c h. keeps c (i.listed c h);
      sends = All-map _ _ w.todo (IsSentTo-map _ _ keeps) i.sends;
      empty =
          at_client-each (λ c p. IsNew p → w.server.queues c ≡ MessageQueue.empty_queue) client next
            w.stage (λ h. i.empty client (after_call-IsNew (w.stage client) h))
            (λ c miss. i.empty c);
      reached = i.reached;
    }

pub queue_after-unsent :
    (P : ℕ → Type 0) (a : Act) (client : ℕ) (queue : MessageQueue)
    → IsSentTo P a
    → (P client → ⊥)
    → queue_after a client queue ≡ queue
unfolding queue_after
queue_after-unsent P (Act.send other msg) client queue sent not =
    elim (Bool-cases (other == client)) [
      | inl hit ↦ elim (not (subst P (eq_sound other client hit) sent)) [ ]
      | inr miss ↦ rw miss refl
    ]
queue_after-unsent P (Act.write_orders orders) client queue sent not = refl
queue_after-unsent P (Act.write_clients clients) client queue sent not = refl
queue_after-unsent P (Act.write_next_id id) client queue sent not = refl

pub new-OnList : (stage : Stage) → IsNew stage → OnList stage → ⊥
new-OnList Stage.absent new h = h
new-OnList Stage.connected new h = h
new-OnList Stage.registering new h = new
new-OnList Stage.displaying new h = new
new-OnList Stage.unregistering new h = h
new-OnList Stage.updating new h = h
new-OnList Stage.requesting new h = h
new-OnList Stage.leaving new h = h
new-OnList Stage.deleted new h = h
