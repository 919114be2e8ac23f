-- ===== src/Concurrent/Moves.antt =====
-- Every access of a thread keeps the invariant.
use mathlib.Core.Path.{subst}
use restuarant_ordering_csf.Base.{
  ℕ, Bool, true, false, nat_eq, ◌≡◌, refl, sym, ap, ◌∙◌, List, ◌∷◌, Option, some, none, arith, All,
}
use restuarant_ordering_csf.Except.{Result, ok, ◌>>=◌}
use restuarant_ordering_csf.Message.{Message}
use restuarant_ordering_csf.MessageQueue.{MessageQueue, dequeue}
use restuarant_ordering_csf.MessageQueue
use restuarant_ordering_csf.Server.{Server}
use restuarant_ordering_csf.Server.Script.{Act, perform, perform_all}
use restuarant_ordering_csf.Server.Script.Targets.{IsSentTo, IsMember}
use restuarant_ordering_csf.Client.{next_message}
use restuarant_ordering_csf.Display.{Orders, handle}
use restuarant_ordering_csf.Display.System.{
  System, Steps, at_client, IsAllowed, serve, screens_after, broken_after,
}
use restuarant_ordering_csf.Display.System
use restuarant_ordering_csf.Concurrent.{
  Stage, World, begin, show, set_queue, Step, connect, log_in_updater, lock_register,
  lock_unregister, lock_update, act, unlock, take, time_out, refuse, stop, delete, Reach, start,
  later,
}
use restuarant_ordering_csf.Concurrent.Commute.{
  queue_after_all, perform-queues, perform_all-queues, perform_all-set_queue, taken-queue_after_all,
  at_client-unchanged,
}
use restuarant_ordering_csf.Concurrent.Invariant.{
  at_client-each, OnList, IsNew, settle, Inv, move_to-Inv, unlock-Inv, queue_after-unsent,
  new-OnList,
}
use restuarant_ordering_csf.Concurrent.Locks.{
  lock_register-Inv, lock_unregister-Inv, lock_update-Inv,
}

module _ (w : World) (i : Inv w) where
  act-Inv :
      (a : Act) (acts : List Act)
      → w.todo ≡ a ∷ acts
      → Inv (record w { server = perform a w.server; todo = acts })
  unfolding perform_all
  act-Inv a acts e =
      let sent = subst (All (IsSentTo (λ client. OnList (w.stage client)))) e i.sends in
      record {
        free = λ free. absurd (ground (arith, i.free free, e));
        inside = i.inside;
        listed = λ c h. i.listed c (
            subst (λ (l : List Act). IsMember (perform_all l w.server).display_clients c) (sym e)
              h);
        sends = sent.1;
        empty = λ c new.
            perform-queues a c w.server
            ∙ queue_after-unsent (λ client. OnList (w.stage client)) a c (w.server.queues c) sent.0
                (new-OnList (w.stage c) new)
            ∙ i.empty c new;
        reached =
            subst (λ (l : List Act). Steps System.start (settle l w.server w.screens w.broken)) e
              i.reached;
      }

  take-Inv :
      (sent : Bool) (client : ℕ) (msg : Message) (queue : MessageQueue)
      → w.stage client ≡ Stage.displaying
      → w.broken client ≡ false
      → dequeue (w.server.queues client) ≡ (some msg, queue)
      → Inv (show sent client (some msg) queue w)
  unfolding serve
  take-Inv sent client msg queue at sound e =
      let s = perform_all w.todo w.server in
      let taken : dequeue (s.queues client) ≡ (some msg, queue_after_all w.todo client queue) =
        ap dequeue (perform_all-queues w.todo client w.server)
        ∙ taken-queue_after_all w.todo client (w.server.queues client) msg queue e in
      let later_taken : serve sent client (settle w.todo w.server w.screens w.broken)
          ≡ settle w.todo (set_queue client queue w.server)
              (screens_after sent client (some msg) w.screens) (broken_after sent client w.broken) =
        ap
          (λ (p : Option Message × MessageQueue). record {
            server = set_queue client p.1 s;
            screens = screens_after sent client p.0 w.screens;
            broken = broken_after sent client w.broken;
          })
          taken
        ∙ ap
            (λ (t : Server). record {
              server = t;
              screens = screens_after sent client (some msg) w.screens;
              broken = broken_after sent client w.broken;
            })
            (sym (perform_all-set_queue w.todo client queue w.server)) in
      record {
        free = i.free;
        inside = i.inside;
        listed = λ c h. i.listed c (
            subst (λ (t : Server). IsMember t.display_clients c)
              (perform_all-set_queue w.todo client queue w.server) h);
        sends = i.sends;
        empty =
            at_client-each (λ c q. IsNew (w.stage c) → q ≡ MessageQueue.empty_queue) client queue
              w.server.queues (λ new. elim (subst IsNew at new) [ ]) (λ c miss. i.empty c);
        reached = subst (Steps System.start) later_taken (
            Steps.one_more i.reached
              (System.Step.served sent client (settle w.todo w.server w.screens w.broken) sound));
      }

heartbeat_shown : (screen : Result Orders) → (screen >>= handle (next_message none)) ≡ screen
unfolding handle
heartbeat_shown (ok screen) = refl
heartbeat_shown (restuarant_ordering_csf.Except.err e) = refl

-- A heartbeat that is sent changes nothing.
show-none : (client : ℕ) (w : World) → show true client none (w.server.queues client) w ≡ w
show-none client w =
    ap
      (λ (q : ℕ → MessageQueue). record w {
        server = record w.server { queues = q };
        screens = at_client client (w.screens client >>= handle (next_message none)) w.screens;
      })
      (at_client-unchanged client w.server.queues)
    ∙ ap (λ (x : Result Orders). record w { screens = at_client client x w.screens })
        (heartbeat_shown (w.screens client))
    ∙ ap (λ (f : ℕ → Result Orders). record w { screens = f })
        (at_client-unchanged client w.screens)

-- One that is not sent ends the loop.
show-lost :
    (client : ℕ) (w : World)
    → show false client none (w.server.queues client) w
      ≡ record w { broken = at_client client true w.broken }
show-lost client w =
    ap
      (λ (q : ℕ → MessageQueue). record w {
        server = record w.server { queues = q };
        broken = at_client client true w.broken;
      })
      (at_client-unchanged client w.server.queues)

time_out-Inv :
    (sent : Bool) (client : ℕ) (w : World)
    → w.broken client ≡ false
    → Inv w
    → Inv (show sent client none (w.server.queues client) w)
time_out-Inv true client w sound i = subst Inv (sym (show-none client w)) i
time_out-Inv false client w sound i = subst Inv (sym (show-lost client w)) (record {
  free = i.free;
  inside = i.inside;
  listed = i.listed;
  sends = i.sends;
  empty = i.empty;
  reached =
      Steps.one_more i.reached
        (System.Step.heartbeat_lost client (settle w.todo w.server w.screens w.broken) sound);
})

Step-Inv : (v w : World) → Step v w → Inv v → Inv w
Step-Inv v w (connect client at) i =
    move_to-Inv client Stage.connected v (λ h. subst OnList at h) (λ h. h)
      (λ h. subst IsNew (sym at) tt) i
Step-Inv v w (log_in_updater client at) i =
    move_to-Inv client Stage.updating v (λ h. subst OnList at h) (λ h. h) (λ h. elim h [ ]) i
Step-Inv v w (lock_register client at free) i = lock_register-Inv v i free client at
Step-Inv v w (lock_unregister client at free) i = lock_unregister-Inv v i free client at
Step-Inv v w (lock_update client r h at free) i = lock_update-Inv v i free client r h at
Step-Inv v w (act {a} {acts} e) i = act-Inv v i a acts e
Step-Inv v w (unlock client held done) i = unlock-Inv client v held done i
Step-Inv v w (take sent client {msg} {queue} at sound e) i =
    take-Inv v i sent client msg queue at sound e
Step-Inv v w (time_out sent client at sound) i = time_out-Inv sent client v sound i
Step-Inv v w (refuse client at) i =
    move_to-Inv client Stage.leaving v (λ h. subst OnList at h) (λ h. h) (λ h. elim h [ ]) i
Step-Inv v w (stop client at) i =
    move_to-Inv client Stage.leaving v (λ h. subst OnList at h) (λ h. h) (λ h. elim h [ ]) i
Step-Inv v w (delete client at) i =
    move_to-Inv client Stage.deleted v (λ h. subst OnList at h) (λ h. h) (λ h. elim h [ ]) i

begin-Inv : Inv begin
unfolding perform_all
begin-Inv = record {
  free = λ e. refl;
  inside = λ c h. elim h [ ];
  listed = λ c h. absurd (cc);
  sends = tt;
  empty = λ c h. refl;
  reached = Steps.none_left System.start;
}

pub Reach-Inv : (w : World) → Reach w → Inv w
Reach-Inv w start = begin-Inv
Reach-Inv w (later {v} before last) = Step-Inv v w last (Reach-Inv v before)
