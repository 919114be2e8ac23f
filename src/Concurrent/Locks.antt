-- ===== src/Concurrent/Locks.antt =====
-- A thread that enters a function of the server keeps the invariant.
use mathlib.Core.Path.{subst}
use restuarant_ordering_csf.Base.{
  ℕ, Bool, nat_eq, ◌≡◌, false, refl, sym, ap, ◌∙◌, List, [], Option, some, none, arith, Bool-cases,
  inl, inr, eq_refl, All, All-map,
}
use restuarant_ordering_csf.Except.{Result, ok}
use restuarant_ordering_csf.MessageQueue.{MessageQueue, dequeue}
use restuarant_ordering_csf.MessageQueue
use restuarant_ordering_csf.Server.{Server, register_display, insert_client, erase_client}
use restuarant_ordering_csf.Server.Effects.{register_display-effect}
use restuarant_ordering_csf.Server.Clients.{has_client, has_client-insert, has_client-erase}
use restuarant_ordering_csf.Server.Requests.{Request, step}
use restuarant_ordering_csf.Server.Script.{Act, perform_all, script}
use restuarant_ordering_csf.Server.Script.Atomic.{perform_all-script}
use restuarant_ordering_csf.Server.Script.Targets.{
  IsSentTo, IsTold-IsSentTo, IsSentTo-map, IsMember, Told, told-display_clients, register-IsSentTo,
  new_order-Told, item_update-Told, order_update-Told,
}
use restuarant_ordering_csf.Display.{Orders}
use restuarant_ordering_csf.Display.System.{System, Steps, at_client, IsAllowed, serve}
use restuarant_ordering_csf.Display.System
use restuarant_ordering_csf.Display.Mirror.{reached-IsFiled}
use restuarant_ordering_csf.Concurrent.{Stage, World, IsUpdate, lock}
use restuarant_ordering_csf.Concurrent.Invariant.{
  at_client-each, OnList, IsInside, IsNew, settle, Inv,
}

-- While the mutex is free, the server is as the whole functions have left it.
abbrev as_is : World → System
as_is w = record { server = w.server; screens = w.screens; broken = w.broken }

module _ (w : World) (i : Inv w) where
  module _ (free : w.holder ≡ none) where
    abbrev Begun : List Act → Type 0
    Begun acts = Steps System.start (settle acts w.server w.screens w.broken)

    as_is-reached : Steps System.start (as_is w)
    unfolding perform_all
    as_is-reached = subst Begun (i.free free) i.reached

    as_is-listed : (c : ℕ) → IsMember w.server.display_clients c → OnList (w.stage c)
    unfolding perform_all
    as_is-listed c h = i.listed c (
        subst (λ (acts : List Act). IsMember (perform_all acts w.server).display_clients c)
          (sym (i.free free)) h)

    nobody_inside : (c : ℕ) → IsInside (w.stage c) → ⊥
    nobody_inside c h = absurd (ground (arith, free, i.inside c h))

    -- The thread of a client enters a function of the server.
    lock-Inv :
        (client : ℕ) (stage : Stage) (r : Request) (screens : ℕ → Result Orders) (broken : ℕ → Bool)
        → (IsNew stage → ⊥)
        → ((c : ℕ)
            → IsMember (step w.server r).display_clients c
            → OnList (at_client client stage w.stage c))
        → All (IsSentTo (λ c. OnList (at_client client stage w.stage c))) (script r w.server)
        → Steps System.start
            (record { server = step w.server r; screens = screens; broken = broken })
        → Inv (lock client stage r (record w { screens = screens; broken = broken }))
    lock-Inv client stage r screens broken old listed sends reached = record {
      free = λ e. absurd (cc);
      inside =
          at_client-each (λ c p. IsInside p → ◌≡◌ {A = Option ℕ} (some client) (some c)) client
            stage w.stage (λ h. refl) (λ c miss h. elim (nobody_inside c h) [ ]);
      listed = λ c h.
          listed c (
            subst (λ (s : Server). IsMember s.display_clients c) (perform_all-script r w.server) h);
      sends = sends;
      empty =
          at_client-each (λ c p. IsNew p → w.server.queues c ≡ MessageQueue.empty_queue) client
            stage w.stage (λ h. elim (old h) [ ]) (λ c miss. i.empty c);
      reached =
          subst
            (λ (s : Server).
              Steps System.start (record { server = s; screens = screens; broken = broken }))
            (sym (perform_all-script r w.server)) reached;
    }

    unlisted :
        (client : ℕ)
        → (OnList (w.stage client) → ⊥)
        → has_client client w.server.display_clients ≡ false
    unlisted client off = elim (Bool-cases (has_client client w.server.display_clients)) [
      | inl on ↦ elim (off (as_is-listed client on)) [ ]
      | inr e ↦ e
    ]

    pub lock_register-Inv :
        (client : ℕ)
        → w.stage client ≡ Stage.connected
        → Inv (
            lock client Stage.registering (Request.register client) (record w {
              screens = at_client client (ok []) w.screens;
              broken = at_client client false w.broken;
            }))
    unfolding step
    lock_register-Inv client at =
        let old = unlisted client (λ h. subst OnList at h) in
        lock-Inv client Stage.registering (Request.register client)
          (at_client client (ok []) w.screens) (at_client client false w.broken) (λ h. h)
          (λ c h.
            at_client-each
              (λ d p. IsMember (register_display client w.server).display_clients d → OnList p)
              client Stage.registering w.stage (λ _. tt)
              (λ d miss m. as_is-listed d (
                rw miss at (
                  sym (has_client-insert client w.server.display_clients d)
                  ∙ sym (
                      ap (λ (s : Server). has_client d s.display_clients)
                        (register_display-effect client w.server))
                  ∙ m)))
              c h)
          (All-map _ _ (script (Request.register client) w.server)
            (IsSentTo-map _ _ (λ c e.
              subst (λ d. OnList (at_client client Stage.registering w.stage d)) e
                (rw (eq_refl client) tt)))
            (register-IsSentTo client w.server))
          (Steps.one_more as_is-reached
            (System.Step.connect client (as_is w) old (i.empty client (subst IsNew (sym at) tt))))

    pub lock_unregister-Inv :
        (client : ℕ)
        → w.stage client ≡ Stage.displaying
        → Inv (lock client Stage.unregistering (Request.unregister client) w)
    unfolding step script restuarant_ordering_csf.Server.unregister_display
    lock_unregister-Inv client at =
        let distinct = (reached-IsFiled (as_is w) as_is-reached).clients in
        let erased = λ (c : ℕ). has_client-erase client w.server.display_clients c distinct in
        lock-Inv client Stage.unregistering (Request.unregister client) w.screens w.broken (λ h. h)
          (at_client-each
            (λ c p. IsMember (erase_client client w.server.display_clients) c → OnList p) client
            Stage.unregistering w.stage
            (λ m. absurd (ground (arith, m, erased client, nat_eq.beq_iff client client)))
            (λ c miss m. as_is-listed c (ground (arith, m, miss, erased c))))
          (tt, tt)
          (Steps.one_more as_is-reached
            (System.Step.request (Request.unregister client) (as_is w) tt))

    update-Told : (r : Request) → IsUpdate r → Told w.server (script r w.server)
    update-Told (Request.register client) h = elim h [ ]
    update-Told (Request.unregister client) h = elim h [ ]
    update-Told (Request.new_order order) h = new_order-Told w.server order
    update-Told (Request.item_update order_id item_id status) h =
        item_update-Told w.server order_id item_id status
    update-Told (Request.order_update order_id status) h =
        order_update-Told w.server order_id status

    IsUpdate-IsAllowed : (r : Request) → IsUpdate r → IsAllowed r
    IsUpdate-IsAllowed (Request.register client) h = h
    IsUpdate-IsAllowed (Request.unregister client) h = tt
    IsUpdate-IsAllowed (Request.new_order order) h = h
    IsUpdate-IsAllowed (Request.item_update order_id item_id status) h = h
    IsUpdate-IsAllowed (Request.order_update order_id status) h = h

    pub lock_update-Inv :
        (client : ℕ) (r : Request)
        → IsUpdate r
        → w.stage client ≡ Stage.updating
        → Inv (lock client Stage.requesting r w)
    lock_update-Inv client r h at =
        let told = update-Told r h in
        let keeps : (c : ℕ)
            → IsMember w.server.display_clients c
            → OnList (at_client client Stage.requesting w.stage c) =
          at_client-each (λ c p. IsMember w.server.display_clients c → OnList p) client
            Stage.requesting w.stage (λ m. subst OnList at (as_is-listed client m))
            (λ c miss m. as_is-listed c m) in
        lock-Inv client Stage.requesting r w.screens w.broken (λ n. n)
          (λ c m. keeps c (
            subst (λ (clients : List ℕ). IsMember clients c)
              (sym (ap (λ (s : Server). s.display_clients) (perform_all-script r w.server))
                ∙ told-display_clients (IsMember w.server.display_clients) (script r w.server)
                    w.server told)
              m))
          (All-map _ _ (script r w.server)
            (λ a t.
              IsSentTo-map _ _ keeps a (IsTold-IsSentTo (IsMember w.server.display_clients) a t))
            told)
          (Steps.one_more as_is-reached (System.Step.request r (as_is w) (IsUpdate-IsAllowed r h)))
