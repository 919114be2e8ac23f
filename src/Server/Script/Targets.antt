-- ===== src/Server/Script/Targets.antt =====
-- Whom a function of the server sends messages to, and which of them write the set of clients.
use mathlib.Core.Path.{subst}
use restuarant_ordering_csf.Base.{
  ℕ, ℤ, true, ◌&&◌, nat_eq, ◌==◌, ◌!=◌, ◌||◌, ◌≡◌, refl, sym, ◌⊎◌, List, [], ◌∷◌, Bool-cases,
  Option-cases, inl, inr, arith, All, All-append, All-map,
}
use restuarant_ordering_csf.Model.{
  Order, ItemStatus, OrderStatus, item_status_eq, order_status_eq, set_item_status, find_item,
  update_item,
}
use restuarant_ordering_csf.Message.{Message}
use restuarant_ordering_csf.OrderedMap.{OrderedMap}
use restuarant_ordering_csf.OrderedMap
use restuarant_ordering_csf.Server.{Server, is_item_transition, all_done}
use restuarant_ordering_csf.Server.Clients.{has_client}
use restuarant_ordering_csf.Server.Requests.{Request}
use restuarant_ordering_csf.Server.Script.{
  Act, perform, perform_all, broadcast_acts, snapshot_acts, transition_acts, item_acts,
  delivery_acts, script,
}

-- What is sent goes to clients with a property.
abbrev pub IsSentTo : (ℕ → Type 0) → Act → Type 0
IsSentTo P (Act.send client msg) = P client
IsSentTo P _ = Unit

-- As above, and the set of the clients is not written.
abbrev pub IsTold : (ℕ → Type 0) → Act → Type 0
IsTold P (Act.send client msg) = P client
IsTold P (Act.write_clients clients) = ⊥
IsTold P _ = Unit

pub IsTold-IsSentTo : (P : ℕ → Type 0) (a : Act) → IsTold P a → IsSentTo P a
IsTold-IsSentTo P (Act.send client msg) h = h
IsTold-IsSentTo P (Act.write_orders orders) h = tt
IsTold-IsSentTo P (Act.write_clients clients) h = elim h [ ]
IsTold-IsSentTo P (Act.write_next_id id) h = tt

pub IsSentTo-map :
    (P Q : ℕ → Type 0)
    → ((client : ℕ) → P client → Q client)
    → (a : Act) → IsSentTo P a
    → IsSentTo Q a
IsSentTo-map P Q f (Act.send client msg) h = f client h
IsSentTo-map P Q f (Act.write_orders orders) h = tt
IsSentTo-map P Q f (Act.write_clients clients) h = tt
IsSentTo-map P Q f (Act.write_next_id id) h = tt

pub told-display_clients :
    (P : ℕ → Type 0) (acts : List Act) (s : Server)
    → All (IsTold P) acts
    → (perform_all acts s).display_clients ≡ s.display_clients
unfolding perform_all perform restuarant_ordering_csf.Server.enqueue
told-display_clients P [] s h = refl
told-display_clients P (Act.send client msg ∷ acts) s (h, hs) = told-display_clients P acts _ hs
told-display_clients P (Act.write_orders orders ∷ acts) s (h, hs) = told-display_clients P acts _ hs
told-display_clients P (Act.write_clients clients ∷ acts) s (h, hs) = elim h [ ]
told-display_clients P (Act.write_next_id id ∷ acts) s (h, hs) = told-display_clients P acts _ hs

snapshot_acts-IsTold :
    (client : ℕ) (orders : OrderedMap Order)
    → All (IsTold (λ other. client ≡ other)) (snapshot_acts client orders)
unfolding snapshot_acts
snapshot_acts-IsTold client [] = tt
snapshot_acts-IsTold client ((id, order) ∷ orders) = (refl, snapshot_acts-IsTold client orders)

pub register-IsSentTo :
    (client : ℕ) (s : Server)
    → All (IsSentTo (λ other. client ≡ other)) (script (Request.register client) s)
unfolding script
register-IsSentTo client s = (
  tt,
  All-map _ _ (snapshot_acts client s.orders) (IsTold-IsSentTo (λ other. client ≡ other))
      (snapshot_acts-IsTold client s.orders),
)

abbrev pub IsMember : List ℕ → ℕ → Type 0
IsMember clients client = has_client client clients ≡ true

IsMember-behind :
    (x : ℕ) (clients : List ℕ) (client : ℕ)
    → IsMember clients client
    → IsMember (x ∷ clients) client
IsMember-behind x clients client h = ground (arith, h)

IsMember-head : (x : ℕ) (clients : List ℕ) → IsMember (x ∷ clients) x
IsMember-head x clients = ground (arith, nat_eq.beq_iff x x)

broadcast_acts-IsTold :
    (P : ℕ → Type 0) (clients : List ℕ) (msg : Message)
    → ((client : ℕ) → IsMember clients client → P client)
    → All (IsTold P) (broadcast_acts clients msg)
unfolding broadcast_acts
broadcast_acts-IsTold P [] msg f = tt
broadcast_acts-IsTold P (x ∷ clients) msg f = (
  f x (IsMember-head x clients),
  broadcast_acts-IsTold P clients msg (λ client h. f client (IsMember-behind x clients client h)),
)

module _ (s : Server) where
  abbrev pub Told : List Act → Type 0
  Told acts = All (IsTold (IsMember s.display_clients)) acts

  broadcast-Told : (msg : Message) → Told (broadcast_acts s.display_clients msg)
  broadcast-Told msg =
      broadcast_acts-IsTold (IsMember s.display_clients) s.display_clients msg (λ client h. h)

  transition-Told :
      (order_id : ℤ) (item_status : ItemStatus) (order : Order) (orders : OrderedMap Order)
      → Told (transition_acts order_id item_status order orders s.display_clients)
  unfolding transition_acts
  transition-Told order_id item_status order orders =
      elim (Bool-cases
        ((item_status == ItemStatus.in_progress) && (order.status == OrderStatus.new))) [
          | inl first ↦ rw first (tt, broadcast-Told _)
          | inr not_first ↦
              elim (Bool-cases
                ((item_status == ItemStatus.done) && (order.status == OrderStatus.in_progress))) [
                  | inl last ↦ elim (Bool-cases (all_done order.items)) [
                    | inl all ↦ rw (not_first, last, all) (tt, broadcast-Told _)
                    | inr some_left ↦ rw (not_first, last, some_left) tt
                  ]
                  | inr not_last ↦ rw (not_first, not_last) tt
                ]
        ]

  item_acts-Told :
      (order_id item_id : ℤ) (item_status : ItemStatus) (order : Order)
      → Told (item_acts order_id item_id item_status order s)
  unfolding item_acts
  item_acts-Told order_id item_id item_status order =
      let changed = update_item order item_id (set_item_status item_status) in
      let orders = OrderedMap.write order_id changed s.orders in
      (
        tt,
        All-append _ (broadcast_acts s.display_clients _)
            (transition_acts order_id item_status changed orders s.display_clients)
            (broadcast-Told _) (transition-Told order_id item_status changed orders),
      )

  delivery_acts-Told : (order_id : ℤ) (order : Order) → Told (delivery_acts order_id order s)
  unfolding delivery_acts
  delivery_acts-Told order_id order =
      (tt, All-append _ (broadcast_acts s.display_clients _) _ (broadcast-Told _) (tt, tt))

  pub new_order-Told : (order : Order) → Told (script (Request.new_order order) s)
  unfolding script
  new_order-Told order = (tt, (tt, broadcast-Told _))

  item_update-acts :
      (order_id item_id : ℤ) (item_status : ItemStatus)
      → let acts = script (Request.item_update order_id item_id item_status) s in
        (acts ≡ []) ⊎ ((order : Order) × (acts ≡ item_acts order_id item_id item_status order s))
  unfolding script
  item_update-acts order_id item_id item_status =
      elim (Option-cases (OrderedMap.find s.orders order_id)) [
        | inl unknown ↦ inl (ground (arith, unknown))
        | inr (order, known) ↦ elim (Option-cases (find_item order item_id)) [
          | inl no_item ↦ inl (ground (arith, known, no_item))
          | inr (item, found) ↦ elim (Bool-cases (is_item_transition item.status item_status)) [
            | inl allowed ↦ inr (order, ground (arith, known, found, allowed))
            | inr refused ↦ inl (ground (arith, known, found, refused))
          ]
        ]
      ]

  order_update-acts :
      (order_id : ℤ) (order_status : OrderStatus)
      → let acts = script (Request.order_update order_id order_status) s in
        (acts ≡ []) ⊎ ((order : Order) × (acts ≡ delivery_acts order_id order s))
  unfolding script
  order_update-acts order_id order_status =
      elim (Option-cases (OrderedMap.find s.orders order_id)) [
        | inl unknown ↦ inl (ground (arith, unknown))
        | inr (order, known) ↦
            elim (Bool-cases
              ((order.status != OrderStatus.done) || (order_status != OrderStatus.delivered))) [
                | inl refused ↦ inl (ground (arith, known, refused))
                | inr allowed ↦ inr (order, ground (arith, known, allowed))
              ]
      ]

  pub item_update-Told :
      (order_id item_id : ℤ) (item_status : ItemStatus)
      → Told (script (Request.item_update order_id item_id item_status) s)
  item_update-Told order_id item_id item_status =
      elim (item_update-acts order_id item_id item_status) [
        | inl none_left ↦ subst Told (sym none_left) tt
        | inr (order, acts) ↦
            subst Told (sym acts) (item_acts-Told order_id item_id item_status order)
      ]

  pub order_update-Told :
      (order_id : ℤ) (order_status : OrderStatus)
      → Told (script (Request.order_update order_id order_status) s)
  order_update-Told order_id order_status = elim (order_update-acts order_id order_status) [
    | inl none_left ↦ subst Told (sym none_left) tt
    | inr (order, acts) ↦ subst Told (sym acts) (delivery_acts-Told order_id order)
  ]
