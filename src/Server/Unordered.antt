-- ===== src/Server/Unordered.antt =====
-- src/server.cpp: `m_display_clients` is an unordered set, and the model's list has an order. No
-- request shows it: with its clients in another order, the server does the same.
use mathlib.Core.Path.{fun_ext, subst}
use restuarant_ordering_csf.Base.{
  ℕ, ℤ, suc_ℤ, ◌≡◌, refl, sym, ap, ◌∙◌, List, [], ◌∷◌, some, arith, Bool-cases, Option-cases, inl,
  inr, ◌!=◌, ◌||◌, nat_eq,
}
use restuarant_ordering_csf.Model.{
  Order, ItemStatus, OrderStatus, order_status_eq, item_status_eq, find_item, update_item,
  set_item_status,
}
use restuarant_ordering_csf.Message.{Message, MessageType, order_message, order_status_message}
use restuarant_ordering_csf.OrderedMap
use restuarant_ordering_csf.Server.{
  Server, insert_client, erase_client, unregister_display, process_new_order, process_item_update,
  process_order_update, is_item_transition, admit, set_item, deliver,
}
use restuarant_ordering_csf.Server.Effects.{
  Queues, settled, item_notices, post, post_all, register_display-effect, process_new_order-effect,
  set_item-effect, deliver-effect,
}
use restuarant_ordering_csf.Server.Clients.{
  has_client, Distinct, has_client-insert, has_client-erase, insert_client-Distinct,
  erase_client-Distinct, post-member, post-other, post_all-member, post_all-other,
}
use restuarant_ordering_csf.Server.Requests.{Request, step, run}

-- Two lists for one set.
pub record SameClients (xs ys : List ℕ) : Type 0 where
  pub first_distinct : Distinct xs
  pub second_distinct : Distinct ys
  pub same : (client : ℕ) → has_client client xs ≡ has_client client ys

module _ (xs ys : List ℕ) (h : SameClients xs ys) where
  post-same : (msg : Message) (queues : Queues) → post xs msg queues ≡ post ys msg queues
  post-same msg queues = fun_ext (λ client. elim (Bool-cases (has_client client xs)) [
    | inl on ↦
        post-member client xs msg queues h.first_distinct on
        ∙ sym (post-member client ys msg queues h.second_distinct (sym (h.same client) ∙ on))
    | inr off ↦
        post-other client xs msg queues off
        ∙ sym (post-other client ys msg queues (sym (h.same client) ∙ off))
  ])

  post_all-same :
      (msgs : List Message) (queues : Queues) → post_all xs msgs queues ≡ post_all ys msgs queues
  post_all-same msgs queues = fun_ext (λ client. elim (Bool-cases (has_client client xs)) [
    | inl on ↦
        post_all-member client xs msgs queues h.first_distinct on
        ∙ sym (post_all-member client ys msgs queues h.second_distinct (sym (h.same client) ∙ on))
    | inr off ↦
        post_all-other client xs msgs queues off
        ∙ sym (post_all-other client ys msgs queues (sym (h.same client) ∙ off))
  ])

  insert_client-SameClients :
      (client : ℕ) → SameClients (insert_client client xs) (insert_client client ys)
  insert_client-SameClients client = record {
    first_distinct = insert_client-Distinct client xs h.first_distinct;
    second_distinct = insert_client-Distinct client ys h.second_distinct;
    same =
        λ c. ground (arith, h.same c, has_client-insert client xs c, has_client-insert client ys c);
  }

  erase_client-SameClients :
      (client : ℕ) → SameClients (erase_client client xs) (erase_client client ys)
  erase_client-SameClients client = record {
    first_distinct = erase_client-Distinct client xs h.first_distinct;
    second_distinct = erase_client-Distinct client ys h.second_distinct;
    same = λ c. ground (
      arith,
      h.same c,
      has_client-erase client xs c h.first_distinct,
      has_client-erase client ys c h.second_distinct,
    );
  }

-- The server with the list `ys` for its set of clients.
abbrev pub with_clients : List ℕ → Server → Server
with_clients ys s = record s { display_clients = ys }

-- What a request does to such a list.
abbrev pub clients_after : Request → List ℕ → List ℕ
clients_after (Request.register client) ys = insert_client client ys
clients_after (Request.unregister client) ys = erase_client client ys
clients_after _ ys = ys

module _ (s : Server) (ys : List ℕ) (h : SameClients s.display_clients ys) where
  set_item-with_clients :
      (order_id item_id : ℤ) (status : ItemStatus) (order : Order)
      → set_item order_id item_id status order (with_clients ys s)
        ≡ with_clients ys (set_item order_id item_id status order s)
  set_item-with_clients order_id item_id status order =
      let changed = update_item order item_id (set_item_status status) in
      set_item-effect order_id item_id status order (with_clients ys s)
      ∙ ap
          (λ (queues : Queues). record (with_clients ys s) {
            orders = OrderedMap.write order_id (settled status changed) s.orders;
            queues = queues;
          })
          (sym (
            post_all-same s.display_clients ys h (item_notices order_id item_id status changed)
              s.queues))
      ∙ sym (ap (with_clients ys) (set_item-effect order_id item_id status order s))

  deliver-with_clients :
      (order_id : ℤ) (order : Order)
      → deliver order_id order (with_clients ys s) ≡ with_clients ys (deliver order_id order s)
  deliver-with_clients order_id order =
      deliver-effect order_id order (with_clients ys s)
      ∙ ap
          (λ (queues : Queues). record (with_clients ys s) {
            orders = OrderedMap.erase order_id s.orders;
            queues = queues;
          })
          (sym (
            post-same s.display_clients ys h
              (order_status_message MessageType.disp_order_update order_id OrderStatus.delivered)
              s.queues))
      ∙ sym (ap (with_clients ys) (deliver-effect order_id order s))

  new_order-with_clients :
      (order : Order)
      → (process_new_order order (with_clients ys s)).1
        ≡ with_clients ys (process_new_order order s).1
  new_order-with_clients order =
      let id = s.next_order_id in
      ap (λ (made : ℤ × Server). made.1) (process_new_order-effect order (with_clients ys s))
      ∙ ap
          (λ (queues : Queues). record (with_clients ys s) {
            next_order_id = suc_ℤ id;
            orders = OrderedMap.insert id (admit id order) s.orders;
            queues = queues;
          })
          (sym (
            post-same s.display_clients ys h
              (order_message MessageType.disp_order (some (admit id order))) s.queues))
      ∙ sym (ap (λ (made : ℤ × Server). with_clients ys made.1) (process_new_order-effect order s))

  -- A request does to a server with another list for its clients what it does to the server.
  step-with_clients :
      (r : Request) → step (with_clients ys s) r ≡ with_clients (clients_after r ys) (step s r)
  unfolding step unregister_display process_item_update process_order_update
  step-with_clients (Request.register client) =
      register_display-effect client (with_clients ys s)
      ∙ sym (ap (with_clients (insert_client client ys)) (register_display-effect client s))
  step-with_clients (Request.unregister client) = refl
  step-with_clients (Request.new_order order) = new_order-with_clients order
  step-with_clients (Request.item_update order_id item_id status) =
      elim (Option-cases (OrderedMap.find s.orders order_id)) [
        | inl unknown ↦ ground (arith, unknown)
        | inr (order, known) ↦ elim (Option-cases (find_item order item_id)) [
          | inl no_item ↦ ground (arith, known, no_item)
          | inr (item, found) ↦ elim (Bool-cases (is_item_transition item.status status)) [
            | inl allowed ↦
                ground (
                  arith,
                  known,
                  found,
                  allowed,
                  set_item-with_clients order_id item_id status order,
                )
            | inr refused ↦ ground (arith, known, found, refused)
          ]
        ]
      ]
  step-with_clients (Request.order_update order_id status) =
      elim (Option-cases (OrderedMap.find s.orders order_id)) [
        | inl unknown ↦ ground (arith, unknown)
        | inr (order, known) ↦
            elim (Bool-cases
              ((order.status != OrderStatus.done) || (status != OrderStatus.delivered))) [
                | inl refused ↦ ground (arith, known, refused)
                | inr allowed ↦ ground (arith, known, allowed, deliver-with_clients order_id order)
              ]
      ]

step-display_clients :
    (s : Server) (r : Request)
    → Distinct s.display_clients
    → (step s r).display_clients ≡ clients_after r s.display_clients
step-display_clients s r distinct =
    ap (λ (t : Server). t.display_clients)
      (step-with_clients s s.display_clients
        (record { first_distinct = distinct; second_distinct = distinct; same = λ client. refl }) r)

clients_after-SameClients :
    (r : Request) (xs ys : List ℕ)
    → SameClients xs ys
    → SameClients (clients_after r xs) (clients_after r ys)
clients_after-SameClients (Request.register client) xs ys h =
    insert_client-SameClients xs ys h client
clients_after-SameClients (Request.unregister client) xs ys h =
    erase_client-SameClients xs ys h client
clients_after-SameClients (Request.new_order order) xs ys h = h
clients_after-SameClients (Request.item_update order_id item_id status) xs ys h = h
clients_after-SameClients (Request.order_update order_id status) xs ys h = h

-- Two servers that differ at most in the order of the clients.
pub record IsAlike (s t : Server) : Type 0 where
  pub orders : t.orders ≡ s.orders
  pub queues : t.queues ≡ s.queues
  pub next_order_id : t.next_order_id ≡ s.next_order_id
  pub clients : SameClients s.display_clients t.display_clients

-- For two lists of the same display clients, none of them twice, whatever requests follow: the
-- orders, the next id and the content of every queue come out the same, and the lists of clients
-- still have the same members.
pub run-IsAlike :
    (s : Server) (ys : List ℕ) (requests : List Request)
    → SameClients s.display_clients ys
    → IsAlike (run s requests) (run (with_clients ys s) requests)
unfolding run
run-IsAlike s ys [] h = record { orders = refl; queues = refl; next_order_id = refl; clients = h }
run-IsAlike s ys (r ∷ requests) h =
    subst (λ (t : Server). IsAlike (run (step s r) requests) (run t requests))
      (sym (step-with_clients s ys h r))
      (run-IsAlike (step s r) (clients_after r ys) requests (
        subst (λ (xs : List ℕ). SameClients xs (clients_after r ys))
          (sym (step-display_clients s r h.first_distinct))
          (clients_after-SameClients r s.display_clients ys h)))
