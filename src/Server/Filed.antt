-- ===== src/Server/Filed.antt =====
-- How the orders are filed: each under its own id, in ascending order, with ids never given twice.
use mathlib.Core.Path.{subst, sym}
use restuarant_ordering_csf.Base.{
  ℕ, ℤ, pos, suc_ℤ, ◌<ℤ◌, ◌≤ℤ◌, int_eq, nat_eq, ◌≡◌, refl, List, [], ◌∷◌, map, All, arith, some,
}
use restuarant_ordering_csf.Except.{Result, ok, err}
use restuarant_ordering_csf.Model.{
  Item, Order, ItemStatus, set_order_id, set_item_status, update_first, update_item,
}
use restuarant_ordering_csf.OrderedMap.{OrderedMap}
use restuarant_ordering_csf.OrderedMap
use restuarant_ordering_csf.OrderedMap.Sorted.{
  IsSorted, insert-IsSorted, write-IsSorted, erase-IsSorted,
}
use restuarant_ordering_csf.OrderedMap.Entries.{
  Entries, Entries-insert, Entries-erase, Entries-write, Entries-find, Entries-map,
}
use restuarant_ordering_csf.Server.{
  Server, init, register_display, unregister_display, admit, process_new_order, set_item, deliver,
}
use restuarant_ordering_csf.Server.Effects.{
  register_display-effect, process_new_order-effect, settled, set_item-effect, deliver-effect,
}
use restuarant_ordering_csf.Server.Clients.{Distinct, insert_client-Distinct, erase_client-Distinct}
use restuarant_ordering_csf.Server.Updates.{process_item_update-found, process_order_update-found}
use restuarant_ordering_csf.Server.Requests.{Request, after, step, run}

-- What holds of an order under its key, below the next id.
pub record IsFiledOrder (next key : ℤ) (order : Order) : Type 0 where
  pub own_id : order.id ≡ key
  pub own_items : All (λ (item : Item). item.order_id ≡ key) order.items
  pub from_first : pos 1000 ≤ℤ key
  pub given : key <ℤ next

pub record IsFiled (s : Server) : Type 0 where
  pub sorted : IsSorted s.orders
  pub entries : Entries (IsFiledOrder s.next_order_id) s.orders
  pub next : pos 1000 ≤ℤ s.next_order_id
  pub clients : Distinct s.display_clients

pub init-IsFiled : IsFiled init
init-IsFiled = record { sorted = tt; entries = tt; next = omega arith; clients = tt }

below_suc : (a b : ℤ) → a <ℤ b → a <ℤ suc_ℤ b
below_suc a b h = ground arith

own_suc : (a : ℤ) → a <ℤ suc_ℤ a
own_suc a = ground arith

map-set_order_id :
    (id : ℤ) (items : List Item)
    → All (λ (item : Item). item.order_id ≡ id) (map (set_order_id id) items)
map-set_order_id id [] = tt
map-set_order_id id (item ∷ items) = (refl, map-set_order_id id items)

update_first-order_id :
    (key item_id : ℤ) (status : ItemStatus) (items : List Item)
    → All (λ (item : Item). item.order_id ≡ key) items
    → All
        (λ (item : Item). item.order_id ≡ key)
        (update_first items item_id (set_item_status status))
unfolding update_first
update_first-order_id key item_id status [] _ = tt
update_first-order_id key item_id status (item ∷ items) (h, hs) =
    ground (arith, update_first-order_id key item_id status items hs)

settled-IsFiledOrder :
    (next key item_id : ℤ) (status : ItemStatus) (order : Order)
    → IsFiledOrder next key order
    → IsFiledOrder next key (settled status (update_item order item_id (set_item_status status)))
unfolding settled
settled-IsFiledOrder next key item_id status order h = record {
  own_id = h.own_id;
  own_items = update_first-order_id key item_id status order.items h.own_items;
  from_first = h.from_first;
  given = h.given;
}

pub register_display-IsFiled :
    (client : ℕ) (s : Server) → IsFiled s → IsFiled (register_display client s)
register_display-IsFiled client s h = rw register_display-effect (record {
  sorted = h.sorted;
  entries = h.entries;
  next = h.next;
  clients = insert_client-Distinct client s.display_clients h.clients;
})

unregister_display-IsFiled :
    (client : ℕ) (s : Server) → IsFiled s → IsFiled (unregister_display client s)
unfolding unregister_display
unregister_display-IsFiled client s h = record {
  sorted = h.sorted;
  entries = h.entries;
  next = h.next;
  clients = erase_client-Distinct client s.display_clients h.clients;
}

admit-IsFiledOrder :
    (id : ℤ) (order : Order) → pos 1000 ≤ℤ id → IsFiledOrder (suc_ℤ id) id (admit id order)
unfolding admit
admit-IsFiledOrder id order h = record {
  own_id = refl;
  own_items = map-set_order_id id order.items;
  from_first = h;
  given = own_suc id;
}

pub process_new_order-IsFiled :
    (order : Order) (s : Server) → IsFiled s → IsFiled (process_new_order order s).1
process_new_order-IsFiled order s h =
    let id = s.next_order_id in
    let kept : Entries (IsFiledOrder (suc_ℤ id)) s.orders =
      Entries-map (IsFiledOrder id) (IsFiledOrder (suc_ℤ id)) s.orders
        (λ key other filed. record {
          own_id = filed.own_id;
          own_items = filed.own_items;
          from_first = filed.from_first;
          given = below_suc key id filed.given;
        })
        h.entries in
    rw process_new_order-effect (record {
      sorted = insert-IsSorted id (admit id order) s.orders h.sorted;
      entries =
          Entries-insert (IsFiledOrder (suc_ℤ id)) id (admit id order) s.orders
            (admit-IsFiledOrder id order h.next) kept;
      next = ground (arith, h.next);
      clients = h.clients;
    })

set_item-IsFiled :
    (order_id item_id : ℤ) (status : ItemStatus) (order : Order) (s : Server)
    → OrderedMap.find s.orders order_id ≡ some order
    → IsFiled s
    → IsFiled (set_item order_id item_id status order s)
set_item-IsFiled order_id item_id status order s found h = rw set_item-effect (record {
  sorted = write-IsSorted order_id _ s.orders h.sorted;
  entries =
      Entries-write (IsFiledOrder s.next_order_id) order_id _ s.orders
        (settled-IsFiledOrder s.next_order_id order_id item_id status order
          (Entries-find (IsFiledOrder s.next_order_id) order_id order s.orders h.entries found))
        h.entries;
  next = h.next;
  clients = h.clients;
})

deliver-IsFiled :
    (order_id : ℤ) (order : Order) (s : Server) → IsFiled s → IsFiled (deliver order_id order s)
deliver-IsFiled order_id order s h = rw deliver-effect (record {
  sorted = erase-IsSorted order_id s.orders h.sorted;
  entries = Entries-erase (IsFiledOrder s.next_order_id) order_id s.orders h.entries;
  next = h.next;
  clients = h.clients;
})

-- What holds of every result of a request that is accepted holds of the state after it.
pub after_induction :
    (P : Server → Type 0) (s : Server) (m : Result Server)
    → P s
    → ((t : Server) → m ≡ ok t → P t)
    → P (after s m)
after_induction P s (ok t) p f = f t refl
after_induction P s (err e) p f = p

pub step-IsFiled : (s : Server) (request : Request) → IsFiled s → IsFiled (step s request)
unfolding step
step-IsFiled s (Request.register client) h = register_display-IsFiled client s h
step-IsFiled s (Request.unregister client) h = unregister_display-IsFiled client s h
step-IsFiled s (Request.new_order order) h = process_new_order-IsFiled order s h
step-IsFiled s (Request.item_update order_id item_id status) h =
    after_induction IsFiled s _ h λ t e.
      let (found, same) = process_item_update-found order_id item_id status s t e in
      subst IsFiled (sym same)
        (set_item-IsFiled order_id item_id status found.order s found.has_order h)
step-IsFiled s (Request.order_update order_id status) h = after_induction IsFiled s _ h λ t e.
    let (found, same) = process_order_update-found order_id status s t e in
    subst IsFiled (sym same) (deliver-IsFiled order_id found.order s h)

-- Any run of requests, accepted or not, keeps the orders filed if they were: ascending keys, each
-- order and each of its items with its key as order id, all ids between 1000 and the next id, and
-- no display client twice.
pub run-IsFiled : (s : Server) (requests : List Request) → IsFiled s → IsFiled (run s requests)
unfolding run
run-IsFiled s [] h = h
run-IsFiled s (request ∷ requests) h =
    run-IsFiled (step s request) requests (step-IsFiled s request h)
