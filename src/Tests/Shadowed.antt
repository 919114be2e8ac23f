-- ===== src/Tests/Shadowed.antt =====
-- An order with two items of one id.
use restuarant_ordering_csf.Base.{pos, false, ◌≡◌, ◌≢◌, refl, [], ◌∷◌, some, inl}
use restuarant_ordering_csf.Model.{Order, ItemStatus, OrderStatus}
use restuarant_ordering_csf.OrderedMap
use restuarant_ordering_csf.Server.{init, process_new_order, all_done}
use restuarant_ordering_csf.Server.Filed.{init-IsFiled}
use restuarant_ordering_csf.Server.Requests.{Request, run}
use restuarant_ordering_csf.Server.Shadowed.{Shadowed-never_done}
use restuarant_ordering_csf.Tests.Data.{lunch, fries}

abbrev twice : Order
twice = record lunch { items = fries ∷ fries ∷ [] }

Shadowed-never_done_example :
    (kept : Order) × (OrderedMap.find
        (run (process_new_order twice init).1 (
          Request.item_update (pos 1000) (pos 7) ItemStatus.in_progress
          ∷ Request.item_update (pos 1000) (pos 7) ItemStatus.done
          ∷ [])).orders
        (pos 1000)
      ≡ some kept)
    × (kept.status ≢ OrderStatus.done)
    × (all_done kept.items ≡ false)
Shadowed-never_done_example =
    Shadowed-never_done init twice
      (Request.item_update (pos 1000) (pos 7) ItemStatus.in_progress
        ∷ Request.item_update (pos 1000) (pos 7) ItemStatus.done
        ∷ [])
      init-IsFiled (inl (inl (refl, λ e. cc)))
