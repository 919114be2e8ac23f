-- ===== src/Model/Heap/Apart.antt =====
-- src/model.cpp: an order and its copy, each changed behind the other's back.
use mathlib.Core.Path.{subst}
use restuarant_ordering_csf.Base.{
  ℕ, ◌<◌, ◌≤◌, ℤ, ◌≡◌, ◌≢◌, refl, sym, ap, ◌∙◌, List, [], ◌∷◌, map, All, All-map, arith,
}
use restuarant_ordering_csf.Model.{Item, Order, update_item}
use restuarant_ordering_csf.Model.Heap.{
  Heap, OrderObject, view, push_copies, duplicate_object, change_item,
}
use restuarant_ordering_csf.Model.Heap.Copies.{
  IsOwned, run_from, push_copies-pointers, push_copies-old, push_copies-next, push_copies-run,
  push_copies-items, run_from-above, run_from-AllApart, view-change_item, view-change_item_apart,
}

map-same :
    (f g : ℕ → Item) (pointers : List ℕ)
    → All (λ p. f p ≡ g p) pointers
    → map f pointers ≡ map g pointers
map-same f g [] _ = refl
map-same f g (p ∷ pointers) (e, es) = λ i. e i ∷ map-same f g pointers es i

module _ (h : Heap) (o : OrderObject) (owned : IsOwned h o) where
  abbrev after : Heap
  after = (push_copies [] o.pointers h).1

  abbrev copy : List ℕ → OrderObject
  copy pointers = record { id = o.id; status = o.status; pointers = pointers }

  abbrev fresh : List ℕ
  fresh = run_from h.next o.pointers

  made-copy : duplicate_object o h ≡ (copy fresh, after)
  unfolding duplicate_object
  made-copy =
      ap (λ (pointers : List ℕ). (copy pointers, after)) (push_copies-pointers [] o.pointers h)

  fresh-IsOwned : IsOwned after (copy fresh)
  fresh-IsOwned = record {
    made = push_copies-run [] o.pointers h;
    apart = run_from-AllApart h.next o.pointers;
  }

  old-IsOwned : IsOwned after o
  old-IsOwned = record {
    made =
        All-map _ _ o.pointers
          (λ p (old : p < h.next). omega (arith, old, push_copies-next [] o.pointers h)) owned.made;
    apart = owned.apart;
  }

  fresh-view : view after (copy fresh) ≡ view h o
  fresh-view = λ i. record {
    id = o.id;
    status = o.status;
    items = push_copies-items [] o.pointers h owned.made i;
  }

  old-view : view after o ≡ view h o
  old-view = λ i. record {
    id = o.id;
    status = o.status;
    items =
        map-same after.item_at h.item_at o.pointers
          (All-map _ _ o.pointers (λ p (old : p < h.next). push_copies-old [] o.pointers h p old)
            owned.made)
          i;
  }

  fresh_apart : All (λ p. All (λ q. p ≢ q) fresh) o.pointers
  fresh_apart =
      All-map _ _ o.pointers
        (λ p (old : p < h.next).
          All-map (λ q. h.next ≤ q) (λ q. p ≢ q) fresh
            (λ q (above : h.next ≤ q) (e : p ≡ q). absurd (omega (arith, old, above, e)))
            (run_from-above h.next h.next o.pointers (omega arith)))
        owned.made

  old_apart : All (λ p. All (λ q. p ≢ q) o.pointers) fresh
  old_apart =
      All-map _ _ fresh
        (λ p (above : h.next ≤ p).
          All-map (λ q. q < h.next) (λ q. p ≢ q) o.pointers
            (λ q (old : q < h.next) (e : p ≡ q). absurd (omega (arith, old, above, e))) owned.made)
        (run_from-above h.next h.next o.pointers (omega arith))

-- What a copy and its original are after a change of one of them.
pub record AreIndependent (o : OrderObject) (order changed : Order)
    (change : OrderObject → Heap → Heap) (made : OrderObject × Heap) : Type 0 where
  pub copied : view made.1 made.0 ≡ order
  pub copy_stays : view (change o made.1) made.0 ≡ order
  pub original_changes : view (change o made.1) o ≡ changed
  pub original_stays : view (change made.0 made.1) o ≡ order
  pub copy_changes : view (change made.0 made.1) made.0 ≡ changed

-- The copy of an order whose pointers lead to items of its own is equal to it and independent of it:
-- a change of an item of the original, found by its id, is not seen in the copy, nor the other way
-- round, and each change is the one that the model without pointers makes.
pub duplicate_object-AreIndependent :
    (h : Heap) (o : OrderObject) (item_id : ℤ) (f : Item → Item)
    → IsOwned h o
    → AreIndependent o
        (view h o)
        (update_item (view h o) item_id f)
        (λ x. change_item x item_id f)
        (duplicate_object o h)
duplicate_object-AreIndependent h o item_id f owned =
    let c = copy h o owned (fresh h o owned) in
    let later_heap = after h o owned in
    subst
      (AreIndependent o (view h o) (update_item (view h o) item_id f)
        (λ x. change_item x item_id f))
      (sym (made-copy h o owned))
      (record {
        copied = fresh-view h o owned;
        copy_stays =
            view-change_item_apart item_id f later_heap o c (fresh_apart h o owned)
            ∙ fresh-view h o owned;
        original_changes =
            view-change_item item_id f later_heap o (old-IsOwned h o owned)
            ∙ ap (λ (x : Order). update_item x item_id f) (old-view h o owned);
        original_stays =
            view-change_item_apart item_id f later_heap c o (old_apart h o owned)
            ∙ old-view h o owned;
        copy_changes =
            view-change_item item_id f later_heap c (fresh-IsOwned h o owned)
            ∙ ap (λ (x : Order). update_item x item_id f) (fresh-view h o owned);
      })
