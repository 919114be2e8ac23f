-- ===== src/Model/Heap/Copies.antt =====
-- src/model.cpp: a copy of an order shares no item with it, so a change of the one is not seen in the
-- other, and the pointers need not be modelled.
use mathlib.Core.Path.{subst}
use restuarant_ordering_csf.Base.{
  ℕ, suc, ◌<◌, ◌≤◌, ℤ, int_eq, nat_eq, ◌==◌, ◌≡◌, ◌≢◌, refl, sym, ap, ◌∙◌, List, [], ◌∷◌, ◌++◌,
  append_assoc, append-nil, map, none, some, All, All-map, arith, eq_refl, Bool-cases, Option-cases,
  inl, inr,
}
use restuarant_ordering_csf.Model.{Item, update_first, update_item}
use restuarant_ordering_csf.Model.Heap.{
  Heap, OrderObject, view, write, make_item, push_copies, find_pointer, change_item,
}

-- The pointers of an object lead to objects that were made, and no two of them to the same.
abbrev pub AllApart : List ℕ → Type 0
AllApart [] = Unit
AllApart (p ∷ pointers) = All (λ q. p ≢ q) pointers × AllApart pointers

pub record IsOwned (h : Heap) (o : OrderObject) : Type 0 where
  pub made : All (λ p. p < h.next) o.pointers
  pub apart : AllApart o.pointers

write-other :
    (pointer : ℕ) (item : Item) (h : Heap) (pointers : List ℕ)
    → All (λ q. pointer ≢ q) pointers
    → map (write pointer item h).item_at pointers ≡ map h.item_at pointers
write-other pointer item h [] _ = refl
write-other pointer item h (q ∷ pointers) (other, others) =
    rw (write-other pointer item h pointers others) (
      ap (λ (x : Item). x ∷ map h.item_at pointers)
        (ground (arith, other, nat_eq.beq_iff pointer q)))

-- The copies stand behind all objects that were there, one after the other.
abbrev pub run_from : ℕ → List ℕ → List ℕ
run_from n [] = []
run_from n (p ∷ pointers) = n ∷ run_from (suc n) pointers

pub push_copies-pointers :
    (out pointers : List ℕ) (h : Heap)
    → (push_copies out pointers h).0 ≡ out ++ run_from h.next pointers
unfolding push_copies
push_copies-pointers out [] h = sym (append-nil out)
push_copies-pointers out (p ∷ pointers) h =
    push_copies-pointers (out ++ h.next ∷ []) pointers _
    ∙ append_assoc out (h.next ∷ []) (run_from (suc h.next) pointers)

pub push_copies-old :
    (out pointers : List ℕ) (h : Heap) (q : ℕ)
    → q < h.next
    → (push_copies out pointers h).1.item_at q ≡ h.item_at q
unfolding push_copies
push_copies-old out [] h q old = refl
push_copies-old out (p ∷ pointers) h q old =
    push_copies-old (out ++ h.next ∷ []) pointers (make_item (h.item_at p) h) q (omega (arith, old))
    ∙ ground (arith, old, nat_eq.beq_iff h.next q)

pub push_copies-next :
    (out pointers : List ℕ) (h : Heap) → h.next ≤ (push_copies out pointers h).1.next
unfolding push_copies
push_copies-next out [] h = omega arith
push_copies-next out (p ∷ pointers) h =
    omega (arith, push_copies-next (out ++ h.next ∷ []) pointers (make_item (h.item_at p) h))

pub push_copies-run :
    (out pointers : List ℕ) (h : Heap)
    → All (λ q. q < (push_copies out pointers h).1.next) (run_from h.next pointers)
unfolding push_copies
push_copies-run out [] h = tt
push_copies-run out (p ∷ pointers) h = (
  omega (arith, push_copies-next (out ++ h.next ∷ []) pointers (make_item (h.item_at p) h)),
  push_copies-run (out ++ h.next ∷ []) pointers (make_item (h.item_at p) h),
)

pub push_copies-items :
    (out pointers : List ℕ) (h : Heap)
    → All (λ p. p < h.next) pointers
    → map (push_copies out pointers h).1.item_at (run_from h.next pointers) ≡ map h.item_at pointers
unfolding push_copies
push_copies-items out [] h _ = refl
push_copies-items out (p ∷ pointers) h (old, olds) =
    let made = make_item (h.item_at p) h in
    let head : (push_copies (out ++ h.next ∷ []) pointers made).1.item_at h.next ≡ h.item_at p =
      push_copies-old (out ++ h.next ∷ []) pointers made h.next (omega arith)
      ∙ ground (arith, nat_eq.beq_iff h.next h.next) in
    let tail =
      push_copies-items (out ++ h.next ∷ []) pointers made
        (All-map _ _ pointers (λ q (old_q : q < h.next). omega (arith, old_q)) olds)
      ∙ write-other h.next (h.item_at p) h pointers (
          All-map _ _ pointers
            (λ q (old_q : q < h.next) (e : h.next ≡ q). absurd (omega (arith, old_q, e))) olds) in
    λ i. head i ∷ tail i

pub run_from-above : (n k : ℕ) (pointers : List ℕ) → k ≤ n → All (λ q. k ≤ q) (run_from n pointers)
run_from-above n k [] h = tt
run_from-above n k (p ∷ pointers) h = (h, run_from-above (suc n) k pointers (omega (arith, h)))

pub run_from-AllApart : (n : ℕ) (pointers : List ℕ) → AllApart (run_from n pointers)
run_from-AllApart n [] = tt
run_from-AllApart n (p ∷ pointers) = (
  All-map _ _ (run_from (suc n) pointers)
      (λ q (above : suc n ≤ q) (e : n ≡ q). absurd (omega (arith, above, e)))
      (run_from-above (suc n) (suc n) pointers (omega arith)),
  run_from-AllApart (suc n) pointers,
)

-- A change through the pointer that `find_item` returns is the change of the first such item.
module _ (item_id : ℤ) (f : Item → Item) where
  pointer_there :
      (P : ℕ → Type 0) (h : Heap) (pointers : List ℕ) (p : ℕ)
      → find_pointer h pointers item_id ≡ some p
      → All P pointers
      → P p
  unfolding find_pointer
  pointer_there P h [] p e all = absurd (cc)
  pointer_there P h (q ∷ pointers) p e (here, all) =
      elim (Bool-cases ((h.item_at q).id == item_id)) [
        | inl hit ↦ subst P (ground (arith, e, hit)) here
        | inr miss ↦ pointer_there P h pointers p (ground (arith, e, miss)) all
      ]

  found_pointer :
      (h : Heap) (pointers : List ℕ) (p : ℕ)
      → find_pointer h pointers item_id ≡ some p
      → AllApart pointers
      → map (write p (f (h.item_at p)) h).item_at pointers
        ≡ update_first (map h.item_at pointers) item_id f
  unfolding find_pointer update_first
  found_pointer h [] p e apart = absurd (cc)
  found_pointer h (q ∷ pointers) p e (first, apart) =
      elim (Bool-cases ((h.item_at q).id == item_id)) [
        | inl hit ↦
            let here : q ≡ p = ground (arith, e, hit) in
            subst
              (λ (r : ℕ).
                map (write r (f (h.item_at r)) h).item_at (q ∷ pointers)
                ≡ update_first (map h.item_at (q ∷ pointers)) item_id f)
              here (rw (hit, eq_refl q, write-other q (f (h.item_at q)) h pointers first) refl)
        | inr miss ↦
            let behind : find_pointer h pointers item_id ≡ some p = ground (arith, e, miss) in
            let other : q ≢ p = pointer_there (λ r. q ≢ r) h pointers p behind first in
            let head : (write p (f (h.item_at p)) h).item_at q ≡ h.item_at q =
              ground (arith, other, nat_eq.beq_iff p q) in
            let tail = found_pointer h pointers p behind apart in rw miss (λ i. head i ∷ tail i)
      ]

  no_pointer :
      (h : Heap) (pointers : List ℕ)
      → find_pointer h pointers item_id ≡ none
      → update_first (map h.item_at pointers) item_id f ≡ map h.item_at pointers
  unfolding find_pointer update_first
  no_pointer h [] e = refl
  no_pointer h (q ∷ pointers) e = ground (arith, e, no_pointer h pointers)

  -- The model of an order without pointers is changed in the same way,
  pub view-change_item :
      (h : Heap) (o : OrderObject)
      → IsOwned h o
      → view (change_item o item_id f h) o ≡ update_item (view h o) item_id f
  unfolding change_item
  view-change_item h o owned = elim (Option-cases (find_pointer h o.pointers item_id)) [
    | inl missing ↦ rw (missing) (λ i. record {
      id = o.id;
      status = o.status;
      items = sym (no_pointer h o.pointers missing) i;
    })
    | inr (p, found) ↦ rw (found) (λ i. record {
      id = o.id;
      status = o.status;
      items = found_pointer h o.pointers p found owned.apart i;
    })
  ]

  -- and an object that has none of its pointers stays as it is.
  pub view-change_item_apart :
      (h : Heap) (o other : OrderObject)
      → All (λ p. All (λ q. p ≢ q) other.pointers) o.pointers
      → view (change_item o item_id f h) other ≡ view h other
  unfolding change_item
  view-change_item_apart h o other apart = elim (Option-cases (find_pointer h o.pointers item_id)) [
    | inl missing ↦ rw (missing) refl
    | inr (p, found) ↦ rw (found) (λ i. record {
      id = other.id;
      status = other.status;
      items =
          write-other p (f (h.item_at p)) h other.pointers
            (pointer_there (λ r. All (λ q. r ≢ q) other.pointers) h o.pointers p found apart) i;
    })
  ]
