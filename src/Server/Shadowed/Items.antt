-- ===== src/Server/Shadowed/Items.antt =====
-- src/model.cpp: items behind an item of the same id, which `find_item` does not reach.

use restuarant_ordering_csf.Base.{
  ℤ, int_eq, ◌==◌, false, ◌≡◌, ◌≢◌, ◌⊎◌, sym, ◌∙◌, List, [], ◌∷◌, map, arith, Bool-cases, inl, inr,
  eq_sound,
}
use restuarant_ordering_csf.Model.{
  Item, ItemStatus, item_status_eq, order_status_eq, set_order_id, set_item_status, update_first,
}
use restuarant_ordering_csf.Server.{all_done}

-- An item of the list has the id and is not DONE.
abbrev pub Waits : ℤ → List Item → Type 0
Waits id [] = ⊥
Waits id (x ∷ items) = ((x.id ≡ id) × (x.status ≢ ItemStatus.done)) ⊎ Waits id items

-- An item that is not DONE has the id of an item in front of it.
abbrev pub Shadowed : List Item → Type 0
Shadowed [] = ⊥
Shadowed (x ∷ items) = Waits x.id items ⊎ Shadowed items

Waits-update_first :
    (id item_id : ℤ) (status : ItemStatus) (items : List Item)
    → id ≢ item_id
    → Waits id items
    → Waits id (update_first items item_id (set_item_status status))
unfolding update_first
Waits-update_first id item_id status [] other h = h
Waits-update_first id item_id status (x ∷ items) other h = elim (Bool-cases (x.id == item_id)) [
  | inl hit ↦ rw hit (elim h [
    | inl (same, waits) ↦ absurd (other (sym same ∙ eq_sound x.id item_id hit))
    | inr behind ↦ inr behind
  ])
  | inr miss ↦ rw miss (elim h [
    | inl here ↦ inl here
    | inr behind ↦ inr (Waits-update_first id item_id status items other behind)
  ])
]

pub Shadowed-update_first :
    (item_id : ℤ) (status : ItemStatus) (items : List Item)
    → Shadowed items
    → Shadowed (update_first items item_id (set_item_status status))
unfolding update_first
Shadowed-update_first item_id status [] h = h
Shadowed-update_first item_id status (x ∷ items) h = elim (Bool-cases (x.id == item_id)) [
  | inl hit ↦ rw hit h
  | inr miss ↦ rw miss (elim h [
    | inl waits ↦ inl (
        Waits-update_first x.id item_id status items
          (λ e. ground (arith, miss, int_eq.beq_iff x.id item_id, e)) waits)
    | inr behind ↦ inr (Shadowed-update_first item_id status items behind)
  ])
]

all_done-Waits : (id : ℤ) (items : List Item) → Waits id items → all_done items ≡ false
unfolding all_done
all_done-Waits id [] h = elim h [ ]
all_done-Waits id (x ∷ items) (inl (same, waits)) =
    ground (arith, waits, item_status_eq.beq_iff x.status ItemStatus.done)
all_done-Waits id (x ∷ items) (inr behind) = ground (arith, all_done-Waits id items behind)

pub all_done-Shadowed : (items : List Item) → Shadowed items → all_done items ≡ false
unfolding all_done
all_done-Shadowed [] h = elim h [ ]
all_done-Shadowed (x ∷ items) (inl waits) = ground (arith, all_done-Waits x.id items waits)
all_done-Shadowed (x ∷ items) (inr behind) = ground (arith, all_done-Shadowed items behind)

Waits-admit :
    (order_id id : ℤ) (items : List Item)
    → Waits id items
    → Waits id (map (set_order_id order_id) items)
Waits-admit order_id id [] h = h
Waits-admit order_id id (x ∷ items) (inl here) = inl here
Waits-admit order_id id (x ∷ items) (inr behind) = inr (Waits-admit order_id id items behind)

pub Shadowed-admit :
    (order_id : ℤ) (items : List Item)
    → Shadowed items
    → Shadowed (map (set_order_id order_id) items)
Shadowed-admit order_id [] h = h
Shadowed-admit order_id (x ∷ items) (inl waits) = inl (Waits-admit order_id x.id items waits)
Shadowed-admit order_id (x ∷ items) (inr behind) = inr (Shadowed-admit order_id items behind)
