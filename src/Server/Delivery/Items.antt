-- ===== src/Server/Delivery/Items.antt =====
-- The items of an order are cooked one after the other: its front is DONE, its back still NEW.
use mathlib.Core.Path.{subst}
use restuarant_ordering_csf.Base.{
  ℤ, int_eq, true, ◌≡◌, ◌≢◌, refl, sym, ap, ◌∙◌, List, [], ◌∷◌, ◌++◌, append_assoc, append-nil,
  some, All, All-append, arith, eq_refl, eq_of_ne,
}
use restuarant_ordering_csf.Model.{
  Item, Order, ItemStatus, OrderStatus, item_status_eq, set_item_status, first_item, find_item,
  update_first, update_item,
}
use restuarant_ordering_csf.OrderedMap
use restuarant_ordering_csf.Server.{Server, is_item_transition, all_done}
use restuarant_ordering_csf.Server.Effects.{settled, set_item-effect}
use restuarant_ordering_csf.Server.Lifecycle.{all_new, status_of, IsCoherent, settled-IsCoherent}
use restuarant_ordering_csf.Server.Updates.{ItemFound, process_item_update-accepted}
use restuarant_ordering_csf.Server.Requests.{Request, after, step, run, run-append}

-- No item of the list has the id.
abbrev pub Apart : ℤ → List Item → Type 0
Apart item_id = All (λ (item : Item). item.id ≢ item_id)

abbrev pub DistinctIds : List Item → Type 0
DistinctIds [] = Unit
DistinctIds (x ∷ items) = Apart x.id items × DistinctIds items

first_item-append :
    (front : List Item) (x : Item) (back : List Item)
    → Apart x.id front
    → first_item (front ++ x ∷ back) x.id ≡ some x
unfolding first_item
first_item-append [] x back _ = rw (eq_refl x.id) refl
first_item-append (y ∷ front) x back (ne, apart) =
    rw (eq_of_ne y.id x.id ne) (first_item-append front x back apart)

update_first-append :
    (front : List Item) (x : Item) (back : List Item) (f : Item → Item)
    → Apart x.id front
    → update_first (front ++ x ∷ back) x.id f ≡ front ++ f x ∷ back
unfolding update_first
update_first-append [] x back f _ = rw (eq_refl x.id) refl
update_first-append (y ∷ front) x back f (ne, apart) =
    rw (eq_of_ne y.id x.id ne) (ap (λ items. y ∷ items) (update_first-append front x back f apart))

append-ne-nil : (front : List Item) (x : Item) (back : List Item) → front ++ x ∷ back ≢ []
append-ne-nil [] x back = λ e. cc
append-ne-nil (y ∷ front) x back = λ e. cc

-- An order of the server with its items in two parts.
pub record Cooking (s : Server) (id : ℤ) (front back : List Item) : Type 0 where
  pub order : Order
  pub kept : OrderedMap.find s.orders id ≡ some order
  pub parted : order.items ≡ front ++ back
  pub some_item : order.items ≢ []
  pub coherent : IsCoherent order

accepted_item :
    (s : Server) (id : ℤ) (order : Order) (item : Item) (status : ItemStatus)
    → OrderedMap.find s.orders id ≡ some order
    → find_item order item.id ≡ some item
    → is_item_transition item.status status ≡ true
    → OrderedMap.find (step s (Request.item_update id item.id status)).orders id
      ≡ some (settled status (update_item order item.id (set_item_status status)))
unfolding step
accepted_item s id order item status has_order has_item forward =
    let found : ItemFound s id item.id status = record {
      order = order;
      item = item;
      has_order = has_order;
      has_item = has_item;
      forward = forward;
    } in
    ap (λ m. OrderedMap.find (after s m).orders id)
      (process_item_update-accepted id item.id status s found)
    ∙ ap (λ (t : Server). OrderedMap.find t.orders id) (set_item-effect id item.id status order s)
    ∙ OrderedMap.find-write id (settled status (update_item order item.id (set_item_status status)))
        s.orders id
    ∙ rw (eq_refl id, has_order) refl

moved :
    (s : Server) (id : ℤ) (front back : List Item) (x : Item) (status : ItemStatus)
    → Cooking s id front (x ∷ back)
    → Apart x.id front
    → is_item_transition x.status status ≡ true
    → Cooking
        (step s (Request.item_update id x.id status))
        id
        front
        (set_item_status status x ∷ back)
unfolding settled find_item
moved s id front back x status c apart forward =
    let has_item : first_item c.order.items x.id ≡ some x =
      ap (λ items. first_item items x.id) c.parted ∙ first_item-append front x back apart in
    let now : update_first c.order.items x.id (set_item_status status)
        ≡ front ++ set_item_status status x ∷ back =
      ap (λ items. update_first items x.id (set_item_status status)) c.parted
      ∙ update_first-append front x back (set_item_status status) apart in
    record {
      order = settled status (update_item c.order x.id (set_item_status status));
      kept = accepted_item s id c.order x status c.kept has_item forward;
      parted = now;
      some_item =
          subst (λ items. items ≢ []) (sym now)
            (append-ne-nil front (set_item_status status x) back);
      coherent = settled-IsCoherent c.order x.id x status has_item forward c.coherent;
    }

-- The updates of an item that is NEW, up to DONE, and of all items.
abbrev pub cook_item : ℤ → Item → List Request
cook_item id x =
    Request.item_update id x.id ItemStatus.in_progress
    ∷ Request.item_update id x.id ItemStatus.done
    ∷ []

unfoldable pub cook : ℤ → List Item → List Request
cook id [] = []
cook id (x ∷ items) = cook_item id x ++ cook id items

cooked_item :
    (s : Server) (id : ℤ) (front back : List Item) (x : Item)
    → Cooking s id front (x ∷ back)
    → Apart x.id front
    → x.status ≡ ItemStatus.new
    → Cooking (run s (cook_item id x)) id (front ++ set_item_status ItemStatus.done x ∷ []) back
unfolding run
cooked_item s id front back x c apart new =
    let started = moved s id front back x ItemStatus.in_progress c apart (rw new refl) in
    let t = step s (Request.item_update id x.id ItemStatus.in_progress) in
    let ended =
      moved t id front back (set_item_status ItemStatus.in_progress x) ItemStatus.done started apart
        refl in
    record {
      order = ended.order;
      kept = ended.kept;
      parted =
          ended.parted ∙ sym (append_assoc front (set_item_status ItemStatus.done x ∷ []) back);
      some_item = ended.some_item;
      coherent = ended.coherent;
    }

all_done-append :
    (front : List Item) (x : Item)
    → all_done front ≡ true
    → x.status ≡ ItemStatus.done
    → all_done (front ++ x ∷ []) ≡ true
unfolding all_done
all_done-append [] x _ h = rw h refl
all_done-append (y ∷ front) x done h = ground (arith, all_done-append front x)

Apart-after :
    (front : List Item) (x : Item) (back : List Item)
    → All (λ (y : Item). Apart y.id front) back
    → Apart x.id back
    → All (λ (y : Item). Apart y.id (front ++ set_item_status ItemStatus.done x ∷ [])) back
Apart-after front x [] _ _ = tt
Apart-after front x (y ∷ back) (h, hs) (ne, apart) = (
  All-append (λ (item : Item). item.id ≢ y.id) front (set_item_status ItemStatus.done x ∷ []) h
      ((λ e. ne (sym e)), tt),
  Apart-after front x back hs apart,
)

pub record Cooked (s : Server) (id : ℤ) : Type 0 where
  pub order : Order
  pub kept : OrderedMap.find s.orders id ≡ some order
  pub done : order.status ≡ OrderStatus.done

done_status :
    (items : List Item) → items ≢ [] → all_done items ≡ true → status_of items ≡ OrderStatus.done
unfolding status_of all_new all_done
done_status [] some_item _ = absurd (some_item refl)
done_status (x ∷ items) _ done = ground arith

pub cooked :
    (s : Server) (id : ℤ) (front back : List Item)
    → Cooking s id front back
    → all_done front ≡ true
    → All (λ (y : Item). Apart y.id front) back
    → DistinctIds back
    → All (λ (y : Item). y.status ≡ ItemStatus.new) back
    → Cooked (run s (cook id back)) id
unfolding run cook
cooked s id front [] c done _ _ _ =
    let all = ap all_done (c.parted ∙ append-nil front) ∙ done in
    record {
      order = c.order;
      kept = c.kept;
      done = c.coherent ∙ done_status c.order.items c.some_item all;
    }
cooked s id front (x ∷ back) c done (apart, aparts) (distinct, distincts) (new, news) =
    subst (λ t. Cooked t id) (sym (run-append s (cook_item id x) (cook id back)))
      (cooked (run s (cook_item id x)) id (front ++ set_item_status ItemStatus.done x ∷ []) back
        (cooked_item s id front back x c apart new)
        (all_done-append front (set_item_status ItemStatus.done x) done refl)
        (Apart-after front x back aparts distinct) distincts news)
