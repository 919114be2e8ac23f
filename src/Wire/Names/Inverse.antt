-- ===== src/Wire/Names/Inverse.antt =====
-- The names of an enumeration are distinct: printing and reading are inverse to each other.
use mathlib.Core.Path.{subst₂}
use restuarant_ordering_csf.Base.{
  ◌≡◌, ◌≢◌, refl, List, [], ◌∷◌, some, Text, Eq, ◌==◌, arith, All, Bool-cases, inl, inr,
  Option-cases, text_eq, eq_sound,
}
use restuarant_ordering_csf.Model.{ClientMode, ItemStatus, OrderStatus}
use restuarant_ordering_csf.Message.{MessageType}
use restuarant_ordering_csf.Util.{invert_unordered_map}
use restuarant_ordering_csf.Wire.Names.{
  find_entry, or_else, client_mode_names, message_type_names, item_status_names, order_status_names,
  client_mode_to_str, str_to_client_mode, message_type_to_str, str_to_message_type,
  item_status_to_str, str_to_item_status, order_status_to_str, str_to_order_status,
}

-- What holds of every entry of a table holds of the key that is found.
find_entry_sound {ℓ κ μ} :
    {K : Type ℓ} {V : Type κ} ⦃e : Eq K⦄ (P : K → V → Type μ) (m : List (K × V)) (k : K) (v : V)
    → All (λ (p : K × V). P p.0 p.1) m
    → find_entry k m ≡ some v
    → P k v
unfolding find_entry
find_entry_sound P [] k v h found = cc
find_entry_sound {V} ⦃e⦄ P ((j, w) ∷ m) k v (h, hs) found = elim (Bool-cases (j == k)) [
  | inl hit ↦ let same : w ≡ v = ground arith in subst₂ P (eq_sound j k hit) same h
  | inr miss ↦ find_entry_sound P m k v hs (ground arith)
]

-- A key that is not read as the default is the name of what it is read as.
or_else_sound {ℓ κ} :
    {K : Type ℓ} {V : Type κ} ⦃e : Eq K⦄ (name : V → K) (m : List (K × V)) (k : K) (default : V)
    → All (λ (p : K × V). name p.1 ≡ p.0) m
    → or_else (find_entry k m) default ≢ default
    → name (or_else (find_entry k m) default) ≡ k
or_else_sound ⦃e⦄ name m k default all h = elim (Option-cases (find_entry k m)) [
  | inl missing ↦ absurd (h (rw missing))
  | inr (v, hit) ↦ rw hit (find_entry_sound (λ j w. name w ≡ j) m k v all hit)
]

pub str_to_client_mode-to_str :
    (mode : ClientMode) → str_to_client_mode (client_mode_to_str mode) ≡ mode
unfolding str_to_client_mode client_mode_to_str
str_to_client_mode-to_str ClientMode.invalid = refl
str_to_client_mode-to_str _ = refl

pub client_mode_to_str-str_to :
    (s : Text)
    → str_to_client_mode s ≢ ClientMode.invalid
    → client_mode_to_str (str_to_client_mode s) ≡ s
unfolding str_to_client_mode client_mode_to_str
client_mode_to_str-str_to s h =
    or_else_sound client_mode_to_str (invert_unordered_map client_mode_names) s ClientMode.invalid
      (refl, (refl, (refl, tt))) h

-- Every message type, the invalid one included, is found again under its name.
pub str_to_message_type-to_str :
    (kind : MessageType) → str_to_message_type (message_type_to_str kind) ≡ kind
unfolding str_to_message_type message_type_to_str
str_to_message_type-to_str MessageType.invalid = refl
str_to_message_type-to_str _ = refl

pub message_type_to_str-str_to :
    (s : Text)
    → str_to_message_type s ≢ MessageType.invalid
    → message_type_to_str (str_to_message_type s) ≡ s
unfolding str_to_message_type message_type_to_str
message_type_to_str-str_to s h =
    or_else_sound message_type_to_str (invert_unordered_map message_type_names) s
      MessageType.invalid
      (
        refl,
        (refl, (refl, (refl, (refl, (refl, (refl, (refl, (refl, (refl, (refl, (refl, tt))))))))))),
      )
      h

pub str_to_item_status-to_str :
    (status : ItemStatus) → str_to_item_status (item_status_to_str status) ≡ status
unfolding str_to_item_status item_status_to_str
str_to_item_status-to_str ItemStatus.invalid = refl
str_to_item_status-to_str _ = refl

pub item_status_to_str-str_to :
    (s : Text)
    → str_to_item_status s ≢ ItemStatus.invalid
    → item_status_to_str (str_to_item_status s) ≡ s
unfolding str_to_item_status item_status_to_str
item_status_to_str-str_to s h =
    or_else_sound item_status_to_str (invert_unordered_map item_status_names) s ItemStatus.invalid
      (refl, (refl, (refl, (refl, tt)))) h

pub str_to_order_status-to_str :
    (status : OrderStatus) → str_to_order_status (order_status_to_str status) ≡ status
unfolding str_to_order_status order_status_to_str
str_to_order_status-to_str OrderStatus.invalid = refl
str_to_order_status-to_str _ = refl

pub order_status_to_str-str_to :
    (s : Text)
    → str_to_order_status s ≢ OrderStatus.invalid
    → order_status_to_str (str_to_order_status s) ≡ s
unfolding str_to_order_status order_status_to_str
order_status_to_str-str_to s h =
    or_else_sound order_status_to_str (invert_unordered_map order_status_names) s
      OrderStatus.invalid (refl, (refl, (refl, (refl, (refl, tt))))) h
