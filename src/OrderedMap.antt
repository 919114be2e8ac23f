-- ===== src/OrderedMap.antt =====
-- `std::map<int, V>` as the program uses it: the pairs in ascending order of the keys.
pub mod Sorted
pub mod Entries
use restuarant_ordering_csf.Base.{
  ℤ, ltb_ℤ, int_eq, ◌==◌, ◌≡◌, refl, List, [], ◌∷◌, Option, none, some, arith, if◌then◌else◌,
}
use mathlib.Core.Option

abbrev pub OrderedMap {ℓ} : Type ℓ → Type ℓ
OrderedMap V = List (ℤ × V)

module _ {ℓ} {V : Type ℓ} where
  -- `find`; `none` is `end()`.
  unfoldable pub find : OrderedMap V → ℤ → Option V
  find [] key = none
  find ((k, v) ∷ m) key = if k == key then some v else find m key

  -- `m[key] = value`
  unfoldable pub insert : ℤ → V → OrderedMap V → OrderedMap V
  insert key value [] = (key, value) ∷ []
  insert key value ((k, v) ∷ m) =
      let rest = insert key value m in
      if ltb_ℤ key k
      then (key, value) ∷ (k, v) ∷ m
      else if k == key
      then (key, value) ∷ m
      else (k, v) ∷ rest

  -- `erase(find(key))`
  unfoldable pub erase : ℤ → OrderedMap V → OrderedMap V
  erase key [] = []
  erase key ((k, v) ∷ m) = if k == key then m else (k, v) ∷ erase key m

  -- A write through the iterator that `find` returned: the value at the key is replaced.
  unfoldable pub write : ℤ → V → OrderedMap V → OrderedMap V
  write key value [] = []
  write key value ((k, v) ∷ m) = if k == key then (k, value) ∷ m else (k, v) ∷ write key value m

  pub find-insert :
      (key : ℤ) (value : V) (m : OrderedMap V) (other : ℤ)
      → find (insert key value m) other ≡ (if key == other then some value else find m other)
  unfolding find insert
  find-insert key value [] other = refl
  find-insert key value ((k, v) ∷ m) other = ground (
    arith,
    int_eq.beq_iff key other,
    int_eq.beq_iff k key,
    int_eq.beq_iff k other,
    find-insert key value m other,
  )

  pub find-write :
      (key : ℤ) (value : V) (m : OrderedMap V) (other : ℤ)
      → find (write key value m) other
        ≡ (if key == other then Option.map (λ v. value) (find m other) else find m other)
  unfolding find write
  find-write key value [] other = ground arith
  find-write key value ((k, v) ∷ m) other = ground (
    arith,
    int_eq.beq_iff key other,
    int_eq.beq_iff k key,
    int_eq.beq_iff k other,
    find-write key value m other,
  )
