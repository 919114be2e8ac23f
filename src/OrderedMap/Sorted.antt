-- ===== src/OrderedMap/Sorted.antt =====
-- The keys ascend strictly, and stay so.
use restuarant_ordering_csf.Base.{
  ℤ, ◌<ℤ◌, int_eq, ◌==◌, ◌≡◌, refl, [], ◌∷◌, none, arith, if◌then◌else◌,
}
use restuarant_ordering_csf.OrderedMap.{OrderedMap, find, insert, erase, write}

module _ {ℓ} {V : Type ℓ} where
  abbrev pub Above : ℤ → OrderedMap V → Type 0
  Above key [] = Unit
  Above key ((k, v) ∷ m) = (key <ℤ k) × Above key m

  abbrev pub IsSorted : OrderedMap V → Type 0
  IsSorted [] = Unit
  IsSorted ((k, v) ∷ m) = Above k m × IsSorted m

  Above-trans : (a b : ℤ) (m : OrderedMap V) → a <ℤ b → Above b m → Above a m
  Above-trans a b [] h _ = tt
  Above-trans a b ((k, v) ∷ m) h (hk, hm) = (omega arith, Above-trans a b m h hm)

  Above-insert :
      (a key : ℤ) (value : V) (m : OrderedMap V)
      → a <ℤ key
      → Above a m
      → Above a (insert key value m)
  unfolding insert
  Above-insert a key value [] h _ = (h, tt)
  Above-insert a key value ((k, v) ∷ m) h (hk, hm) = ground (arith, Above-insert a key value m h hm)

  pub insert-IsSorted :
      (key : ℤ) (value : V) (m : OrderedMap V) → IsSorted m → IsSorted (insert key value m)
  unfolding insert
  insert-IsSorted key value [] _ = (tt, tt)
  insert-IsSorted key value ((k, v) ∷ m) (hk, hm) = ground (
    arith,
    int_eq.beq_iff k key,
    Above-trans key k m,
    Above-insert k key value m,
    insert-IsSorted key value m hm,
  )

  Above-erase : (a key : ℤ) (m : OrderedMap V) → Above a m → Above a (erase key m)
  unfolding erase
  Above-erase a key [] h = h
  Above-erase a key ((k, v) ∷ m) (hk, hm) = ground (arith, Above-erase a key m hm)

  pub erase-IsSorted : (key : ℤ) (m : OrderedMap V) → IsSorted m → IsSorted (erase key m)
  unfolding erase
  erase-IsSorted key [] h = h
  erase-IsSorted key ((k, v) ∷ m) (hk, hm) =
      ground (arith, Above-erase k key m hk, erase-IsSorted key m hm)

  Above-write : (a key : ℤ) (value : V) (m : OrderedMap V) → Above a m → Above a (write key value m)
  unfolding write
  Above-write a key value [] h = h
  Above-write a key value ((k, v) ∷ m) (hk, hm) = ground (arith, Above-write a key value m hm)

  pub write-IsSorted :
      (key : ℤ) (value : V) (m : OrderedMap V) → IsSorted m → IsSorted (write key value m)
  unfolding write
  write-IsSorted key value [] h = h
  write-IsSorted key value ((k, v) ∷ m) (hk, hm) =
      ground (arith, Above-write k key value m hk, write-IsSorted key value m hm)

  find-Above : (key : ℤ) (m : OrderedMap V) → Above key m → find m key ≡ none
  unfolding find
  find-Above key [] _ = refl
  find-Above key ((k, v) ∷ m) (hk, hm) = ground (arith, find-Above key m hm)

  -- In a map whose keys ascend, erasing a key removes it and nothing else.
  pub find-erase :
      (key : ℤ) (m : OrderedMap V) (other : ℤ)
      → IsSorted m
      → find (erase key m) other ≡ (if key == other then none else find m other)
  unfolding find erase
  find-erase key [] other _ = ground arith
  find-erase key ((k, v) ∷ m) other (hk, hm) = ground (
    arith,
    int_eq.beq_iff key other,
    int_eq.beq_iff k key,
    int_eq.beq_iff k other,
    find-Above k m hk,
    find-erase key m other hm,
  )
