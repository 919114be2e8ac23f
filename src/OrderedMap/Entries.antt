-- ===== src/OrderedMap/Entries.antt =====
-- What holds of every pair of a map, and writes that meet.
use restuarant_ordering_csf.Base.{
  ℤ, int_eq, ◌==◌, ◌≡◌, refl, [], ◌∷◌, some, arith, Bool-cases, inl, inr, eq_sound,
}
use restuarant_ordering_csf.OrderedMap.{OrderedMap, find, insert, erase, write}
use mathlib.Core.Path.{subst, subst₂, sym}

module _ {ℓ} {V : Type ℓ} where
  -- Writing twice is writing the second time, and what is written is erased with its key.
  pub write-write :
      (key : ℤ) (v w : V) (m : OrderedMap V) → write key w (write key v m) ≡ write key w m
  unfolding write
  write-write key v w [] = refl
  write-write key v w ((k, u) ∷ m) = ground (arith, write-write key v w m)

  pub erase-write : (key : ℤ) (v : V) (m : OrderedMap V) → erase key (write key v m) ≡ erase key m
  unfolding write erase
  erase-write key v [] = refl
  erase-write key v ((k, u) ∷ m) = ground (arith, erase-write key v m)

module _ {ℓ} {V : Type ℓ} (P : ℤ → V → Type 0) where
  abbrev pub Entries : OrderedMap V → Type 0
  Entries [] = Unit
  Entries ((k, v) ∷ m) = P k v × Entries m

  pub Entries-insert :
      (key : ℤ) (value : V) (m : OrderedMap V)
      → P key value
      → Entries m
      → Entries (insert key value m)
  unfolding insert
  Entries-insert key value [] p _ = (p, tt)
  Entries-insert key value ((k, v) ∷ m) p (h, hs) = ground (arith, Entries-insert key value m p hs)

  pub Entries-erase : (key : ℤ) (m : OrderedMap V) → Entries m → Entries (erase key m)
  unfolding erase
  Entries-erase key [] h = h
  Entries-erase key ((k, v) ∷ m) (h, hs) = ground (arith, Entries-erase key m hs)

  pub Entries-write :
      (key : ℤ) (value : V) (m : OrderedMap V)
      → P key value
      → Entries m
      → Entries (write key value m)
  unfolding write
  Entries-write key value [] p h = h
  Entries-write key value ((k, v) ∷ m) p (h, hs) = elim (Bool-cases (k == key)) [
    | inl hit ↦ rw hit (subst (λ j. P j value) (sym (eq_sound k key hit)) p, hs)
    | inr miss ↦ rw miss (h, Entries-write key value m p hs)
  ]

  pub Entries-find :
      (key : ℤ) (value : V) (m : OrderedMap V) → Entries m → find m key ≡ some value → P key value
  unfolding find
  Entries-find key value [] _ e = absurd (cc)
  Entries-find key value ((k, v) ∷ m) (h, hs) e = elim (Bool-cases (k == key)) [
    | inl hit ↦ let same : v ≡ value = ground arith in subst₂ P (eq_sound k key hit) same h
    | inr miss ↦ Entries-find key value m hs (ground arith)
  ]

pub Entries-map {ℓ} :
    {V : Type ℓ} (P Q : ℤ → V → Type 0) (m : OrderedMap V)
    → ((k : ℤ) (v : V) → P k v → Q k v)
    → Entries P m
    → Entries Q m
Entries-map P Q [] f _ = tt
Entries-map P Q ((k, v) ∷ m) f (h, hs) = (f k v h, Entries-map P Q m f hs)
