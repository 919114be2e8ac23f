-- ===== src/Except.antt =====
-- include/except.h and src/except.cpp: the exceptions of the program, each with its text, and the
-- result of a function that may throw one.
use restuarant_ordering_csf.Base.{String, ◌≡◌, refl}

-- The subclasses of `Exception`.
pub data Exception : Type 0 where
  invalid_message io_exception protocol_error semantic_error : String → Exception

-- `std::runtime_error::what`
unfoldable pub what : Exception → String
what (invalid_message desc) = desc
what (io_exception desc) = desc
what (protocol_error desc) = desc
what (semantic_error desc) = desc

pub data Result {ℓ} (T : Type ℓ) : Type ℓ where
  err : Exception → Result T
  ok : T → Result T

-- An exception skips what follows.
infixl 5 ◌>>=◌
abbrev pub ◌>>=◌ {ℓ κ} :
    {S : Type ℓ} {T : Type κ} (first : Result S) (next : S → Result T) → Result T
err thrown >>= next = err thrown
ok value >>= next = next value

pub ok-injective {ℓ} : {T : Type ℓ} {x y : T} → ok x ≡ ok y → x ≡ y
ok-injective same = cc

-- What returns without an exception had no exception on the way.
pub >>=-eq-ok {ℓ κ} :
    {S : Type ℓ} {T : Type κ} (first : Result S) (next : S → Result T) {y : T}
    → (first >>= next) ≡ ok y
    → (x : S) × (first ≡ ok x) × (next x ≡ ok y)
>>=-eq-ok (err thrown) next returned = cc
>>=-eq-ok (ok x) next returned = (x, refl, returned)
