-- ===== src/Numbers/Print.antt =====
-- The decimal print of a number is digits that spell it.
use mathlib.Core.List.{concat-ne-nil}
use restuarant_ordering_csf.Base.{
  ℕ, zero, suc, ◌+◌, ◌-◌, ◌*◌, ◌/◌, ◌%◌, ◌<◌, ◌≤◌, ◌≡◌, ◌≢◌, refl, ◌∙◌, [], ◌∷◌, ◌++◌, arith, Text,
  All, All-append, Bool-cases, ltb, inl, inr, length, length-append,
}
use restuarant_ordering_csf.Numbers.{digits, show_ℕ}

abbrev pub IsDigit : ℕ → Type 0
IsDigit c = (b'0' ≤ c) × (c ≤ b'9')

-- The number that digits spell behind `n`.
abbrev pub value : ℕ → Text → ℕ
value n [] = n
value n (c ∷ s) = value (n * 10 + (c - b'0')) s

pub value-append : (n : ℕ) (s t : Text) → value n (s ++ t) ≡ value (value n s) t
value-append n [] t = refl
value-append n (c ∷ s) t = value-append (n * 10 + (c - b'0')) s t

digits_lem :
    (room n : ℕ)
    → n < room
    → (value 0 (digits room n) ≡ n) × All IsDigit (digits room n) × (digits room n ≢ [])
unfolding digits
digits_lem zero n h = absurd (omega arith)
digits_lem (suc room) n h = elim (Bool-cases (ltb n 10)) [
  | inl small ↦ rw small (ground arith)
  | inr large ↦
      let front = digits_lem room (n / 10) (ground arith) in
      rw large (
        value-append 0 (digits room (n / 10)) _ ∙ omega (arith, front.0),
        All-append IsDigit (digits room (n / 10)) _ front.1 (omega arith),
        concat-ne-nil _ (digits room (n / 10)),
      )
]

pub value-show : (n : ℕ) → value 0 (show_ℕ n) ≡ n
unfolding show_ℕ
value-show n = (digits_lem (suc n) n (omega arith)).0

pub show-IsDigit : (n : ℕ) → All IsDigit (show_ℕ n)
unfolding show_ℕ
show-IsDigit n = (digits_lem (suc n) n (omega arith)).1

pub show-ne-nil : (n : ℕ) → show_ℕ n ≢ []
unfolding show_ℕ
show-ne-nil n = (digits_lem (suc n) n (omega arith)).2

-- A number below 10 ^ k has at most k digits; here up to four.
abbrev FewDigits : ℕ → ℕ → Type 0
FewDigits bound count = (room n : ℕ) → n < bound → length (digits room n) ≤ count

one_digit : FewDigits 10 1
unfolding digits
one_digit zero n h = omega arith
one_digit (suc room) n h = ground arith

one_more_digit : (bound count : ℕ) → FewDigits bound count → FewDigits (10 * bound) (suc count)
unfolding digits
one_more_digit bound count few zero n h = omega arith
one_more_digit bound count few (suc room) n h =
    ground (arith, few room (n / 10), length-append (digits room (n / 10)) ((b'0' + n % 10) ∷ []))

pub length-show_le : (n : ℕ) → n < 10000 → length (show_ℕ n) ≤ 4
unfolding show_ℕ
length-show_le n h =
    one_more_digit 1000 3 (one_more_digit 100 2 (one_more_digit 10 1 one_digit)) (suc n) n h
