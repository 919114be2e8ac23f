-- ===== src/Numbers.antt =====
-- What the program uses of `std::to_string(int)` and `std::stoi(str, &pos, 10)`. The exceptions of
-- `stoi` are `none`: every caller catches them alike.
pub mod Print
pub mod Read
use restuarant_ordering_csf.Base.{
  ℕ, zero, suc, ◌+◌, ◌-◌, ◌*◌, ◌/◌, ◌%◌, ◌^◌, ℤ, pos, negsuc, int_max, ltb, leb, Bool, true, false,
  ◌&&◌, ◌||◌, [], ◌∷◌, ◌++◌, Option, none, some, Text, ◌==◌, nat_eq, if◌then◌else◌, ◌≡◌, refl,
  codes,
}

-- The decimal digits of a number; the first argument bounds how many.
digits : ℕ → ℕ → Text
digits zero n = []
digits (suc room) n =
    let front = digits room (n / 10) in
    if ltb n 10 then (b'0' + n) ∷ [] else front ++ (b'0' + n % 10) ∷ []

-- There is room for n + 1 digits, which n needs at most.
unfoldable pub show_ℕ : ℕ → Text
unfolding digits
show_ℕ n = digits (suc n) n

unfoldable pub to_string : ℤ → Text
unfolding show_ℕ
to_string (pos n) = show_ℕ n
to_string (negsuc n) = b'-' ∷ show_ℕ (suc n)

abbrev pub is_digit : ℕ → Bool
is_digit c = leb b'0' c && leb c b'9'

-- `isspace` in the C locale: a blank, or one of tab, newline, vertical tab, form feed and return.
abbrev pub is_space : ℕ → Bool
is_space c = (c == 32) || (leb 9 c && leb c 13)

-- The number of leading blanks, and the text behind them.
skip_spaces : Text → ℕ × Text
skip_spaces [] = (0, [])
skip_spaces (c ∷ s) =
    let (n, rest) = skip_spaces s in if is_space c then (suc n, rest) else (0, c ∷ s)

-- The number that the leading digits spell behind `n`, and how many digits were read.
scan : Text → ℕ → ℕ → ℕ × ℕ
scan [] n count = (n, count)
scan (c ∷ s) n count =
    let more = scan s (n * 10 + (c - b'0')) (suc count) in if is_digit c then more else (n, count)

minus : ℕ → ℤ
minus zero = pos 0
minus (suc n) = negsuc n

-- Digits behind a sign: no digit is `std::invalid_argument`, a value outside of `int` is
-- `std::out_of_range`.
read_digits : Bool → ℕ → Text → Option (ℤ × ℕ)
unfolding scan minus
read_digits negative start s =
    let (n, count) = scan s 0 0 in
    if count == 0
    then none
    else if negative
    then if leb n (suc int_max) then some (minus n, start + count) else none
    else if leb n int_max
    then some (pos n, start + count)
    else none

read_sign : ℕ → Text → Option (ℤ × ℕ)
unfolding read_digits
read_sign start [] = none
read_sign start (c ∷ s) =
    if c == b'-'
    then read_digits true (suc start) s
    else if c == b'+'
    then read_digits false (suc start) s
    else read_digits false start (c ∷ s)

-- The number, and the position behind it.
unfoldable pub stoi : Text → Option (ℤ × ℕ)
unfolding skip_spaces read_sign
stoi s = let (start, rest) = skip_spaces s in read_sign start rest

shown : to_string (negsuc 1033) ≡ codes "-1034"
unfolding to_string
shown = refl

read_back : stoi (codes " +0042x") ≡ some (pos 42, 6)
unfolding stoi
read_back = refl

too_large : stoi (codes "2147483648") ≡ none
unfolding stoi
too_large = refl
