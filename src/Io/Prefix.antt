-- ===== src/Io/Prefix.antt =====
-- The length prefix: four digits, read back to the length.
use restuarant_ordering_csf.Base.{
  ℕ, zero, suc, ◌-◌, ◌<◌, ◌≤◌, pos, ◌≡◌, ◌≢◌, refl, ap, ◌∙◌, [], ◌∷◌, ◌++◌, arith, Text, All,
  All-append, length, length-append, length-replicate, replicate, true,
}
use restuarant_ordering_csf.Except.{ok}
use restuarant_ordering_csf.Numbers.{show_ℕ}
use restuarant_ordering_csf.Numbers.Print.{IsDigit, value, value-show, show-IsDigit, length-show_le}
use restuarant_ordering_csf.Numbers.Read.{stoi_digits}
use restuarant_ordering_csf.Io.{pad, make_length_prefix, parse_length_prefix, all_digits}

all_digits-IsDigit : (s : Text) → All IsDigit s → all_digits s ≡ true
unfolding all_digits
all_digits-IsDigit [] h = refl
all_digits-IsDigit (c ∷ s) (hc, h) = ground (arith, all_digits-IsDigit s h)

zeros-IsDigit : (k : ℕ) → All IsDigit (replicate k b'0')
zeros-IsDigit zero = tt
zeros-IsDigit (suc k) = (omega arith, zeros-IsDigit k)

value-zeros : (k : ℕ) (s : Text) → value 0 (replicate k b'0' ++ s) ≡ value 0 s
value-zeros zero s = refl
value-zeros (suc k) s = value-zeros k s

module _ (n : ℕ) (fits : n ≤ 9999) where
  pub length-prefix : length (pad 4 b'0' (show_ℕ n)) ≡ 4
  length-prefix = omega (
    arith,
    length-append (replicate (4 - length (show_ℕ n)) b'0') (show_ℕ n),
    length-replicate {A = ℕ} (4 - length (show_ℕ n)) b'0',
    length-show_le n (omega arith),
  )

  pub make_length_prefix_lem : make_length_prefix n ≡ ok (pad 4 b'0' (show_ℕ n))
  unfolding make_length_prefix
  make_length_prefix_lem = ground arith

  prefix-IsDigit : All IsDigit (pad 4 b'0' (show_ℕ n))
  prefix-IsDigit =
      All-append IsDigit (replicate (4 - length (show_ℕ n)) b'0') (show_ℕ n) (zeros-IsDigit _)
        (show-IsDigit n)

  value-prefix : value 0 (pad 4 b'0' (show_ℕ n)) ≡ n
  value-prefix = value-zeros (4 - length (show_ℕ n)) (show_ℕ n) ∙ value-show n

  prefix-ne-nil : pad 4 b'0' (show_ℕ n) ≢ []
  prefix-ne-nil e = omega (arith, length-prefix, ap length e)

  -- A positive length up to 9999 is read back from its prefix.
  pub parse-make : 0 < n → parse_length_prefix (pad 4 b'0' (show_ℕ n)) ≡ ok (pos n)
  unfolding parse_length_prefix
  parse-make big =
      rw
        (
          all_digits-IsDigit _ prefix-IsDigit,
          stoi_digits _ prefix-ne-nil prefix-IsDigit (rw value-prefix (omega arith)),
          value-prefix,
        )
        (ground arith)
