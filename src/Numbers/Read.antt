-- ===== src/Numbers/Read.antt =====
-- What `stoi` reads: blanks, a sign and digits, whose value has to fit an `int`.
use mathlib.Core.Path.{subst}
use restuarant_ordering_csf.Base.{
  ℕ, suc, ◌+◌, ◌-◌, ◌*◌, ◌<◌, ◌≤◌, ◌≡◌, ◌≢◌, refl, ◌∙◌, sym, ap, ◌⊎◌, inl, inr, [], ◌∷◌, ◌++◌,
  append-nil, some, arith, Text, All, length, length-append, true, false, Bool-cases, ◌==◌, nat_eq,
  pos, int_max, eq_sound,
}
use restuarant_ordering_csf.Numbers.{
  is_digit, is_space, skip_spaces, scan, read_digits, read_sign, stoi, minus, show_ℕ, to_string,
}
use restuarant_ordering_csf.Numbers.Print.{IsDigit, value, value-show, show-IsDigit, show-ne-nil}

abbrev pub IsSpace : ℕ → Type 0
IsSpace c = is_space c ≡ true

scan-All : (s : Text) (n count : ℕ) → All IsDigit s → scan s n count ≡ (value n s, count + length s)
unfolding scan
scan-All [] n count h = ground arith
scan-All (c ∷ s) n count (hc, h) = ground (arith, scan-All s (n * 10 + (c - b'0')) (suc count) h)

-- The digits that `scan` takes from the front of a text.
scan_front :
    (s : Text) (n count : ℕ)
    → (ds rest : Text) × (s ≡ ds ++ rest)
      × All IsDigit ds
      × (scan s n count ≡ (value n ds, count + length ds))
unfolding scan
scan_front [] n count = ([], [], refl, tt, ground arith)
scan_front (c ∷ s) n count = elim (Bool-cases (is_digit c)) [
  | inl yes_digit ↦
      let (ds, rest, e, h, r) = scan_front s (n * 10 + (c - b'0')) (suc count) in
      rw yes_digit (
        c ∷ ds,
        rest,
        ap (◌∷◌ c) e,
        (ground arith, h),
        r ∙ ap (λ (k : ℕ). (value n (c ∷ ds), k)) (omega arith),
      )
  | inr no_digit ↦ rw no_digit ([], c ∷ s, refl, tt, ground arith)
]

skip_front :
    (s : Text)
    → (blanks : Text) × (s ≡ blanks ++ (skip_spaces s).1)
      × All IsSpace blanks
      × ((skip_spaces s).0 ≡ length blanks)
unfolding skip_spaces
skip_front [] = ([], refl, tt, refl)
skip_front (c ∷ s) = elim (Bool-cases (is_space c)) [
  | inl blank ↦
      let (blanks, e, h, n) = skip_front s in
      rw blank (c ∷ blanks, ap (◌∷◌ c) e, (blank, h), ap suc n)
  | inr other ↦ rw other ([], refl, tt, refl)
]

skip_digits : (s : Text) → All IsDigit s → skip_spaces s ≡ (0, s)
unfolding skip_spaces
skip_digits [] h = refl
skip_digits (c ∷ s) (hc, h) = ground arith

read_sign_digits :
    (start : ℕ) (s : Text)
    → s ≢ []
    → All IsDigit s
    → value 0 s ≤ int_max
    → read_sign start s ≡ some (pos (value 0 s), start + length s)
unfolding read_sign read_digits
read_sign_digits start [] h _ _ = absurd (h refl)
read_sign_digits start (c ∷ s) h (hc, hs) fits = ground (arith, scan-All (c ∷ s) 0 0 (hc, hs))

pub stoi_digits :
    (s : Text)
    → s ≢ []
    → All IsDigit s
    → value 0 s ≤ int_max
    → stoi s ≡ some (pos (value 0 s), length s)
unfolding stoi
stoi_digits s ne h fits =
    rw (skip_digits s h)
      (read_sign_digits 0 s ne h fits ∙ ap (λ (k : ℕ). some (pos (value 0 s), k)) (omega arith))

-- Every `int` that is not negative is read back from its print, whole.
pub stoi-to_string :
    (n : ℕ) → n ≤ int_max → stoi (to_string (pos n)) ≡ some (pos n, length (to_string (pos n)))
unfolding to_string
stoi-to_string n fits =
    stoi_digits (show_ℕ n) (show-ne-nil n) (show-IsDigit n) (rw value-show fits) ∙ rw value-show

-- A text that spells a number: blanks, at most a plus sign, and digits to the end.
pub record Spells (s : Text) (n : ℕ) : Type 0 where
  pub blanks : Text
  pub sign : Text
  pub ds : Text
  pub parts : s ≡ blanks ++ (sign ++ ds)
  pub are_blank : All IsSpace blanks
  pub plus : (sign ≡ []) ⊎ (sign ≡ b'+' ∷ [])
  pub some_digit : ds ≢ []
  pub are_digits : All IsDigit ds
  pub exact : value 0 ds ≡ n

-- The same of the text that is left behind the blanks, when `stoi` stops at `stop`.
abbrev Front : ℕ → Text → ℕ → ℕ → Type 0
Front start s n stop =
    (ds : Text) × (rest : Text) × (s ≡ ds ++ rest)
    × All IsDigit ds
    × (ds ≢ [])
    × (value 0 ds ≡ n)
    × (n ≤ int_max)
    × (stop ≡ start + length ds)

read_digits_sound :
    (start : ℕ) (s : Text) (n stop : ℕ)
    → read_digits false start s ≡ some (pos n, stop)
    → Front start s n stop
unfolding read_digits
read_digits_sound start s n stop h =
    let (ds, rest, e, d, r) = scan_front s 0 0 in
    let taken : 0 + length ds ≢ 0 = ground (arith) in
    (
      ds,
      rest,
      e,
      d,
      (λ z. taken (omega (arith, ap length z))),
      ground arith,
      ground arith,
      ground arith,
    )

read_digits_negative :
    (start : ℕ) (s : Text) (n stop : ℕ) → read_digits true start s ≡ some (pos n, stop) → n ≡ 0
unfolding read_digits minus
read_digits_negative start s n stop h = ground arith

-- The sign, if there is one, and the number behind it.
read_sign_sound :
    (start : ℕ) (s : Text) (n stop : ℕ)
    → 0 < n
    → read_sign start s ≡ some (pos n, stop)
    → (sign : Text) × (t : Text) × (s ≡ sign ++ t)
      × ((sign ≡ []) ⊎ (sign ≡ b'+' ∷ []))
      × Front (start + length sign) t n stop
unfolding read_sign
read_sign_sound start [] n stop pos_n h = cc
read_sign_sound start (c ∷ s) n stop pos_n h = elim (Bool-cases (c == b'-')) [
  | inl is_minus ↦ absurd (omega (arith, read_digits_negative (suc start) s n stop (ground arith)))
  | inr not_minus ↦ elim (Bool-cases (c == b'+')) [
    | inl is_plus ↦ (
      b'+' ∷ [],
      s,
      ap (λ (x : ℕ). x ∷ s) (eq_sound c b'+' is_plus),
      inr refl,
      subst (λ k. Front k s n stop) (omega arith)
          (read_digits_sound (suc start) s n stop (ground arith)),
    )
    | inr not_plus ↦ (
      [],
      c ∷ s,
      refl,
      inl refl,
      subst (λ k. Front k (c ∷ s) n stop) (omega arith)
          (read_digits_sound start (c ∷ s) n stop (ground arith)),
    )
  ]
]

length-zero : (s : Text) → length s ≡ 0 → s ≡ []
length-zero [] h = refl
length-zero (c ∷ s) h = absurd (omega arith)

used_up :
    (s blanks sign ds rest : Text)
    → s ≡ blanks ++ (sign ++ (ds ++ rest))
    → length s ≡ length blanks + length sign + length ds
    → s ≡ blanks ++ (sign ++ ds)
used_up s blanks sign ds rest e n =
    let nothing_left : rest ≡ [] = length-zero rest (
      omega (
        arith,
        n,
        ap length e,
        length-append blanks (sign ++ (ds ++ rest)),
        length-append sign (ds ++ rest),
        length-append ds rest,
      )) in
    e ∙ rw (nothing_left, append-nil)

-- If a positive number is read up to the end of the text, the text spells it, and it fits.
pub stoi_sound :
    (s : Text) (n : ℕ) → 0 < n → stoi s ≡ some (pos n, length s) → Spells s n × (n ≤ int_max)
unfolding stoi
stoi_sound s n pos_n h =
    let (blanks, e, are_blank, at) = skip_front s in
    let (sign, t, e', plus, (ds, rest, e'', d, ne, exact, fits, stop)) =
      read_sign_sound (skip_spaces s).0 (skip_spaces s).1 n (length s) pos_n h in
    (
      record {
        blanks = blanks;
        sign = sign;
        ds = ds;
        parts =
            used_up s blanks sign ds rest (e ∙ ap (◌++◌ blanks) (e' ∙ ap (◌++◌ sign) e''))
              (rw (← at) stop);
        are_blank = are_blank;
        plus = plus;
        some_digit = ne;
        are_digits = d;
        exact = exact;
      },
      fits,
    )

skip_blanks :
    (blanks t : Text)
    → All IsSpace blanks
    → skip_spaces t ≡ (0, t)
    → skip_spaces (blanks ++ t) ≡ (length blanks, t)
unfolding skip_spaces
skip_blanks [] t h e = e
skip_blanks (c ∷ blanks) t (hc, h) e = ground (arith, skip_blanks blanks t h e)

skip_sign :
    (sign ds : Text)
    → (sign ≡ []) ⊎ (sign ≡ b'+' ∷ [])
    → All IsDigit ds
    → skip_spaces (sign ++ ds) ≡ (0, sign ++ ds)
unfolding skip_spaces
skip_sign sign ds (inl e) h = rw e (skip_digits ds h)
skip_sign sign ds (inr e) h = rw e

read_signed :
    (start : ℕ) (sign ds : Text)
    → (sign ≡ []) ⊎ (sign ≡ b'+' ∷ [])
    → ds ≢ []
    → All IsDigit ds
    → value 0 ds ≤ int_max
    → read_sign start (sign ++ ds) ≡ some (pos (value 0 ds), start + length (sign ++ ds))
read_signed start sign ds (inl e) ne d fits = rw e (read_sign_digits start ds ne d fits)
read_signed start sign [] (inr e) ne d fits = absurd (ne refl)
read_signed start sign (c ∷ ds) (inr e) ne d fits =
    rw e (unfold read_sign read_digits in ground (arith, scan-All (c ∷ ds) 0 0 d))

read_spelling :
    (blanks sign ds : Text)
    → All IsSpace blanks
    → (sign ≡ []) ⊎ (sign ≡ b'+' ∷ [])
    → ds ≢ []
    → All IsDigit ds
    → value 0 ds ≤ int_max
    → stoi (blanks ++ (sign ++ ds)) ≡ some (pos (value 0 ds), length (blanks ++ (sign ++ ds)))
unfolding stoi
read_spelling blanks sign ds b plus ne d fits =
    rw (skip_blanks blanks (sign ++ ds) b (skip_sign sign ds plus d)) (
      read_signed (length blanks) sign ds plus ne d fits
      ∙ ap (λ (k : ℕ). some (pos (value 0 ds), k)) (sym (length-append blanks (sign ++ ds))))

-- Every text that spells a number that fits is read, up to its end.
pub stoi_complete : (s : Text) (n : ℕ) → Spells s n → n ≤ int_max → stoi s ≡ some (pos n, length s)
stoi_complete s n spells fits =
    subst (λ t. stoi t ≡ some (pos n, length t)) (sym parts)
      (read_spelling blanks sign ds are_blank plus some_digit are_digits (rw exact fits)
        ∙ ap (λ (k : ℕ). some (pos k, length (blanks ++ (sign ++ ds)))) exact)
  where
    open spells use {blanks, sign, ds, parts, are_blank, plus, some_digit, are_digits, exact}
