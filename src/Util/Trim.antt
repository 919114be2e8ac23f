-- ===== src/Util/Trim.antt =====
-- include/util.h: what `trim` removes, and what it keeps.
use mathlib.Core.Path.{subst}
use restuarant_ordering_csf.Base.{
  ℕ, ◌+◌, ◌-◌, ◌≡◌, ◌⊎◌, inl, inr, refl, sym, ap, ◌∙◌, true, false, [], ◌∷◌, ◌++◌, some, none, Text,
  length, take, drop, drop-append, take-append, append_assoc, append-nil, length-append, All,
  Bool-cases, arith,
}
use restuarant_ordering_csf.Util.{is_blank, find_first_not_blank, find_last_not_blank, substr, trim}

abbrev pub AllBlank : Text → Type 0
AllBlank = All (λ c. is_blank c ≡ true)

pub record Trimmed (s core : Text) : Type 0 where
  pub front : Text
  pub back : Text
  pub whole : s ≡ front ++ (core ++ back)
  pub front_blank : AllBlank front
  pub back_blank : AllBlank back
  pub first_kept : (c : ℕ) (rest : Text) → core ≡ c ∷ rest → is_blank c ≡ false
  pub last_kept : (rest : Text) (c : ℕ) → core ≡ rest ++ c ∷ [] → is_blank c ≡ false

record First (s : Text) : Type 0 where
  front : Text
  char : ℕ
  rest : Text
  whole : s ≡ front ++ char ∷ rest
  blank : AllBlank front
  kept : is_blank char ≡ false
  found : find_first_not_blank s ≡ some (length front)

record Last (s : Text) : Type 0 where
  rest : Text
  char : ℕ
  back : Text
  whole : s ≡ rest ++ char ∷ back
  blank : AllBlank back
  kept : is_blank char ≡ false
  found : find_last_not_blank s ≡ some (length rest)

First-cases : (s : Text) → ((find_first_not_blank s ≡ none) × AllBlank s) ⊎ First s
unfolding find_first_not_blank
First-cases [] = inl (refl, tt)
First-cases (c ∷ s) = elim (Bool-cases (is_blank c)) [
  | inr kept ↦ inr (record {
    front = [];
    char = c;
    rest = s;
    whole = refl;
    blank = tt;
    kept = kept;
    found = rw kept refl;
  })
  | inl blank ↦ elim (First-cases s) [
    | inl (e, all) ↦ inl (rw (blank, e) refl, (blank, all))
    | inr f ↦ inr (record {
      front = c ∷ f.front;
      char = f.char;
      rest = f.rest;
      whole = ap (λ t. c ∷ t) f.whole;
      blank = (blank, f.blank);
      kept = f.kept;
      found = rw (blank, f.found) refl;
    })
  ]
]

Last-cases : (s : Text) → ((find_last_not_blank s ≡ none) × AllBlank s) ⊎ Last s
unfolding find_last_not_blank
Last-cases [] = inl (refl, tt)
Last-cases (c ∷ s) = elim (Last-cases s) [
  | inr l ↦ inr (record {
    rest = c ∷ l.rest;
    char = l.char;
    back = l.back;
    whole = ap (λ t. c ∷ t) l.whole;
    blank = l.blank;
    kept = l.kept;
    found = rw (l.found) refl;
  })
  | inl (e, all) ↦ elim (Bool-cases (is_blank c)) [
    | inl blank ↦ inl (rw (e, blank) refl, (blank, all))
    | inr kept ↦ inr (record {
      rest = [];
      char = c;
      back = s;
      whole = refl;
      blank = all;
      kept = kept;
      found = rw (e, kept) refl;
    })
  ]
]

find_last-append :
    (front s : Text) (i : ℕ)
    → find_last_not_blank s ≡ some i
    → find_last_not_blank (front ++ s) ≡ some (length front + i)
unfolding find_last_not_blank
find_last-append [] s i e = e ∙ ap some (omega arith)
find_last-append (c ∷ front) s i e = rw (find_last-append front s i e) (ap some (omega arith))

blank_or_not : (c : ℕ) (s : Text) → is_blank c ≡ false → AllBlank (c ∷ s) → ⊥
blank_or_not c s kept (blank, h) = absurd (cc)

take-one_more :
    (rest : Text) (c : ℕ) (back : Text) → take (length rest + 1) (rest ++ c ∷ back) ≡ rest ++ c ∷ []
take-one_more rest c back =
    ap (λ n. take n (rest ++ c ∷ back)) (sym (length-append rest (c ∷ [])))
    ∙ ap (take (length (rest ++ c ∷ []))) (sym (append_assoc rest (c ∷ []) back))
    ∙ take-append (rest ++ c ∷ []) back

snoc-last : (xs ys : Text) (x y : ℕ) → xs ++ x ∷ [] ≡ ys ++ y ∷ [] → x ≡ y
snoc-last [] [] x y e = cc
snoc-last [] (z ∷ ys) x y e = absurd (omega (arith, ap length e, length-append ys (y ∷ [])))
snoc-last (w ∷ xs) [] x y e = absurd (omega (arith, ap length e, length-append xs (x ∷ [])))
snoc-last (w ∷ xs) (z ∷ ys) x y e = snoc-last xs ys x y (cc)

head-same :
    (v : Text) (d : ℕ) (b : Text) (c : ℕ) (t : Text) (x : ℕ) (rest : Text)
    → c ∷ t ≡ v ++ d ∷ b
    → v ++ d ∷ [] ≡ x ∷ rest
    → x ≡ c
head-same [] d b c t x rest e f = cc
head-same (z ∷ v) d b c t x rest e f = cc

trim_blank : (s : Text) → find_first_not_blank s ≡ none → trim s ≡ []
unfolding trim
trim_blank s e = ground (arith, e)

trim_between :
    (s : Text) (first last : ℕ)
    → find_first_not_blank s ≡ some first
    → find_last_not_blank s ≡ some last
    → trim s ≡ substr s first ((last - first) + 1)
unfolding trim
trim_between s first last e f = ground (arith, e, f)

module _ (s : Text) (f : First s) (l : Last (f.char ∷ f.rest)) where
  found_last : find_last_not_blank s ≡ some (length f.front + length l.rest)
  found_last =
      ap find_last_not_blank f.whole
      ∙ find_last-append f.front (f.char ∷ f.rest) (length l.rest) l.found

  trim-core : trim s ≡ l.rest ++ l.char ∷ []
  trim-core =
      let size : (length f.front + length l.rest) - length f.front + 1 ≡ length l.rest + 1 =
        omega arith in
      trim_between s (length f.front) (length f.front + length l.rest) f.found found_last
      ∙ ap (λ n. take n (drop (length f.front) s)) size
      ∙ ap (λ t. take (length l.rest + 1) (drop (length f.front) t)) f.whole
      ∙ ap (take (length l.rest + 1)) (drop-append f.front (f.char ∷ f.rest) ∙ l.whole)
      ∙ take-one_more l.rest l.char l.back

  core-Trimmed : Trimmed s (l.rest ++ l.char ∷ [])
  core-Trimmed = record {
    front = f.front;
    back = l.back;
    whole =
        f.whole ∙ ap (λ t. f.front ++ t) (l.whole ∙ sym (append_assoc l.rest (l.char ∷ []) l.back));
    front_blank = f.blank;
    back_blank = l.blank;
    first_kept = λ c rest e.
        ap is_blank (head-same l.rest l.char l.back f.char f.rest c rest l.whole e) ∙ f.kept;
    last_kept = λ rest c e. ap is_blank (sym (snoc-last l.rest rest l.char c e)) ∙ l.kept;
  }

blank-Trimmed : (s : Text) → AllBlank s → Trimmed s []
blank-Trimmed s all = record {
  front = s;
  back = [];
  whole = sym (append-nil s);
  front_blank = all;
  back_blank = tt;
  first_kept = λ c rest e. absurd (cc);
  last_kept = λ rest c e. absurd (omega (arith, ap length e, length-append rest (c ∷ [])));
}

-- `trim` takes blanks off at both ends, and nothing else, and takes off all of them: what is left
-- neither begins nor ends with a blank.
pub trim-Trimmed : (s : Text) → Trimmed s (trim s)
trim-Trimmed s = elim (First-cases s) [
  | inl (e, all) ↦ subst (Trimmed s) (sym (trim_blank s e)) (blank-Trimmed s all)
  | inr f ↦ elim (Last-cases (f.char ∷ f.rest)) [
    | inl (e, all) ↦ elim (blank_or_not f.char f.rest f.kept all) [ ]
    | inr l ↦ subst (Trimmed s) (sym (trim-core s f l)) (core-Trimmed s f l)
  ]
]
