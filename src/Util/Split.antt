-- ===== src/Util/Split.antt =====
-- `Util::split` returns the parts of the text: the position arithmetic of its loop is right.

use restuarant_ordering_csf.Base.{
  ℕ, zero, suc, ◌+◌, ◌<◌, List, [], ◌∷◌, ◌++◌, ◌≡◌, refl, ap, sym, ◌∙◌, inl, inr, Option, none,
  some, arith, Text, length, take, drop, Lacks, append_assoc, All, ◌≢◌, eq_sound, ◌==◌, nat_eq,
  Bool-cases, Option-cases,
}
use restuarant_ordering_csf.Util.{next, find_char, split_loop, split}
use restuarant_ordering_csf.Util.Parts.{
  parts, parts-ne-nil, parts_whole, parts_first, parts-Lacks, parts-Lacks_other, parts-join, join,
}

module _ {ℓ} {A : Type ℓ} where
  drop-nil : (n : ℕ) → drop {A = A} n [] ≡ []
  drop-nil zero = refl
  drop-nil (suc n) = refl

  drop-suc : (n : ℕ) (x : A) (xs : List A) → drop (suc n) (x ∷ xs) ≡ drop n xs
  drop-suc n x xs = refl

  drop-drop : (m n : ℕ) (xs : List A) → drop m (drop n xs) ≡ drop (n + m) xs
  drop-drop m zero xs = ap (λ k. drop k xs) (omega arith)
  drop-drop m (suc n) [] = drop-nil m ∙ sym (drop-nil (suc n + m))
  drop-drop m (suc n) (x ∷ xs) =
      drop-drop m n xs
      ∙ ap (λ k. drop k (x ∷ xs)) (let e : suc (n + m) ≡ suc n + m = omega arith in e)

drop_past : (i pos : ℕ) (s : Text) → drop (suc i) (drop pos s) ≡ drop (suc (pos + i)) s
drop_past i pos s =
    drop-drop (suc i) pos s
    ∙ ap (λ k. drop k s) (let e : pos + suc i ≡ suc (pos + i) = omega arith in e)

-- What the search for a separator finds.
abbrev Found : ℕ → Text → Option ℕ → Type 0
Found sep s none = Lacks sep s
Found sep s (some i) =
    (s ≡ take i s ++ sep ∷ drop (suc i) s)
    × Lacks sep (take i s)
    × (length (drop (suc i) s) < length s)

Found-next :
    (sep c : ℕ) (s : Text) (o : Option ℕ) → c ≢ sep → Found sep s o → Found sep (c ∷ s) (next o)
Found-next sep c s none h f = (h, f)
Found-next sep c s (some i) h (e, l, lt) = (ap (◌∷◌ c) e, (h, l), omega arith)

find_char-Found : (sep : ℕ) (s : Text) → Found sep s (find_char sep s)
unfolding find_char
find_char-Found sep [] = tt
find_char-Found sep (c ∷ s) = elim (Bool-cases (c == sep)) [
  | inl hit ↦ rw hit (ap (λ (x : ℕ). x ∷ s) (eq_sound c sep hit), tt, omega arith)
  | inr miss ↦ rw miss (Found-next sep c s _ (ground arith) (find_char-Found sep s))
]

-- One round, by what the search found.
last_round :
    (rounds : ℕ) (s : Text) (sep pos : ℕ) (v : List Text)
    → find_char sep (drop pos s) ≡ none
    → split_loop (suc rounds) s sep pos v ≡ v ++ drop pos s ∷ []
unfolding split_loop
last_round rounds s sep pos v e = rw (split_loop, e)

middle_round :
    (rounds : ℕ) (s : Text) (sep pos : ℕ) (v : List Text) (i : ℕ)
    → find_char sep (drop pos s) ≡ some i
    → split_loop (suc rounds) s sep pos v
      ≡ split_loop rounds s sep (suc (pos + i)) (v ++ take i (drop pos s) ∷ [])
unfolding split_loop
middle_round rounds s sep pos v i e =
    rw (split_loop, e)
      (ap (λ k. split_loop rounds s sep (suc (pos + i)) (v ++ take k (drop pos s) ∷ []))
        (omega arith))

split_loop-parts :
    (rounds : ℕ) (s : Text) (sep pos : ℕ) (v : List Text)
    → length (drop pos s) < rounds
    → split_loop rounds s sep pos v ≡ v ++ parts sep (drop pos s)
split_loop-parts zero s sep pos v h = absurd (omega arith)
split_loop-parts (suc rounds) s sep pos v h = elim (Option-cases (find_char sep (drop pos s))) [
  | inl e ↦
      last_round rounds s sep pos v e
      ∙ ap (◌++◌ v)
          (sym (parts_whole sep (drop pos s) (rw e at (find_char-Found sep (drop pos s)))))
  | inr (i, e) ↦
      let (cut, clean, shorter) =
        let f : Found sep (drop pos s) (some i) = rw e at (find_char-Found sep (drop pos s)) in f in
      let step : drop (suc i) (drop pos s) ≡ drop (suc (pos + i)) s = drop_past i pos s in
      middle_round rounds s sep pos v i e
      ∙ split_loop-parts rounds s sep (suc (pos + i)) _ (rw (← step) (omega arith))
      ∙ rw (← step) (append_assoc v (take i (drop pos s) ∷ []) _)
      ∙ ap (◌++◌ v) (sym (parts_first sep (take i (drop pos s)) _ clean) ∙ ap (parts sep) (sym cut))
]

-- The loop of `split` returns the parts of the text, for every text and separator: its rounds
-- suffice and its positions are right.
pub split-eq-parts : (s : Text) (sep : ℕ) → split s sep ≡ parts sep s
unfolding split
split-eq-parts s sep = split_loop-parts (suc (length s)) s sep 0 [] (omega arith)

-- Splitting a join gives the parts back, if there is a part and none holds the separator.
pub split-join :
    (sep : ℕ) (ps : List Text) → ps ≢ [] → All (Lacks sep) ps → split (join sep ps) sep ≡ ps
split-join sep ps h clean = split-eq-parts (join sep ps) sep ∙ parts-join sep ps h clean

pub split-ne-nil : (s : Text) (sep : ℕ) → split s sep ≢ []
split-ne-nil s sep = rw split-eq-parts (parts-ne-nil sep s)

pub split-Lacks : (s : Text) (sep : ℕ) → All (Lacks sep) (split s sep)
split-Lacks s sep = rw split-eq-parts (parts-Lacks sep s)

pub split-Lacks_other : (s : Text) (sep b : ℕ) → Lacks b s → All (Lacks b) (split s sep)
split-Lacks_other s sep b h = rw split-eq-parts (parts-Lacks_other sep b s h)
