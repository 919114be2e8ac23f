-- ===== src/Util/Parts.antt =====
-- An independent description of the parts of a text between separators, with its laws.
use restuarant_ordering_csf.Base.{
  ℕ, List, [], ◌∷◌, ◌++◌, ◌≡◌, ◌≢◌, refl, ap, ◌∙◌, arith, Text, nat_eq, ◌==◌, if◌then◌else◌, All,
  Lacks,
}

abbrev pub cons_head : ℕ → List Text → List Text
cons_head c [] = (c ∷ []) ∷ []
cons_head c (p ∷ ps) = (c ∷ p) ∷ ps

-- The parts of a text between the separators, by recursion on the text.
unfoldable pub parts : ℕ → Text → List Text
parts sep [] = [] ∷ []
parts sep (c ∷ s) = let rest = parts sep s in if c == sep then [] ∷ rest else cons_head c rest

-- The parts with separators between them.
unfoldable pub join : ℕ → List Text → Text
join sep [] = []
join sep (p ∷ []) = p
join sep (p ∷ q ∷ ps) = p ++ sep ∷ join sep (q ∷ ps)

pub parts-ne-nil : (sep : ℕ) (s : Text) → parts sep s ≢ []
unfolding parts
parts-ne-nil sep [] h = cc
parts-ne-nil sep (c ∷ s) h = ground (arith, parts-ne-nil sep s)

pub parts-Lacks : (sep : ℕ) (s : Text) → All (Lacks sep) (parts sep s)
unfolding parts
parts-Lacks sep [] = (tt, tt)
parts-Lacks sep (c ∷ s) = ground (arith, parts-Lacks sep s)

-- A text with no separator is its only part.
pub parts_whole : (sep : ℕ) (p : Text) → Lacks sep p → parts sep p ≡ p ∷ []
unfolding parts
parts_whole sep [] h = refl
parts_whole sep (c ∷ p) (hc, h) = ground (arith, parts_whole sep p h)

-- A separator behind a text without one ends the first part.
pub parts_first : (sep : ℕ) (p s : Text) → Lacks sep p → parts sep (p ++ sep ∷ s) ≡ p ∷ parts sep s
unfolding parts
parts_first sep [] s h = ground arith
parts_first sep (c ∷ p) s (hc, h) = ground (arith, parts_first sep p s h)

pub parts-join :
    (sep : ℕ) (ps : List Text) → ps ≢ [] → All (Lacks sep) ps → parts sep (join sep ps) ≡ ps
unfolding join
parts-join sep [] h _ = absurd (h refl)
parts-join sep (p ∷ []) _ (hp, _) = parts_whole sep p hp
parts-join sep (p ∷ q ∷ ps) _ (hp, hps) =
    parts_first sep p _ hp ∙ ap (◌∷◌ p) (parts-join sep (q ∷ ps) (λ e. cc) hps)

-- What the text lacks, its parts lack.
pub parts-Lacks_other : (sep b : ℕ) (s : Text) → Lacks b s → All (Lacks b) (parts sep s)
unfolding parts
parts-Lacks_other sep b [] h = (tt, tt)
parts-Lacks_other sep b (c ∷ s) (hc, h) = ground (arith, parts-Lacks_other sep b s h)
