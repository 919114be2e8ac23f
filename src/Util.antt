-- ===== src/Util.antt =====
-- include/util.h: the string helpers and the inversion of a map.
pub mod Parts
pub mod Split
pub mod Trim
use restuarant_ordering_csf.Base.{
  ℕ, zero, suc, ◌+◌, ◌-◌, List, [], ◌∷◌, ◌++◌, Option, none, some, Text, nat_eq, ◌==◌, ◌||◌, Bool,
  if◌then◌else◌, length, take, drop,
}

abbrev pub next : Option ℕ → Option ℕ
next none = none
next (some i) = some (suc i)

abbrev shift : ℕ → Option ℕ → Option ℕ
shift k none = none
shift k (some i) = some (k + i)

-- The index of the first occurrence of the character; `none` is `std::string::npos`.
pub find_char : ℕ → Text → Option ℕ
find_char sep [] = none
find_char sep (c ∷ s) = if c == sep then some 0 else next (find_char sep s)

-- `s.find(sep, pos)`
pub find : Text → ℕ → ℕ → Option ℕ
find s sep pos = shift pos (find_char sep (drop pos s))

-- `s.substr(pos, n)`
abbrev pub substr : Text → ℕ → ℕ → Text
substr s pos n = take n (drop pos s)

-- The `while (!done)` loop of `split`, at most as many rounds as the first argument says.
pub split_loop : ℕ → Text → ℕ → ℕ → List Text → List Text
unfolding find
split_loop zero s sep pos v = v
split_loop (suc rounds) s sep pos v = elim (find s sep pos) [
  | none ↦ v ++ drop pos s ∷ []
  | some sep_pos ↦ split_loop rounds s sep (suc sep_pos) (v ++ substr s pos (sep_pos - pos) ∷ [])
]

-- Each round but the last passes a character, so there is one round more than characters.
unfoldable pub split : Text → ℕ → List Text
unfolding split_loop find_char
split s sep = split_loop (suc (length s)) s sep 0 []

-- The characters " \t\n\r\f" that `trim` removes.
abbrev pub is_blank : ℕ → Bool
is_blank c = (c == 32) || ((c == 9) || ((c == 10) || ((c == 13) || (c == 12))))

-- `s.find_first_not_of(...)` and `s.find_last_not_of(...)`
unfoldable pub find_first_not_blank : Text → Option ℕ
find_first_not_blank [] = none
find_first_not_blank (c ∷ s) = if is_blank c then next (find_first_not_blank s) else some 0

-- The last index is looked for from the front here: that of the rest, if it has one.
unfoldable pub find_last_not_blank : Text → Option ℕ
find_last_not_blank [] = none
find_last_not_blank (c ∷ s) = elim (find_last_not_blank s) [
  | none ↦ if is_blank c then none else some 0
  | some i ↦ some (suc i)
]

-- The second `none` is where the assertions of `trim` would fail.
unfoldable pub trim : Text → Text
unfolding find_first_not_blank find_last_not_blank
trim s = elim (find_first_not_blank s) [
  | none ↦ []
  | some first ↦ elim (find_last_not_blank s) [
    | none ↦ []
    | some last ↦ substr s first ((last - first) + 1)
  ]
]

-- `Util::invert_map`, with the pairs in the order of the keys.
unfoldable pub invert_map {ℓ κ} : {K : Type ℓ} {V : Type κ} → List (K × V) → List (V × K)
invert_map [] = []
invert_map ((k, v) ∷ m) = (v, k) ∷ invert_map m

-- `Util::invert_unordered_map`; the order of the pairs is that of the table.
unfoldable pub invert_unordered_map {ℓ κ} : {K : Type ℓ} {V : Type κ} → List (K × V) → List (V × K)
invert_unordered_map [] = []
invert_unordered_map ((k, v) ∷ m) = (v, k) ∷ invert_unordered_map m
