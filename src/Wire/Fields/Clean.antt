-- ===== src/Wire/Fields/Clean.antt =====
-- The four characters that structure the wire format, and the texts without them.
use restuarant_ordering_csf.Base.{
  ℕ, ℤ, pos, negsuc, IsPositive, ◌≢◌, List, [], ◌∷◌, arith, Text, All, All-map, All-append, Lacks,
}
use restuarant_ordering_csf.Numbers.{to_string, show_ℕ}
use restuarant_ordering_csf.Numbers.Print.{IsDigit, show-IsDigit}
use restuarant_ordering_csf.Model.{ClientMode, ItemStatus, OrderStatus}
use restuarant_ordering_csf.Util.Parts.{join}
use restuarant_ordering_csf.Wire.Names.{client_mode_to_str, item_status_to_str, order_status_to_str}

abbrev pub IsPlain : ℕ → Type 0
IsPlain c = (c ≢ b'|') × (c ≢ b',') × (c ≢ b';') × (c ≢ b':')

-- No separator occurs in the text.
abbrev pub IsClean : Text → Type 0
IsClean = All IsPlain

pub IsClean-Lacks-bar : (s : Text) → IsClean s → Lacks b'|' s
IsClean-Lacks-bar s = All-map IsPlain (λ c. c ≢ b'|') s (λ c h. h.0)

pub IsClean-Lacks-comma : (s : Text) → IsClean s → Lacks b',' s
IsClean-Lacks-comma s = All-map IsPlain (λ c. c ≢ b',') s (λ c h. h.1)

pub IsClean-Lacks-semicolon : (s : Text) → IsClean s → Lacks b';' s
IsClean-Lacks-semicolon s = All-map IsPlain (λ c. c ≢ b';') s (λ c h. h.2)

pub IsClean-Lacks-colon : (s : Text) → IsClean s → Lacks b':' s
IsClean-Lacks-colon s = All-map IsPlain (λ c. c ≢ b':') s (λ c h. h.3)

pub IsClean-of_Lacks :
    (s : Text) → Lacks b'|' s → Lacks b',' s → Lacks b';' s → Lacks b':' s → IsClean s
IsClean-of_Lacks [] _ _ _ _ = tt
IsClean-of_Lacks (c ∷ s) (a, as_) (b, bs) (d, ds) (e, es) =
    ((a, b, d, e), IsClean-of_Lacks s as_ bs ds es)

pub to_string-IsClean : (n : ℤ) → IsPositive n → IsClean (to_string n)
unfolding to_string
to_string-IsClean (pos n) h =
    All-map IsDigit IsPlain (show_ℕ n) (λ c d. omega arith) (show-IsDigit n)
to_string-IsClean (negsuc n) h = absurd h

pub client_mode_to_str-IsClean : (mode : ClientMode) → IsClean (client_mode_to_str mode)
unfolding client_mode_to_str
client_mode_to_str-IsClean ClientMode.invalid = omega arith
client_mode_to_str-IsClean _ = omega arith

pub item_status_to_str-IsClean : (status : ItemStatus) → IsClean (item_status_to_str status)
unfolding item_status_to_str
item_status_to_str-IsClean ItemStatus.invalid = omega arith
item_status_to_str-IsClean _ = omega arith

pub order_status_to_str-IsClean : (status : OrderStatus) → IsClean (order_status_to_str status)
unfolding order_status_to_str
order_status_to_str-IsClean OrderStatus.invalid = omega arith
order_status_to_str-IsClean _ = omega arith

-- A join lacks what its parts lack, if that is not the separator.
pub join-Lacks : (b sep : ℕ) (ps : List Text) → sep ≢ b → All (Lacks b) ps → Lacks b (join sep ps)
unfolding join
join-Lacks b sep [] ne h = tt
join-Lacks b sep (p ∷ []) ne (hp, _) = hp
join-Lacks b sep (p ∷ q ∷ ps) ne (hp, hps) =
    All-append (λ c. c ≢ b) p _ hp (ne, join-Lacks b sep (q ∷ ps) ne hps)
