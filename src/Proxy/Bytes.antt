-- ===== src/Proxy/Bytes.antt =====
-- Package bytes, as far as internal/proxy/streaming.go uses it; a byte is a number below 256.
use agent_ledger.Base.{
  ℕ, zero, suc, ◌+◌, ◌≡◌, Bool, true, false, ◌&&◌, ◌||◌, ◌==◌, leb, Option, none, some, List, [],
  ◌∷◌, if◌then◌else◌, arith, length, Option-cases, inl, inr,
}

abbrev pub Bytes : Type 0
Bytes = List ℕ

-- What follows a prefix: HasPrefix and TrimPrefix in one.
unfoldable pub strip_prefix : Bytes → Bytes → Option Bytes
strip_prefix [] xs = some xs
strip_prefix (p ∷ ps) [] = none
strip_prefix (p ∷ ps) (x ∷ xs) = if p == x then strip_prefix ps xs else none

-- bytes.Equal, and the comparison of two strings.
unfoldable pub bytes_eq : Bytes → Bytes → Bool
bytes_eq [] [] = true
bytes_eq [] (b ∷ bs) = false
bytes_eq (a ∷ rest) [] = false
bytes_eq (a ∷ rest) (b ∷ bs) = a == b && bytes_eq rest bs

-- The bytes before the first occurrence of a separator, and those behind it (Index and slices).
unfoldable pub cut : Bytes → Bytes → Option (Bytes × Bytes)
cut sep [] = none
cut sep (x ∷ xs) = elim (strip_prefix sep (x ∷ xs)) [
  | some rest ↦ some ([], rest)
  | none ↦ elim (cut sep xs) [ none ↦ none | some (before, rest) ↦ some (x ∷ before, rest) ]
]

onto_first : ℕ → List Bytes → List Bytes
onto_first b [] = (b ∷ []) ∷ []
onto_first b (l ∷ ls) = (b ∷ l) ∷ ls

-- Split at each line feed.
pub split_lines : Bytes → List Bytes
unfolding onto_first
split_lines [] = [] ∷ []
split_lines (b ∷ bs) = let rest = split_lines bs in if b == 10 then [] ∷ rest else onto_first b rest

-- TrimRight of carriage returns.
pub trim_right_cr : Bytes → Bytes
trim_right_cr [] = []
trim_right_cr (b ∷ bs) = elim (trim_right_cr bs) [
  | [] ↦ if b == 13 then [] else b ∷ []
  | c ∷ cs ↦ b ∷ c ∷ cs
]

-- The white space of Unicode in UTF-8, of one, two and three bytes.
white₁ : ℕ → Bool
white₁ b = (leb 9 b && leb b 13) || b == 32

white₂ : ℕ → ℕ → Bool
white₂ b c = b == 194 && (c == 133 || c == 160)

white₃ : ℕ → ℕ → ℕ → Bool
white₃ b c d =
    (b == 225 && c == 154 && d == 128)
    || (b == 226 && c == 128 && ((leb 128 d && leb d 138) || d == 168 || d == 169 || d == 175))
    || (b == 226 && c == 129 && d == 159)
    || (b == 227 && c == 128 && d == 128)

-- How many bytes of white space a text begins with, at most one character; `back` reads backwards.
white_width : Bool → Bytes → ℕ
white_width back [] = 0
white_width back (b ∷ bs) = if white₁ b then 1 else elim bs [
  | [] ↦ 0
  | c ∷ cs ↦ if (if back then white₂ c b else white₂ b c) then 2 else elim cs [
    | [] ↦ 0
    | d ∷ ds ↦ if (if back then white₃ d c b else white₃ b c d) then 3 else 0
  ]
]

-- White space dropped from the front; the number says how many bytes of a character are left.
trim_front : Bool → ℕ → Bytes → Bytes
trim_front back n [] = []
trim_front back (suc n) (b ∷ bs) = trim_front back n bs
trim_front back zero (b ∷ bs) = elim (white_width back (b ∷ bs)) [
  | zero ↦ b ∷ bs
  | suc n ↦ trim_front back n bs
]

reverse_onto : Bytes → Bytes → Bytes
reverse_onto acc [] = acc
reverse_onto acc (b ∷ bs) = reverse_onto (b ∷ acc) bs

-- TrimSpace
pub trim_space : Bytes → Bytes
trim_space bs = reverse_onto [] (trim_front true 0 (reverse_onto [] (trim_front false 0 bs)))

pub strip_prefix-length :
    (p xs r : Bytes) → strip_prefix p xs ≡ some r → length xs ≡ length p + length r
unfolding strip_prefix
strip_prefix-length [] xs r e = ground arith
strip_prefix-length (p ∷ ps) [] r e = ground arith
strip_prefix-length (p ∷ ps) (x ∷ xs) r e = ground (arith, strip_prefix-length ps xs r)

pub cut-length :
    (sep xs before r : Bytes)
    → cut sep xs ≡ some (before, r)
    → length xs ≡ length before + length sep + length r
unfolding cut
cut-length sep [] before r e = ground arith
cut-length sep (x ∷ xs) before r e = elim (Option-cases (strip_prefix sep (x ∷ xs))) [
  | inl n ↦ elim (Option-cases (cut sep xs)) [
    | inl m ↦ ground arith
    | inr ((b, s), m) ↦ ground (arith, cut-length sep xs b s m)
  ]
  | inr (s, n) ↦ ground (arith, strip_prefix-length sep (x ∷ xs) s n)
]
