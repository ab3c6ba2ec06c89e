-- ===== src/Base/Strings.antt =====
-- Python's string methods on `bytes` and on texts of the Latin-1 range: `strip`, `split`, `lower`,
-- `int`, and slices whose bounds may be negative.
use pcap_decode.Base.{
  ℕ, zero, suc, ◌+◌, ◌-◌, ◌*◌, ◌≡◌, refl, Bool, true, false, ◌&&◌, ◌||◌, not, Option, none, some,
  List, [], ◌∷◌, leb, ltb, ◌==◌, if◌then◌else◌, length, take, drop, All,
}
use pcap_decode.Base.Bytes.{Bytes, slice}
use pcap_decode.Base.Int.{ℤ, pos, negsuc, ltb_ℤ}
use pcap_decode.Base.Search.{find}

-- The white space of `bytes`.
abbrev pub is_space : ℕ → Bool
is_space c = c == 32 || (leb 9 c && leb c 13)

-- The white space of texts.
abbrev pub is_space_char : ℕ → Bool
is_space_char c = is_space c || ((leb 28 c && leb c 31) || (c == 133 || c == 160))

-- Python's `lstrip` and `rstrip`, for the characters of a test.
unfoldable pub lstrip : (ℕ → Bool) → Bytes → Bytes
lstrip p [] = []
lstrip p (c ∷ d) = let rest = lstrip p d in if p c then rest else c ∷ d

unfoldable pub rstrip : (ℕ → Bool) → Bytes → Bytes
rstrip p [] = []
rstrip p (c ∷ d) = let rest = rstrip p d in if p c && length rest == 0 then [] else c ∷ rest

abbrev pub strip : (ℕ → Bool) → Bytes → Bytes
strip p d = rstrip p (lstrip p d)

-- `d.split(sep)`: a round for each match takes a byte at least.
unfoldable pub split_fuel : ℕ → Bytes → Bytes → List Bytes
split_fuel zero sep d = d ∷ []
split_fuel (suc fuel) sep d = elim (find sep d) [
  | none ↦ d ∷ []
  | some i ↦ take i d ∷ split_fuel fuel sep (drop (i + length sep) d)
]

abbrev pub split : Bytes → Bytes → List Bytes
split sep d = split_fuel (suc (length d)) sep d

-- `lower()` of a character.
abbrev pub lower_char : ℕ → ℕ
lower_char c =
    if (leb b'A' c && leb c b'Z') || (leb 192 c && (leb c 222 && not (c == 215))) then c + 32 else c

unfoldable pub lower_text : Bytes → Bytes
lower_text [] = []
lower_text (c ∷ d) = lower_char c ∷ lower_text d

-- A digit of a number in base 16.
abbrev pub hex_digit : ℕ → ℕ
hex_digit n = if ltb n 10 then 48 + n else 87 + n

-- The value of a digit or letter.
unfoldable pub digit_value : ℕ → Option ℕ
digit_value c =
    if leb b'0' c && leb c b'9'
    then some (c - 48)
    else if leb b'a' c && leb c b'z'
    then some (c - 87)
    else if leb b'A' c && leb c b'Z'
    then some (c - 55)
    else none

-- A digit below the base.
unfoldable pub digit_in : ℕ → ℕ → Option ℕ
digit_in base c = elim (digit_value c) [
  | none ↦ none
  | some v ↦ if ltb v base then some v else none
]

-- The digits of a number behind `n`, single underscores between them; `after` says whether a digit
-- was read just before.
unfoldable pub int_digits : ℕ → Bytes → ℕ → Bool → Option ℕ
int_digits base [] n after = if after then some n else none
int_digits base (c ∷ d) n after = elim (c == b'_') [
  | true ↦ elim after [ true ↦ int_digits base d n false | false ↦ none ]
  | false ↦ elim (digit_in base c) [ none ↦ none | some v ↦ int_digits base d (n * base + v) true ]
]

-- For base 16 the digits may follow "0x", and one underscore.
unfoldable pub int_prefix : ℕ → Bytes → Bytes
int_prefix base (z ∷ x ∷ u ∷ d) =
    if base == 16 && (z == b'0' && (x == b'x' || x == b'X'))
    then (if u == b'_' then d else u ∷ d)
    else z ∷ x ∷ u ∷ d
int_prefix base d = d

abbrev negate : ℕ → ℤ
negate zero = pos 0
negate (suc n) = negsuc n

abbrev pub to_negative : Option ℕ → Option ℤ
to_negative none = none
to_negative (some n) = some (negate n)

abbrev pub to_positive : Option ℕ → Option ℤ
to_positive none = none
to_positive (some n) = some (pos n)

-- The number with its sign.
unfoldable pub int_signed : ℕ → Bytes → Option ℤ
int_signed base [] = none
int_signed base (c ∷ d) =
    if c == b'-'
    then to_negative (int_digits base (int_prefix base d) 0 false)
    else if c == b'+'
    then to_positive (int_digits base (int_prefix base d) 0 false)
    else to_positive (int_digits base (int_prefix base (c ∷ d)) 0 false)

-- `int(d, base)` of `bytes`, and `int(d)` of a text, with `none` for `ValueError`.
unfoldable pub int_of_bytes : ℕ → Bytes → Option ℤ
int_of_bytes base d = int_signed base (strip is_space d)

-- The spaces that `int` takes around the digits of a text: 28 to 31 are not among them.
abbrev pub is_int_space : ℕ → Bool
is_int_space c = is_space c || (c == 133 || c == 160)

unfoldable pub int_of_text : Bytes → Option ℤ
int_of_text d = int_signed 10 (strip is_int_space d)

-- The position that a bound of a slice stands for in data of length `n`.
abbrev pub bound_at : ℕ → ℤ → ℕ
bound_at n (pos i) = i
bound_at n (negsuc i) = n - suc i

-- `d[a:]` and `d[a:b]`
abbrev pub slice_from : Bytes → ℤ → Bytes
slice_from d a = drop (bound_at (length d) a) d

abbrev pub slice_between : Bytes → ℤ → ℤ → Bytes
slice_between d a b = slice d (bound_at (length d) a) (bound_at (length d) b)

-- `min(n, a)`
abbrev pub min_ℤ : ℕ → ℤ → ℤ
min_ℤ n a = if ltb_ℤ a (pos n) then a else pos n

-- No character of the list is a minus sign.
abbrev pub NoMinus : Bytes → Type 0
NoMinus = All (λ c. (c == b'-') ≡ false)

-- Numbers with a sign.
numbers : int_of_bytes 16 (b'-' ∷ b'1' ∷ b'_' ∷ b'F' ∷ b' ' ∷ []) ≡ some (negsuc 30)
unfolding int_of_bytes int_signed int_digits int_prefix digit_in digit_value lstrip rstrip
numbers = refl
