-- ===== src/Bacnet/Digits.antt =====
-- protocols/bacnet.py: the numbers of a packet that is not too long have few enough digits for the
-- f-strings they are put into.
use pcap_decode.Base.{
  ℕ, zero, suc, ◌+◌, ◌*◌, ◌/◌, ◌%◌, ◌^◌, ◌≤◌, ◌<◌, ◌≡◌, refl, inl, inr, Bool, true, false, Option,
  none, some, List, [], ◌∷◌, arith, length, take, drop, leb, ltb, All, Bool-cases, length-take,
  length-drop, Option-cases, ◌==◌,
}
use pcap_decode.Base.Bytes.{
  Bytes, IsBytes, drop-IsBytes, take-IsBytes, slice, ok, ◌>>=◌, Post, bind-Post, then-Post, if-Post,
  is_ok, bind-is_ok, at, bit,
}
use pcap_decode.Base.Equality.{nat_eq}
use pcap_decode.Base.Dict.{lookup}
use pcap_decode.Models.{Text, decimal_text, max_str_digits}
use pcap_decode.Bacnet.Files.{from_bytes, formatted_name}
use pcap_decode.Bacnet.Tables.{max_tags_per_apdu}
use pcap_decode.Bacnet.Tags.{
  Tag, take_value, read_value, read_number, read_tag, iter_tags, read_length, is_bare,
}
use pcap_decode.Bacnet.Apdu.{find_enumerated, first_enumerated, error_values, code_text}

-- 256^1785 has 4299 digits.
abbrev pub longest : ℕ
longest = 1785

abbrev pub IsShort : Bytes → Type 0
IsShort d = IsBytes d × (length d ≤ longest)

pub drop-IsShort : (n : ℕ) (d : Bytes) → IsShort d → IsShort (drop n d)
drop-IsShort n d (b, h) = (drop-IsBytes n d b, omega (arith, length-drop n d))

pub take-IsShort : (n : ℕ) (d : Bytes) → IsShort d → IsShort (take n d)
take-IsShort n d (b, h) = (take-IsBytes n d b, omega (arith, length-take n d))

pub slice-IsShort : (d : Bytes) (a b : ℕ) → IsShort d → IsShort (slice d a b)
slice-IsShort d a b h = take-IsShort _ (drop a d) (drop-IsShort a d h)

mul_mono : (a b p : ℕ) → a ≤ b → a * p ≤ b * p
mul_mono a b zero h = omega arith
mul_mono a b (suc p) h = omega (arith, mul_mono a b p h)

append_digit : (b r p : ℕ) → b < 256 → r < p → b * p + r < 256 * p
append_digit b r p h k = let le : b * p ≤ 255 * p = mul_mono b 255 p (omega arith) in omega arith

power-suc : (n : ℕ) → 256 ^ suc n ≡ 256 * 256 ^ n
power-suc n = omega arith

from_bytes-lt : (d : Bytes) → IsBytes d → from_bytes d < 256 ^ length d
unfolding from_bytes
from_bytes-lt [] h = omega arith
from_bytes-lt (b ∷ d) (small, h) =
    let longer : 256 ^ length (b ∷ d) ≡ 256 * 256 ^ length d = power-suc (length d) in
    omega (arith, longer, append_digit b (from_bytes d) (256 ^ length d) small (from_bytes-lt d h))

power_le : (n m : ℕ) → n ≤ m → 256 ^ n ≤ 256 ^ m
power_le zero zero h = omega arith
power_le zero (suc m) h = omega (arith, power_le zero m (omega arith))
power_le (suc n) zero h = absurd (omega arith)
power_le (suc n) (suc m) h = omega (arith, power_le n m (omega arith))

longest-fits : ltb (256 ^ longest) (10 ^ max_str_digits) ≡ true
longest-fits = refl

ltb_trans : (n a b : ℕ) → n < a → ltb a b ≡ true → ltb n b ≡ true
ltb_trans n a b h k = ground arith

-- A value of a short text has no more digits than the limit.
pub HasDigits : ℕ → Type 0
HasDigits n = ltb n (10 ^ max_str_digits) ≡ true

from_bytes-HasDigits : (d : Bytes) → IsShort d → HasDigits (from_bytes d)
unfolding HasDigits
from_bytes-HasDigits d (b, h) =
    ltb_trans (from_bytes d) (256 ^ longest) (10 ^ max_str_digits)
      (omega (arith, from_bytes-lt d b, power_le (length d) longest h)) longest-fits

pub decimal_text-is_ok : (n : ℕ) → HasDigits n → is_ok (decimal_text n) ≡ true
unfolding decimal_text HasDigits
decimal_text-is_ok n h = rw (h, decimal_text) refl

pub formatted_name-is_ok :
    (table : List (ℕ × Text)) (prefix : Text) (n : ℕ)
    → HasDigits n
    → is_ok (formatted_name table prefix n) ≡ true
unfolding formatted_name
formatted_name-is_ok table prefix n h = elim (Option-cases (lookup n table)) [
  | inl e ↦
      rw (e, formatted_name)
        (bind-is_ok (decimal_text n) _ (decimal_text-is_ok n h) (λ digits. refl))
  | inr (name, e) ↦ rw (e, formatted_name) refl
]

-- The values of the tags of a short text are short.
abbrev ShortFound : Option Tag → Type 0
ShortFound none = Unit
ShortFound (some t) = IsShort t.value

abbrev pub ShortTags : List Tag → Type 0
ShortTags = All (λ t. IsShort t.value)

take_value-Short :
    (d : Bytes) (n : ℕ) (ctx : Bool) (lvt : ℕ) (found : Option (ℕ × ℕ))
    → IsShort d
    → Post ShortFound (take_value d n ctx lvt found)
unfolding take_value
take_value-Short d n ctx lvt none h = tt
take_value-Short d n ctx lvt (some (len, start)) h =
    if-Post ShortFound (ltb (length d) (start + len)) _ _ (λ over. tt)
      (λ within. slice-IsShort d start (start + len) h)

read_value-Short :
    (d : Bytes) (n : ℕ) (ctx : Bool) (lvt offset : ℕ)
    → IsShort d
    → Post ShortFound (read_value d n ctx lvt offset)
unfolding read_value
read_value-Short d n ctx lvt offset h =
    if-Post ShortFound (is_bare n ctx lvt) _ _ (λ bare. (tt, omega arith))
      (λ valued.
        then-Post ShortFound (read_length d lvt offset) _
          (λ found. take_value-Short d n ctx lvt found h))

read_number-Short :
    (d : Bytes) (control offset : ℕ) → IsShort d → Post ShortFound (read_number d control offset)
unfolding read_number
read_number-Short d control offset h =
    if-Post ShortFound (control / 16 == 15) _ _
      (λ extended.
        if-Post ShortFound (leb (length d) offset) _ _ (λ over. tt)
          (λ within.
            then-Post ShortFound (at d offset) _
              (λ n. read_value-Short d n (bit control 3) (control % 8) (offset + 1) h)))
      (λ plain. read_value-Short d (control / 16) (bit control 3) (control % 8) offset h)

read_tag-Short : (d : Bytes) (offset : ℕ) → IsShort d → Post ShortFound (read_tag d offset)
unfolding read_tag
read_tag-Short d offset h =
    if-Post ShortFound (leb (length d) offset) _ _ (λ over. tt)
      (λ within.
        then-Post ShortFound (at d offset) _
          (λ control. read_number-Short d control (offset + 1) h))

next_tags-Short :
    (d : Bytes) (offset limit : ℕ)
    → ((behind : ℕ) → Post ShortTags (iter_tags d behind limit))
    → (found : Option Tag) → ShortFound found
    → Post ShortTags (elim found [
      | none ↦ ok []
      | some t ↦ elim (leb t.next_offset offset) [
        | true ↦ ok (t ∷ [])
        | false ↦ iter_tags d t.next_offset limit >>= λ ts. ok (t ∷ ts)
      ]
    ])
next_tags-Short d offset limit rest none short = tt
next_tags-Short d offset limit rest (some t) short = elim (Bool-cases (leb t.next_offset offset)) [
  | inl last ↦ rw last (short, tt)
  | inr behind ↦ rw behind (
      bind-Post ShortTags ShortTags (iter_tags d t.next_offset limit) _ (rest t.next_offset)
        (λ ts more. (short, more)))
]

pub iter_tags-Short :
    (d : Bytes) (offset limit : ℕ) → IsShort d → Post ShortTags (iter_tags d offset limit)
unfolding iter_tags
iter_tags-Short d offset zero h = tt
iter_tags-Short d offset (suc limit) h = elim (Bool-cases (leb (length d) offset)) [
  | inl over ↦ rw (over, iter_tags) tt
  | inr more ↦
      rw (more, iter_tags)
        (bind-Post ShortFound ShortTags (read_tag d offset) _ (read_tag-Short d offset h)
          (next_tags-Short d offset limit (λ behind. iter_tags-Short d behind limit h)))
]

abbrev pub FoundDigits : Option ℕ → Type 0
FoundDigits none = Unit
FoundDigits (some n) = HasDigits n

find_enumerated-HasDigits : (ts : List Tag) → ShortTags ts → FoundDigits (find_enumerated ts)
unfolding find_enumerated
find_enumerated-HasDigits [] h = tt
find_enumerated-HasDigits (t ∷ ts) (short, h) =
    let rest = find_enumerated-HasDigits ts h in
    let here = from_bytes-HasDigits t.value short in ground (arith, rest, here)

pub first_enumerated-HasDigits :
    (body : Bytes) → IsShort body → Post FoundDigits (first_enumerated body)
unfolding first_enumerated
first_enumerated-HasDigits body h =
    bind-Post ShortTags FoundDigits (iter_tags body 0 max_tags_per_apdu) _
      (iter_tags-Short body 0 max_tags_per_apdu h) find_enumerated-HasDigits

pub error_values-HasDigits : (ts : List Tag) → ShortTags ts → All HasDigits (error_values ts)
unfolding error_values
error_values-HasDigits [] h = tt
error_values-HasDigits (t ∷ ts) (short, h) =
    let rest = error_values-HasDigits ts h in
    let here = from_bytes-HasDigits t.value short in ground (arith, rest, here)

pub code_text-is_ok : (codes : List ℕ) → All HasDigits codes → is_ok (code_text codes) ≡ true
unfolding code_text
code_text-is_ok [] h = refl
code_text-is_ok (n ∷ ns) h = decimal_text-is_ok n h.0
