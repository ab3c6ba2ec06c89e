-- ===== src/Bacnet/Tags.antt =====
-- protocols/bacnet.py, `decode_object_id`, `read_tag` and `iter_tags`: the tagged values of an APDU.
use pcap_decode.Base.{
  ℕ, zero, suc, ◌+◌, ◌/◌, ◌%◌, ◌^◌, Bool, true, false, ◌&&◌, ◌||◌, not, Option, none, some, List,
  [], ◌∷◌, leb, ltb, ◌==◌, if◌then◌else◌, length,
}
use pcap_decode.Base.Bytes.{Bytes, Result, ok, ◌>>=◌, at, unpack, slice, u16, u32, big, bit}
use pcap_decode.Bacnet.Tables.{tag_boolean}

-- The type and the instance of an object.
abbrev pub ObjectId : Type 0
ObjectId = ℕ × ℕ

unfoldable pub decode_object_id : Bytes → Result (Option ObjectId)
decode_object_id raw =
    if length raw == 4
    then (do h ← unpack 4 raw; ok (some (u32 big h 0 / 2 ^ 22 % 1024, u32 big h 0 % 2 ^ 22)))
    else ok none

pub record Tag : Type 0 where
  pub tag_number : ℕ
  pub is_context : Bool
  pub lvt : ℕ
  pub value : Bytes
  pub next_offset : ℕ

-- A length byte `len` at `offset`: 254 and 255 announce two and four bytes.
unfoldable pub long_length : Bytes → ℕ → ℕ → Result (Option (ℕ × ℕ))
long_length d len offset =
    if len == 254
    then (if ltb (length d) (offset + 3) then ok none else (do
      h ← unpack 2 (slice d (offset + 1) (offset + 3))
      ok (some (u16 big h 0, offset + 3))))
    else if len == 255
    then (if ltb (length d) (offset + 5) then ok none else (do
      h ← unpack 4 (slice d (offset + 1) (offset + 5))
      ok (some (u32 big h 0, offset + 5))))
    else ok (some (len, offset + 1))

-- The length of a value and the offset behind it, as `lvt` and the bytes at `offset` give them.
unfoldable pub read_length : Bytes → ℕ → ℕ → Result (Option (ℕ × ℕ))
read_length d lvt offset =
    if lvt == 5
    then (if leb (length d) offset
        then ok none
        else (do len ← at d offset; long_length d len offset))
    else ok (some (lvt, offset))

abbrev pub tag_at : ℕ → Bool → ℕ → Bytes → ℕ → Tag
tag_at tag_number is_context lvt value next_offset = record {
  tag_number = tag_number;
  is_context = is_context;
  lvt = lvt;
  value = value;
  next_offset = next_offset;
}

-- An opening or closing tag, or a boolean: it has no value.
abbrev pub is_bare : ℕ → Bool → ℕ → Bool
is_bare tag_number is_context lvt =
    is_context && (lvt == 6 || lvt == 7) || not is_context && tag_number == tag_boolean

-- The value of the length and at the start that were found.
unfoldable pub take_value : Bytes → ℕ → Bool → ℕ → Option (ℕ × ℕ) → Result (Option Tag)
take_value d tag_number is_context lvt none = ok none
take_value d tag_number is_context lvt (some (len, start)) =
    if ltb (length d) (start + len)
    then ok none
    else ok (some (tag_at tag_number is_context lvt (slice d start (start + len)) (start + len)))

-- `read_tag` behind the tag number.
unfoldable pub read_value : Bytes → ℕ → Bool → ℕ → ℕ → Result (Option Tag)
read_value d tag_number is_context lvt offset =
    if is_bare tag_number is_context lvt
    then ok (some (tag_at tag_number is_context lvt [] offset))
    else read_length d lvt offset >>= take_value d tag_number is_context lvt

-- `read_tag` behind the control byte.
unfoldable pub read_number : Bytes → ℕ → ℕ → Result (Option Tag)
read_number d control offset =
    if control / 16 == 15
    then (if leb (length d) offset then ok none else (do
      tag_number ← at d offset
      read_value d tag_number (bit control 3) (control % 8) (offset + 1)))
    else read_value d (control / 16) (bit control 3) (control % 8) offset

unfoldable pub read_tag : Bytes → ℕ → Result (Option Tag)
read_tag d offset =
    if leb (length d) offset
    then ok none
    else (do control ← at d offset; read_number d control (offset + 1))

-- The tags that `iter_tags(data, offset, limit)` yields.
unfoldable pub iter_tags : Bytes → ℕ → ℕ → Result (List Tag)
iter_tags d offset zero = ok []
iter_tags d offset (suc limit) = elim (leb (length d) offset) [
  | true ↦ ok []
  | false ↦ read_tag d offset >>= λ found. elim found [
    | none ↦ ok []
    | some t ↦ elim (leb t.next_offset offset) [
      | true ↦ ok (t ∷ [])
      | false ↦ iter_tags d t.next_offset limit >>= λ ts. ok (t ∷ ts)
    ]
  ]
]
