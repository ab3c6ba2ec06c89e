-- ===== src/Bacnet/Files.antt =====
-- protocols/bacnet.py, `_absorb_file_data`, `_flush_file_buffer` and `finalize`: the files that are
-- put together from the chunks of file transfers.
use pcap_decode.Base.{
  ℕ, suc, ◌+◌, ◌-◌, ◌*◌, ◌^◌, min, max, Bool, true, false, ◌&&◌, not, Option, none, some, List, [],
  ◌∷◌, ◌++◌, ltb, ◌==◌, if◌then◌else◌, length, take, drop, replicate,
}
use pcap_decode.Base.Equality.{nat_eq, list_eq, pair_eq, option_eq}
use pcap_decode.Base.Int.{ℤ, pos, negsuc, pos_part, leb_ℤ, ltb_ℤ, ◌+ℤ◌, ◌-ℤ◌}
use pcap_decode.Base.Bytes.{Bytes, Result, ok, ◌>>=◌}
use pcap_decode.Base.Dict.{Dict, lookup, insert, erase}
use pcap_decode.Models.{Text, text, number_text, decimal_text, FlowKey, Packet, flow_key}
use pcap_decode.Bacnet.Tables.{object_types, tag_boolean, tag_signed, tag_octet_string}
use pcap_decode.Bacnet.Tags.{ObjectId, Tag}

-- `table.get(n, f"{prefix}{n}")`
unfoldable pub name_of : List (ℕ × Text) → Text → ℕ → Text
name_of table prefix n = elim (lookup n table) [ none ↦ prefix ++ number_text n | some name ↦ name ]

-- The same for a number that may have too many digits.
unfoldable pub formatted_name : List (ℕ × Text) → Text → ℕ → Result Text
formatted_name table prefix n = elim (lookup n table) [
  | none ↦ decimal_text n >>= λ digits. ok (prefix ++ digits)
  | some name ↦ ok name
]

unfoldable pub object_id_name : ObjectId → Text
object_id_name (object_type, instance_number) =
    name_of object_types (text "object-type-") object_type ++ (58 ∷ number_text instance_number)

-- `int.from_bytes(value, "big")`
unfoldable pub from_bytes : Bytes → ℕ
from_bytes [] = 0
from_bytes (b ∷ d) = b * 256 ^ length d + from_bytes d

-- `int.from_bytes(value, "big", signed=True)`
unfoldable pub from_bytes_signed : Bytes → ℤ
from_bytes_signed d =
    let n = from_bytes d in
    if ltb (2 * n) (256 ^ length d) then pos n else negsuc (256 ^ length d - n - 1)

-- What `_absorb_file_data` reads of the tags.
pub record Transfer : Type 0 where
  pub end_of_file : Bool
  pub start_position : Option ℤ
  pub chunks : List Bytes

abbrev pub no_transfer : Transfer
no_transfer = record { end_of_file = false; start_position = none; chunks = [] }

abbrev is_none {ℓ} : {A : Type ℓ} → Option A → Bool
is_none none = true
is_none (some a) = false

-- The step of its `for` loop.
unfoldable pub read_transfer_tag : Tag → Transfer → Transfer
read_transfer_tag t x =
    if t.is_context
    then x
    else if t.tag_number == tag_boolean
    then record x { end_of_file = not (t.lvt == 0) }
    else if t.tag_number == tag_signed && (is_none x.start_position && ltb 0 (length t.value))
    then record x { start_position = some (from_bytes_signed t.value) }
    else if t.tag_number == tag_octet_string && ltb 0 (length t.value)
    then record x { chunks = x.chunks ++ (t.value ∷ []) }
    else x

unfoldable pub read_transfer : List Tag → Transfer → Transfer
read_transfer [] x = x
read_transfer (t ∷ ts) x = read_transfer ts (read_transfer_tag t x)

pub record FileBuffer : Type 0 where
  pub payload : Bytes
  pub flow : Option FlowKey
  pub timestamp : ℕ
  pub file_oid : ObjectId
  pub direction : Text
  pub truncated : Bool

-- The direction, the addresses and the file.
abbrev pub FileKey : Type 0
FileKey = (Text × Option Text) × (Option Text × ObjectId)

abbrev pub FileBuffers : Type 0
FileBuffers = Dict FileKey FileBuffer

abbrev pub new_buffer : Packet → ObjectId → Text → FileBuffer
new_buffer p file_oid direction = record {
  payload = [];
  flow = flow_key p;
  timestamp = p.timestamp;
  file_oid = file_oid;
  direction = direction;
  truncated = false;
}

-- `if end > len(data): data.extend(b"\x00" * (end - len(data)))`
unfoldable pub extend_to : ℤ → Bytes → Bytes
extend_to end d = d ++ replicate (pos_part end - length d) 0

-- The place of an index in a slice of `n` bytes: a negative one counts from the end.
abbrev pub slice_index : ℕ → ℤ → ℕ
slice_index n (pos i) = min i n
slice_index n (negsuc i) = n - suc i

-- `data[position:end] = chunk`
unfoldable pub assign_slice : ℤ → ℤ → Bytes → Bytes → Bytes
assign_slice position end chunk d =
    let start = slice_index (length d) position in
    let stop = max start (slice_index (length d) end) in take start d ++ (chunk ++ drop stop d)

-- The bytes of a chunk that fit, and the position behind them.
abbrev pub fitting : ℕ → ℤ → Bytes → Bytes
fitting cap position chunk =
    let room = pos cap -ℤ position in
    if ltb_ℤ room (pos (length chunk)) then take (pos_part room) chunk else chunk

abbrev pub end_of : ℕ → ℤ → Bytes → ℤ
end_of cap position chunk = position +ℤ pos (length (fitting cap position chunk))

-- A chunk at `position`, where there is room.
unfoldable pub write_chunk : ℕ → ℤ → Bytes → FileBuffer → FileBuffer
write_chunk cap position chunk b =
    let end = end_of cap position chunk in
    record b {
      truncated = if ltb_ℤ (pos cap -ℤ position) (pos (length chunk)) then true else b.truncated;
      payload = assign_slice position end (fitting cap position chunk) (extend_to end b.payload);
    }

-- The `for` loop over the chunks.
unfoldable pub write_chunks : ℕ → List Bytes → ℤ → FileBuffer → FileBuffer
write_chunks cap [] position b = b
write_chunks cap (chunk ∷ cs) position b =
    let rest = write_chunks cap cs (end_of cap position chunk) (write_chunk cap position chunk b) in
    if leb_ℤ (pos cap -ℤ position) (pos 0) then record b { truncated = true } else rest

pub record FileCandidate : Type 0 where
  pub payload : Bytes
  pub filename : Text
  pub flow : Option FlowKey
  pub timestamp : ℕ
  pub bacnet_file_object : Text
  pub transfer_direction : Text
  pub truncated : Bool

-- `name.replace(":", "_")`
unfoldable pub replace_colon : Text → Text
replace_colon [] = []
replace_colon (c ∷ s) = (if c == 58 then 95 else c) ∷ replace_colon s

abbrev pub file_candidate : FileBuffer → FileCandidate
file_candidate b = record {
  payload = b.payload;
  filename = text "bacnet_" ++ (replace_colon (object_id_name b.file_oid) ++ text ".bin");
  flow = b.flow;
  timestamp = b.timestamp;
  bacnet_file_object = object_id_name b.file_oid;
  transfer_direction = b.direction;
  truncated = b.truncated;
}

abbrev pub candidates_of : FileBuffer → List FileCandidate
candidates_of b = if ltb 0 (length b.payload) then file_candidate b ∷ [] else []

-- `_flush_file_buffer`
unfoldable pub flush_file_buffer : FileKey → FileBuffers → List FileCandidate × FileBuffers
flush_file_buffer k bs = elim (lookup k bs) [
  | none ↦ ([], bs)
  | some b ↦ (candidates_of b, erase k bs)
]

abbrev pub file_key : Text → Packet → ObjectId → FileKey
file_key direction p file_oid = ((direction, p.src_ip), (p.dst_ip, file_oid))

-- The buffer of a transfer, a new one where there is none.
unfoldable pub find_buffer : Packet → ObjectId → Text → FileBuffers → FileBuffer
find_buffer p file_oid direction bs = elim (lookup (file_key direction p file_oid) bs) [
  | none ↦ new_buffer p file_oid direction
  | some b ↦ b
]

abbrev pub position_of : Transfer → FileBuffer → ℤ
position_of x b = elim x.start_position [ none ↦ pos (length b.payload) | some position ↦ position ]

-- `_absorb_file_data`, on the tags of the body.
unfoldable pub absorb_file_data :
    ℕ → List Tag → Packet → ObjectId → Text → FileBuffers → List FileCandidate × FileBuffers
absorb_file_data cap tags p file_oid direction bs =
    let x = read_transfer tags no_transfer in
    let b = find_buffer p file_oid direction bs in
    let k = file_key direction p file_oid in
    let stored = insert k (write_chunks cap x.chunks (position_of x b) b) bs in
    if length x.chunks == 0 && not x.end_of_file
    then ([], bs)
    else if x.end_of_file
    then flush_file_buffer k stored
    else ([], stored)

-- `finalize`: the buffers in order, each of them flushed.
unfoldable pub flush_all : List FileKey → FileBuffers → List FileCandidate × FileBuffers
flush_all [] bs = ([], bs)
flush_all (k ∷ ks) bs =
    let (found, bs') = flush_file_buffer k bs in
    let (rest, bs'') = flush_all ks bs' in (found ++ rest, bs'')
