-- ===== src/TcpReassembly.antt =====
-- pcap_decode/tcp_reassembly.py, `seq_diff` and `class DirectionalReassembler`: one direction of a
-- TCP connection. A method returns the changed record. Sequence numbers are below 2^32.
pub mod Stream
pub mod Rounds
pub mod Accept
pub mod Delivery
pub mod Early
use pcap_decode.Base.{
  ℕ, zero, suc, ◌+◌, ◌-◌, ◌%◌, ◌^◌, min, Bool, true, false, ◌&&◌, Option, none, some, List, [], ◌∷◌,
  ◌++◌, ltb, leb, ◌==◌, if◌then◌else◌, length, take, drop,
}
use pcap_decode.Base.Int.{ℤ, pos, negsuc, pos_part, neg_part, ltb_ℤ, leb_ℤ}
use pcap_decode.Base.Bytes.{Bytes}
use pcap_decode.Models.{FlagDict, get_syn, get_fin, get_rst, StreamSegment}

unfoldable pub seq_diff : ℕ → ℕ → ℤ
seq_diff seq1 seq2 =
    let diff = (seq1 + 2 ^ 32 - seq2 % 2 ^ 32) % 2 ^ 32 in
    if leb (2 ^ 31) diff then negsuc (2 ^ 32 - diff - 1) else pos diff

-- `(seq + n) & 0xFFFFFFFF`
abbrev pub advance : ℕ → ℕ → ℕ
advance seq n = (seq + n) % 2 ^ 32

-- An entry of `out_of_order`.
pub record Pending : Type 0 where
  pub seq : ℕ
  pub payload : Bytes
  pub timestamp : ℕ
  pub frame_num : ℕ

pub record DirectionalReassembler : Type 0 where
  pub base_seq : Option ℕ
  pub next_expected_seq : Option ℕ
  pub data_buffer : Bytes
  pub segments : List StreamSegment
  pub out_of_order : List Pending
  pub is_closed : Bool

-- `DirectionalReassembler()`
abbrev pub new_reassembler : DirectionalReassembler
new_reassembler = record {
  base_seq = none;
  next_expected_seq = none;
  data_buffer = [];
  segments = [];
  out_of_order = [];
  is_closed = false;
}

-- The arguments of `add_segment`.
pub record Arrival : Type 0 where
  pub seq : ℕ
  pub payload : Bytes
  pub flags : FlagDict
  pub timestamp : ℕ
  pub frame_num : ℕ

-- `self.next_expected_seq` where the code computes with it: it is set together with `base_seq`,
-- before any such place is reached.
abbrev pub expected : DirectionalReassembler → ℕ
expected r = elim r.next_expected_seq [ none ↦ 0 | some n ↦ n ]

abbrev pub close : Bool → DirectionalReassembler → DirectionalReassembler
close b r = if b then record r { is_closed = true } else r

-- The `StreamSegment` that is kept for the bytes `d` of `p`.
abbrev pub segment_of : Bytes → ℕ → Pending → StreamSegment
segment_of d seq p = record {
  timestamp = p.timestamp;
  frame_number = p.frame_num;
  seq = seq;
  payload = d;
}

-- `_append_data`
unfoldable pub append_data : Bytes → ℕ → Pending → DirectionalReassembler → DirectionalReassembler
append_data d seq p r = record r {
  data_buffer = r.data_buffer ++ d;
  segments = r.segments ++ (segment_of d seq p ∷ []);
  next_expected_seq = some (advance (expected r) (length d));
}

-- Appends `p` without its first `n` bytes, with the sequence number `overlap` after its own.
unfoldable pub append_from : ℕ → ℕ → Pending → DirectionalReassembler → DirectionalReassembler
append_from n overlap p = append_data (drop n p.payload) (advance p.seq overlap) p

-- Appends what of `p` lies past the first `overlap` bytes.
unfoldable pub append_past : ℕ → Pending → DirectionalReassembler → DirectionalReassembler
unfolding append_from
append_past overlap p = append_from overlap overlap p

-- The bytes that `data[overlap:]` leaves out in `add_segment`, and what `overlap` is compared as. It
-- is the distance from `seq` to the expected number. Where that is 2^31 it is negative: -2^31 is below
-- every length, and as the start of a slice it leaves nothing out of shorter data.
unfoldable pub skip : ℕ → ℕ
skip overlap = if overlap == 2 ^ 31 then 0 else overlap

-- The variables of one round of the `while` loop of `_process_out_of_order`.
pub record Pass : Type 0 where
  pub state : DirectionalReassembler
  pub remaining : List Pending
  pub progress : Bool

-- One step of its `for` loop.
unfoldable pub process_pending : Pending → Pass → Pass
process_pending p s =
    let diff = seq_diff p.seq (expected s.state) in
    let overlap = neg_part diff in
    if leb_ℤ diff (pos 0)
    then if ltb overlap (length p.payload)
      then record s { state = append_past overlap p s.state; progress = true }
      else s
    else record s { remaining = s.remaining ++ (p ∷ []) }

unfoldable pub process_all : List Pending → Pass → Pass
process_all [] s = s
process_all (p ∷ ps) s = process_all ps (process_pending p s)

-- One round: the `for` loop, then the assignment to `out_of_order`.
unfoldable pub round : DirectionalReassembler → Pass
round r =
    let s = process_all r.out_of_order (record { state = r; remaining = []; progress = false }) in
    record s { state = record (s.state) { out_of_order = s.remaining } }

-- The `while` loop, on fuel: a round that makes progress shortens `out_of_order`.
unfoldable pub rounds : ℕ → DirectionalReassembler → DirectionalReassembler
rounds zero r = r
rounds (suc fuel) r = elim r.out_of_order [
  | [] ↦ r
  | p ∷ ps ↦ let s = round r in elim s.progress [ true ↦ rounds fuel s.state | false ↦ s.state ]
]

-- `_process_out_of_order`
unfoldable pub process_out_of_order : DirectionalReassembler → DirectionalReassembler
process_out_of_order r = rounds (length r.out_of_order) r

-- `self.out_of_order.sort(key=lambda item: item[0])`, a stable sort.
unfoldable pub insert_by_seq : Pending → List Pending → List Pending
insert_by_seq p [] = p ∷ []
insert_by_seq p (q ∷ qs) = if leb p.seq q.seq then p ∷ q ∷ qs else q ∷ insert_by_seq p qs

unfoldable pub sort_by_seq : List Pending → List Pending
sort_by_seq [] = []
sort_by_seq (p ∷ ps) = insert_by_seq p (sort_by_seq ps)

abbrev pub pending_of : Arrival → Pending
pending_of a = record {
  seq = a.seq;
  payload = a.payload;
  timestamp = a.timestamp;
  frame_num = a.frame_num;
}

-- The part of `add_segment` from `expected = self.next_expected_seq` on.
unfoldable pub accept : Arrival → DirectionalReassembler → DirectionalReassembler
accept a r =
    let p = pending_of a in
    let diff = seq_diff a.seq (expected r) in
    let overlap = neg_part diff in
    close (get_fin a.flags) (
      if a.seq == expected r
      then process_out_of_order (append_data a.payload a.seq p r)
      else if ltb_ℤ diff (pos 0)
      then (if ltb (skip overlap) (length a.payload)
          then process_out_of_order (append_from (skip overlap) overlap p r)
          else r)
      else process_out_of_order
          (record r { out_of_order = sort_by_seq (r.out_of_order ++ (p ∷ [])) }))

-- The first data of a direction whose SYN was not seen.
unfoldable pub start_midway : Arrival → DirectionalReassembler → DirectionalReassembler
start_midway a r = record r {
  base_seq = some a.seq;
  next_expected_seq = some (advance a.seq (length a.payload));
  data_buffer = r.data_buffer ++ a.payload;
  segments = r.segments ++ (segment_of a.payload a.seq (pending_of a) ∷ []);
}

-- The bytes of a segment that starts before `base_seq`, up to it.
unfoldable pub prepend : ℕ → Arrival → DirectionalReassembler → DirectionalReassembler
prepend n a r = record r {
  base_seq = some a.seq;
  data_buffer = take n a.payload ++ r.data_buffer;
  segments = segment_of (take n a.payload) a.seq (pending_of a) ∷ r.segments;
}

-- The effect of the RST and SYN flags.
unfoldable pub note_flags : Arrival → DirectionalReassembler → DirectionalReassembler
note_flags a r =
    let r' = close (get_rst a.flags) r in
    if get_syn a.flags
    then record r' { base_seq = some (advance a.seq 1); next_expected_seq = some (advance a.seq 1) }
    else r'

-- `add_segment`, on fuel for its call of itself: the depth of calls that the interpreter allows.
-- `none`: the calls went deeper, which raises RecursionError.
unfoldable pub add_segment_fuel :
    ℕ → Arrival → DirectionalReassembler → Option DirectionalReassembler
add_segment_fuel zero a r = none
add_segment_fuel (suc fuel) a r0 =
    let r = note_flags a r0 in
    elim a.payload [
      | [] ↦ some (if get_syn a.flags then r else close (get_fin a.flags) r)
      | x ∷ xs ↦ elim r.base_seq [
        | none ↦ some (start_midway a r)
        | some base ↦
            elim (ltb_ℤ (seq_diff a.seq base) (pos 0) && ltb_ℤ (pos 0) (seq_diff base a.seq)) [
              | false ↦ some (accept a r)
              | true ↦
                  let n = min (pos_part (seq_diff base a.seq)) (length a.payload) in
                  elim (ltb n (length a.payload)) [
                    | false ↦ some (prepend n a r)
                    | true ↦
                        add_segment_fuel fuel
                          (record a { seq = advance a.seq n; payload = drop n a.payload })
                          (prepend n a r)
                  ]
            ]
      ]
    ]

-- `add_segment`, without a limit on the depth: every call of itself is on fewer bytes.
unfoldable pub add_segment : Arrival → DirectionalReassembler → DirectionalReassembler
add_segment a r = elim (add_segment_fuel (suc (length a.payload)) a r) [ none ↦ r | some r' ↦ r' ]

-- The payloads in order.
unfoldable pub join_pending : List Pending → Bytes
join_pending [] = []
join_pending (p ∷ ps) = p.payload ++ join_pending ps

-- `get_data`
unfoldable pub get_data : DirectionalReassembler → Bytes
get_data r = elim r.out_of_order [
  | [] ↦ r.data_buffer
  | p ∷ ps ↦ elim r.data_buffer [
    | [] ↦ join_pending (sort_by_seq r.out_of_order)
    | x ∷ xs ↦ r.data_buffer
  ]
]
