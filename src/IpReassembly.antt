-- ===== src/IpReassembly.antt =====
-- pcap_decode/ip_reassembly.py, `class IpDefragmenter`. The state is the dict `fragments`; the field
-- `timeout` is stored and never read.
pub mod Rebuild
pub mod Datagram
use pcap_decode.Base.{
  ℕ, ◌+◌, ◌-◌, Bool, true, false, ◌&&◌, ◌||◌, not, Option, none, some, List, [], ◌∷◌, ◌++◌, ltb,
  leb, ◌==◌, if◌then◌else◌, length, drop,
}
use pcap_decode.Base.Equality.{nat_eq, list_eq, pair_eq}
use pcap_decode.Base.Dict.{Dict, lookup, insert, erase}
use pcap_decode.Base.Bytes.{Bytes}
use pcap_decode.Models.{Text, Packet, is_text}

-- `(packet.src_ip, packet.dst_ip, packet.ip_proto, packet.ip_id)`
abbrev pub FragmentKey : Type 0
FragmentKey = (Text × Text) × (ℕ × ℕ)

pub record Fragment : Type 0 where
  pub offset : ℕ
  pub more_frags : Bool
  pub payload : Bytes
  pub timestamp : ℕ

abbrev pub IpDefragmenter : Type 0
IpDefragmenter = Dict FragmentKey (List Fragment)

-- The packet is whole: not IPv4, or the only fragment of its datagram.
unfoldable pub is_whole : Packet → Bool
is_whole p =
    not (elim p.ip_version [ none ↦ false | some v ↦ v == 4 ])
    || (p.ip_frag_offset == 0 && not p.ip_more_frags)

unfoldable pub key_of : Option Text → Option Text → Option ℕ → Option ℕ → Option FragmentKey
key_of (some a) (some b) (some proto) (some id) =
    if is_text (some a) && is_text (some b) then some ((a, b), (proto, id)) else none
key_of _ _ _ id = none

-- The key of a fragment; `none` where the method hands the packet back because a field is missing.
unfoldable pub fragment_key : Packet → Option FragmentKey
fragment_key p = key_of p.src_ip p.dst_ip p.ip_proto p.ip_id

abbrev pub fragment_of : Packet → Fragment
fragment_of p = record {
  offset = p.ip_frag_offset;
  more_frags = p.ip_more_frags;
  payload = p.payload;
  timestamp = p.timestamp;
}

-- `any(not mf for …)`
unfoldable pub has_last : List Fragment → Bool
has_last [] = false
has_last (f ∷ fs) = not f.more_frags || has_last fs

-- `sorted(frags, key=lambda x: x[0])`, a stable sort.
unfoldable pub insert_by_offset : Fragment → List Fragment → List Fragment
insert_by_offset f [] = f ∷ []
insert_by_offset f (g ∷ gs) =
    if leb f.offset g.offset then f ∷ g ∷ gs else g ∷ insert_by_offset f gs

unfoldable pub sort_by_offset : List Fragment → List Fragment
sort_by_offset [] = []
sort_by_offset (f ∷ fs) = insert_by_offset f (sort_by_offset fs)

-- `curr_offset` and `rebuilt` after a fragment.
abbrev pub offset_after : Fragment → ℕ → ℕ
offset_after f curr =
    if ltb (curr - f.offset) (length f.payload) then f.offset + length f.payload else curr

abbrev pub rebuilt_after : Fragment → ℕ → Bytes → Bytes
rebuilt_after f curr rebuilt =
    if ltb (curr - f.offset) (length f.payload)
    then rebuilt ++ drop (curr - f.offset) f.payload
    else rebuilt

-- The `for` loop over the sorted fragments; `none` is its two ways to return `None`.
unfoldable pub rebuild : List Fragment → ℕ → Bytes → Option Bytes
rebuild [] curr rebuilt = none
rebuild (f ∷ fs) curr rebuilt =
    let curr' = offset_after f curr in
    let rebuilt' = rebuilt_after f curr rebuilt in
    let rest = rebuild fs curr' rebuilt' in
    if ltb curr f.offset
    then none
    else if not f.more_frags && f.offset + length f.payload == curr'
    then some rebuilt'
    else rest

-- From the test for the last fragment on.
unfoldable pub reassemble : List Fragment → Option Bytes
reassemble fs = if has_last fs then rebuild (sort_by_offset fs) 0 [] else none

-- `new_pkt`
abbrev pub whole_packet : Packet → Bytes → Packet
whole_packet p rebuilt = record p {
  ip_version = some 4;
  ip_frag_offset = 0;
  ip_more_frags = false;
  payload = rebuilt;
}

-- `self.fragments[key]` of a `defaultdict(list)`.
abbrev pub fragments_at : FragmentKey → IpDefragmenter → List Fragment
fragments_at k d = elim (lookup k d) [ none ↦ [] | some fs ↦ fs ]

-- `process` for a fragment with the key `k`.
unfoldable pub process_fragment :
    Packet → FragmentKey → IpDefragmenter → IpDefragmenter × Option Packet
process_fragment p k d =
    let fs = fragments_at k d ++ (fragment_of p ∷ []) in
    let stored = insert k fs d in
    elim (reassemble fs) [
      | none ↦ (stored, none)
      | some rebuilt ↦ (erase k stored, some (whole_packet p rebuilt))
    ]

-- `process`
unfoldable pub process : Packet → IpDefragmenter → IpDefragmenter × Option Packet
process p d =
    if is_whole p
    then (d, some p)
    else elim (fragment_key p) [ none ↦ (d, some p) | some k ↦ process_fragment p k d ]
