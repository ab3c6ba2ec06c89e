-- ===== src/Tests/Ip.antt =====
-- ip_reassembly.py on a datagram in two pieces.
use native.Mathlib.Decide.{dec_lt}
use pcap_decode.Base.{ℕ, ◌<◌, ◌≡◌, refl, inl, inr, true, false, none, some, [], ◌∷◌, arith, All}
use pcap_decode.Base.Bytes.{Bytes, ok, little}
use pcap_decode.Base.Equality.{nat_eq, list_eq, pair_eq}
use pcap_decode.Base.Dict.{lookup}
use pcap_decode.Models.{Packet}
use pcap_decode.IpReassembly.{
  FragmentKey, IpDefragmenter, process, whole_packet, Fragment, is_whole, fragment_key, key_of,
  has_last,
}
use pcap_decode.IpReassembly.Rebuild.{IsFragment, Covered}
use pcap_decode.IpReassembly.Datagram.{
  arrived, process_complete, process_sound, reader_never_defragments,
}
use pcap_decode.Reader.Decode.{new_packet, decode_packet}

abbrev key : FragmentKey
key = ((97 ∷ [], 98 ∷ []), (17, 5))

abbrev datagram : Bytes
datagram = 1 ∷ 2 ∷ 3 ∷ 4 ∷ 5 ∷ 6 ∷ 7 ∷ 8 ∷ 9 ∷ []

abbrev last_piece : Fragment
last_piece = record { offset = 8; more_frags = false; payload = 9 ∷ []; timestamp = 0 }

-- The last fragment is at hand.
abbrev waiting : IpDefragmenter
waiting = (key, last_piece ∷ []) ∷ []

abbrev first : Packet
first = record (new_packet 2 0 1 []) {
  ip_version = some 4;
  src_ip = some (97 ∷ []);
  dst_ip = some (98 ∷ []);
  ip_proto = some 17;
  ip_id = some 5;
  ip_more_frags = true;
  payload = 1 ∷ 2 ∷ 3 ∷ 4 ∷ 5 ∷ 6 ∷ 7 ∷ 8 ∷ [];
}

pieces : All (IsFragment datagram) (arrived first key waiting)
unfolding lookup
pieces = (
  record { room = omega arith; bytes = refl; ends = λ e. refl },
  (record { room = omega arith; bytes = refl; ends = λ e. cc }, tt),
)

covered : (q : ℕ) → q < 9 → Covered q (arrived first key waiting)
unfolding lookup
covered q h = elim (dec_lt q 8) [
  | yes low ↦ inr (inl (omega arith, omega arith))
  | no high ↦ inl (omega arith, omega arith)
]

process_complete_example :
    ((process first waiting).1 ≡ some (whole_packet first datagram))
    × (lookup key (process first waiting).0 ≡ none)
unfolding lookup is_whole fragment_key key_of has_last
process_complete_example =
    process_complete first waiting key datagram refl refl (refl, tt) pieces refl covered

process_sound_example : (whole_packet first datagram).payload ≡ datagram
unfolding is_whole fragment_key key_of
process_sound_example =
    process_sound first (whole_packet first datagram) waiting key datagram refl refl pieces
      process_complete_example.0

-- The first fragment of a datagram, as an Ethernet frame with an IPv4 header.
abbrev frame : Bytes
frame =
    0 ∷ 0 ∷ 0 ∷ 0 ∷ 0 ∷ 0 ∷ 0 ∷ 0 ∷ 0 ∷ 0 ∷ 0 ∷ 0 ∷ 8 ∷ 0 ∷ 0x45 ∷ 0 ∷ 0 ∷ 28 ∷ 0 ∷ 5 ∷ 0x20 ∷ 0
    ∷ 64 ∷ 1 ∷ 0 ∷ 0 ∷ 10 ∷ 0 ∷ 0 ∷ 1 ∷ 10 ∷ 0 ∷ 0 ∷ 2 ∷ 1 ∷ 2 ∷ 3 ∷ 4 ∷ 5 ∷ 6 ∷ 7 ∷ 8 ∷ []

reader_never_defragments_example :
    (p : Packet) × (decode_packet (λ d. d) little 1 0 1 frame ≡ ok p)
    × (process p waiting ≡ (waiting, some p))
reader_never_defragments_example = reader_never_defragments (λ d. d) little 1 0 1 frame waiting
