-- ===== src/Bacnet/Npdu.antt =====
-- protocols/bacnet.py, `handles` and `_parse_npdu`: the frame and network headers.
use pcap_decode.Base.{
  ℕ, ◌+◌, Bool, true, false, ◌&&◌, ◌||◌, not, Option, none, some, List, [], leb, ltb, ◌==◌,
  if◌then◌else◌, length, drop,
}
use pcap_decode.Base.Equality.{nat_eq}
use pcap_decode.Base.Bytes.{Bytes, Result, ok, ◌>>=◌, at, unpack, slice, u16, big, bit}
use pcap_decode.Base.Dict.{lookup}
use pcap_decode.Models.{Proto, Packet}
use pcap_decode.Bacnet.Services.{bvlc_type_bacnet_ip, bvlc_functions}

abbrev pub is_udp : Packet → Bool
is_udp p = elim p.transport_proto [ some Proto.udp ↦ true | _ ↦ false ]

-- `key in table`
abbrev pub is_key {ℓ} : {V : Type ℓ} → ℕ → List (ℕ × V) → Bool
is_key k table = elim (lookup k table) [ none ↦ false | some _ ↦ true ]

-- `handles`, for a UDP payload of at least four bytes.
unfoldable pub handles_payload : Bytes → Result Bool
handles_payload d = do
  frame_type ← at d 0
  function ← at d 1
  h ← unpack 2 (slice d 2 4)
  ok (
      frame_type == bvlc_type_bacnet_ip
      && (is_key function bvlc_functions && (leb 4 (u16 big h 0) && leb (u16 big h 0) (length d))))

unfoldable pub handles : Packet → Result Bool
handles p =
    if not (is_udp p) || ltb (length p.payload) 4 then ok false else handles_payload p.payload

-- The offset behind an address that is there if `present`: network, length, and that many bytes.
unfoldable pub skip_address : Bytes → Bool → ℕ → Result (Option ℕ)
skip_address npdu present offset =
    if present
    then (if ltb (length npdu) (offset + 3)
        then ok none
        else (do len ← at npdu (offset + 2); ok (some (offset + (3 + len)))))
    else ok (some offset)

-- The APDU, or the type of a network message.
abbrev pub NpduContent : Type 0
NpduContent = Bytes × Option ℕ

-- `_parse_npdu` behind both addresses.
unfoldable pub npdu_content : Bytes → ℕ → ℕ → Result (Option NpduContent)
npdu_content npdu control behind =
    let offset = if bit control 5 then behind + 1 else behind in
    if ltb (length npdu) offset
    then ok none
    else if bit control 7
    then (if leb (length npdu) offset
        then ok none
        else (do message ← at npdu offset; ok (some ([], some message))))
    else ok (some (drop offset npdu, none))

unfoldable pub content_behind : Bytes → ℕ → Option ℕ → Result (Option NpduContent)
content_behind npdu control none = ok none
content_behind npdu control (some behind) = npdu_content npdu control behind

-- `_parse_npdu` behind the destination address.
unfoldable pub npdu_source : Bytes → ℕ → Option ℕ → Result (Option NpduContent)
npdu_source npdu control none = ok none
npdu_source npdu control (some offset) =
    skip_address npdu (bit control 3) offset >>= content_behind npdu control

unfoldable pub parse_npdu : Bytes → Result (Option NpduContent)
parse_npdu npdu = if ltb (length npdu) 2 then ok none else (do
  version ← at npdu 0
  control ← at npdu 1
  found ← skip_address npdu (bit control 5) 2
  if version == 1 then npdu_source npdu control found else ok none)
