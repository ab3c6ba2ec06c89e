-- ===== src/Bacnet.antt =====
-- pcap_decode/protocols/bacnet.py, `process_packet` and `finalize`: BACnet/IP packets, the services
-- that they call and the files that they transfer. The parts are in the children of this module.
pub mod Services
pub mod Tables
pub mod Tags
pub mod Total
pub mod Npdu
pub mod Files
pub mod Limits
pub mod Decoder
pub mod Apdu
pub mod Digits
pub mod Requests
pub mod Safety
pub mod Handling
use pcap_decode.Base.{
  ℕ, ◌+◌, ◌/◌, ◌%◌, Bool, true, false, ◌&&◌, Option, none, some, List, [], ◌∷◌, ◌++◌, leb, ltb,
  ◌==◌, if◌then◌else◌, length, map,
}
use pcap_decode.Base.Equality.{nat_eq, list_eq, pair_eq, option_eq}
use pcap_decode.Base.Bytes.{Bytes, Result, Error, ok, raise, ◌>>=◌, at, unpack, slice, u16, big}
use pcap_decode.Base.Dict.{Dict, lookup, increment}
use pcap_decode.Models.{Text, text, Packet}
use pcap_decode.Reader.{inet_ntoa}
use pcap_decode.Bacnet.Services.{bvlc_functions, npdu_bearing_functions}
use pcap_decode.Bacnet.Tables.{network_message_types, sensitive_network_messages}
use pcap_decode.Bacnet.Npdu.{handles, parse_npdu, NpduContent}
use pcap_decode.Bacnet.Files.{FileCandidate, flush_all}
use pcap_decode.Bacnet.Decoder.{BacnetDecoder, malformed, record_observation}
use pcap_decode.Bacnet.Apdu.{Handled, done}
use pcap_decode.Bacnet.Requests.{parse_apdu}

-- A byte as two hexadecimal digits.
abbrev hex_digit : ℕ → ℕ
hex_digit n = if ltb n 10 then 48 + n else 87 + n

abbrev hex_byte : ℕ → Text
hex_byte n = hex_digit (n / 16) ∷ hex_digit (n % 16) ∷ []

abbrev network_name : ℕ → Text
network_name message = elim (lookup message network_message_types) [
  | none ↦ text "network-message-0x" ++ hex_byte message
  | some name ↦ name
]

-- A network message: it is counted, and recorded if there is a note on it.
unfoldable pub process_network_message : ℕ → Packet → BacnetDecoder → BacnetDecoder
process_network_message message p d =
    let name = network_name message in
    let counted = record d { network_message_counts = increment name d.network_message_counts } in
    elim (lookup message sensitive_network_messages) [
      | none ↦ counted
      | some note ↦ record_observation name note p none counted
    ]

-- `process_packet` behind `_parse_npdu`.
unfoldable pub process_npdu : Option NpduContent → Packet → Option Text → BacnetDecoder → Handled
process_npdu none p origin_ip d = done (malformed d)
process_npdu (some (apdu, some message)) p origin_ip d = done (process_network_message message p d)
process_npdu (some (apdu, none)) p origin_ip d =
    if length apdu == 0 then done (malformed d) else parse_apdu apdu p origin_ip d

-- `process_packet` for a function that bears an NPDU behind `header_extra` bytes.
unfoldable pub process_bearing : ℕ → Packet → BacnetDecoder → Handled
process_bearing header_extra p d = do
  h ← unpack 2 (slice p.payload 2 4)
  let is_forwarded = header_extra == 6 && leb 10 (length p.payload)
  let origin_ip = if is_forwarded then some (inet_ntoa (slice p.payload 4 8)) else none
  parsed ← parse_npdu (slice p.payload (4 + header_extra) (u16 big h 0))
  process_npdu parsed p origin_ip d

-- `process_packet` for a function and its name.
unfoldable pub process_function : ℕ → Text → Packet → BacnetDecoder → Handled
process_function function name p d =
    let counted = record d {
      packets_decoded = d.packets_decoded + 1;
      bvlc_function_counts = increment name d.bvlc_function_counts;
    } in
    elim (lookup function npdu_bearing_functions) [
      | none ↦ done counted
      | some header_extra ↦ process_bearing header_extra p counted
    ]

-- `BVLC_FUNCTIONS[function]` and what follows.
unfoldable pub process_named : ℕ → Option Text → Packet → BacnetDecoder → Handled
process_named function none p d = raise Error.key_error
process_named function (some name) p d = process_function function name p d

-- `process_packet` for a packet that `handles` takes.
unfoldable pub process_frame : Packet → BacnetDecoder → Handled
process_frame p d =
    at p.payload 1 >>= λ function. process_named function (lookup function bvlc_functions) p d

-- `process_packet`
unfoldable pub process_packet : Packet → BacnetDecoder → Handled
process_packet p d = do taken ← handles p; if taken then process_frame p d else done d

-- `finalize`: the files that are not complete, in the order of their keys.
unfoldable pub finalize : BacnetDecoder → List FileCandidate × BacnetDecoder
finalize d =
    let (found, buffers) = flush_all (map (λ e. e.0) d.file_buffers) d.file_buffers in
    (found, record d { file_buffers = buffers; pending_file_reads = [] })
