-- ===== src/Bacnet/Requests.antt =====
-- protocols/bacnet.py, `process_packet` with the parsers of requests and acknowledgements.
use pcap_decode.Base.{
  ℕ, ◌+◌, ◌/◌, ◌||◌, Option, none, some, List, [], ◌++◌, leb, ltb, ◌==◌, if◌then◌else◌, length,
  drop,
}
use pcap_decode.Base.Equality.{nat_eq, list_eq, pair_eq, option_eq}
use pcap_decode.Base.Bytes.{Bytes, Result, ok, ◌>>=◌, at, bit}
use pcap_decode.Base.Dict.{lookup, erase, increment}
use pcap_decode.Models.{Text, text, Packet}
use pcap_decode.Bacnet.Services.{
  apdu_types, apdu_confirmed_request, apdu_unconfirmed_request, apdu_complex_ack, apdu_error,
  apdu_reject, apdu_abort, confirmed_services, unconfirmed_services, service_atomic_read_file,
  service_atomic_write_file,
}
use pcap_decode.Bacnet.Tables.{
  reinitialize_states, device_communication_states, sensitive_confirmed_services,
  sensitive_unconfirmed_services, max_tags_per_apdu,
}
use pcap_decode.Bacnet.Tags.{ObjectId, iter_tags}
use pcap_decode.Bacnet.Files.{
  FileCandidate, name_of, formatted_name, object_id_name, absorb_file_data,
}
use pcap_decode.Bacnet.Decoder.{
  BacnetDecoder, ReadKey, malformed, record_observation, remember_file_read, read_announcement,
  store_device,
}
use pcap_decode.Bacnet.Apdu.{
  Handled, done, first_object_id, first_enumerated, write_target, describe_object, parse_error,
  parse_reject_or_abort,
}

-- `self._absorb_file_data` on a body.
unfoldable pub absorb : Bytes → Packet → ObjectId → Text → BacnetDecoder → Handled
absorb body p file_oid direction d = do
  tags ← iter_tags body 0 max_tags_per_apdu
  let (found, buffers) = absorb_file_data d.max_file_bytes tags p file_oid direction d.file_buffers
  ok (found, record d { file_buffers = buffers })

-- A detail and what goes with it, before `_record_observation`.
abbrev pub Detailed : Type 0
Detailed = Result (List FileCandidate × (Option Text × BacnetDecoder))

abbrev file_detail : ObjectId → Option Text
file_detail file_oid = some (text "file " ++ object_id_name file_oid)

unfoldable pub detail_read_file : Bytes → Packet → ℕ → BacnetDecoder → Detailed
detail_read_file body p invoke_id d = first_object_id body >>= λ found. elim found [
  | none ↦ ok ([], (none, d))
  | some file_oid ↦ ok ([], (file_detail file_oid, remember_file_read p invoke_id file_oid d))
]

unfoldable pub detail_written : Bytes → Packet → BacnetDecoder → Option ObjectId → Detailed
detail_written body p d none = ok ([], (none, d))
detail_written body p d (some file_oid) =
    absorb body p file_oid (text "write") d >>= λ r. ok (r.0, (file_detail file_oid, r.1))

unfoldable pub detail_write_file : Bytes → Packet → BacnetDecoder → Detailed
detail_write_file body p d = first_object_id body >>= detail_written body p d

unfoldable pub detail_state : List (ℕ × Text) → Bytes → BacnetDecoder → Detailed
detail_state states body d = first_enumerated body >>= λ found. elim found [
  | none ↦ ok ([], (none, d))
  | some state ↦
      formatted_name states [] state >>= λ name. ok ([], (some (text "state " ++ name), d))
]

unfoldable pub detail_write : Bytes → BacnetDecoder → Detailed
detail_write body d = write_target body >>= λ found. ok ([], describe_object found d)

-- What a confirmed service with a note leaves.
unfoldable pub service_detail : ℕ → Bytes → Packet → ℕ → BacnetDecoder → Detailed
service_detail service body p invoke_id d =
    if service == service_atomic_read_file
    then detail_read_file body p invoke_id d
    else if service == service_atomic_write_file
    then detail_write_file body p d
    else if service == 20
    then detail_state reinitialize_states body d
    else if service == 17
    then detail_state device_communication_states body d
    else if service == 15 || service == 16
    then detail_write body d
    else ok ([], (none, d))

-- `_parse_confirmed_request` behind the count of the service.
unfoldable pub confirmed_service : ℕ → Text → Bytes → Packet → ℕ → BacnetDecoder → Handled
confirmed_service service service_name body p invoke_id d =
    elim (lookup service sensitive_confirmed_services) [
      | none ↦ done d
      | some note ↦ service_detail service body p invoke_id d >>= λ r.
          ok (r.0, record_observation service_name note p r.1.0 r.1.1)
    ]

-- `self.service_counts[name] += 1`
abbrev pub count_service : Text → BacnetDecoder → BacnetDecoder
count_service name d = record d { service_counts = increment name d.service_counts }

-- `_parse_confirmed_request`
unfoldable pub parse_confirmed_request : Bytes → Packet → BacnetDecoder → Handled
parse_confirmed_request apdu p d = do
  control ← at apdu 0
  let service_offset = if bit control 3 then 5 else 3
  if leb (length apdu) service_offset then done (malformed d) else (do
    invoke_id ← at apdu 2
    service ← at apdu service_offset
    let service_name = name_of confirmed_services (text "confirmed-service-") service
    confirmed_service service service_name (drop (service_offset + 1) apdu) p invoke_id
        (count_service service_name d))

-- `_record_i_am`
unfoldable pub record_i_am : Bytes → Packet → Option Text → BacnetDecoder → Result BacnetDecoder
record_i_am body p origin_ip d = do
  tags ← iter_tags body 0 max_tags_per_apdu
  a ← read_announcement tags (record { device_instance = none; numbers = [] })
  ok (store_device p origin_ip a d)

abbrev pub note_unconfirmed : ℕ → Text → Packet → BacnetDecoder → BacnetDecoder
note_unconfirmed service service_name p d = elim (lookup service sensitive_unconfirmed_services) [
  | none ↦ d
  | some note ↦ record_observation service_name note p none d
]

-- `_parse_unconfirmed_request` behind the count of the service.
unfoldable pub unconfirmed_service :
    ℕ → Text → Bytes → Packet → Option Text → BacnetDecoder → Handled
unconfirmed_service service service_name body p origin_ip d =
    if service == 0
    then record_i_am body p origin_ip d >>= done
    else if service == 8
    then done (record d { whois_by_source = increment p.src_ip d.whois_by_source })
    else done (note_unconfirmed service service_name p d)

-- `_parse_unconfirmed_request`
unfoldable pub parse_unconfirmed_request : Bytes → Packet → Option Text → BacnetDecoder → Handled
parse_unconfirmed_request apdu p origin_ip d =
    if ltb (length apdu) 2 then done (malformed d) else (do
      service ← at apdu 1
      let service_name = name_of unconfirmed_services (text "unconfirmed-service-") service
      unconfirmed_service service service_name (drop 2 apdu) p origin_ip
          (count_service service_name d))

-- The data of a read that was asked for: the request is matched by its invoke id and forgotten.
unfoldable pub absorb_read : ℕ → Bytes → Packet → BacnetDecoder → Handled
absorb_read invoke_id body p d =
    let k : ReadKey = (p.dst_ip, (p.src_ip, invoke_id)) in
    elim (lookup k d.pending_file_reads) [
      | none ↦ done d
      | some file_oid ↦
          absorb body p file_oid (text "read")
            (record d { pending_file_reads = erase k d.pending_file_reads })
    ]

-- `_parse_complex_ack` behind the count of the service.
unfoldable pub ack_service : ℕ → ℕ → Bytes → Packet → BacnetDecoder → Handled
ack_service service invoke_id body p d =
    if service == service_atomic_read_file then absorb_read invoke_id body p d else done d

-- `_parse_complex_ack`
unfoldable pub parse_complex_ack : Bytes → Packet → BacnetDecoder → Handled
parse_complex_ack apdu p d = do
  control ← at apdu 0
  let service_offset = if bit control 3 then 4 else 2
  if leb (length apdu) service_offset then done (malformed d) else (do
    invoke_id ← at apdu 1
    service ← at apdu service_offset
    let service_name = name_of confirmed_services (text "confirmed-service-") service
    let counted = count_service (service_name ++ text "-ack") d
    ack_service service invoke_id (drop (service_offset + 1) apdu) p counted)

-- `_parse_apdu` for the type of a PDU.
unfoldable pub dispatch_apdu : ℕ → Bytes → Packet → Option Text → BacnetDecoder → Handled
dispatch_apdu pdu_type apdu p origin_ip d =
    if pdu_type == apdu_confirmed_request
    then parse_confirmed_request apdu p d
    else if pdu_type == apdu_unconfirmed_request
    then parse_unconfirmed_request apdu p origin_ip d
    else if pdu_type == apdu_complex_ack
    then parse_complex_ack apdu p d
    else if pdu_type == apdu_error
    then parse_error apdu p d >>= done
    else if pdu_type == apdu_reject || pdu_type == apdu_abort
    then parse_reject_or_abort apdu pdu_type p d >>= done
    else done d

-- `_parse_apdu`
unfoldable pub parse_apdu : Bytes → Packet → Option Text → BacnetDecoder → Handled
parse_apdu apdu p origin_ip d = do
  first ← at apdu 0
  let name = name_of apdu_types (text "apdu-type-") (first / 16)
  dispatch_apdu (first / 16) apdu p origin_ip
      (record d { apdu_type_counts = increment name d.apdu_type_counts })
