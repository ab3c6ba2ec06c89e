-- ===== src/Bacnet/Apdu.antt =====
-- protocols/bacnet.py, `process_packet` and the parsers of the PDU types. Each returns the files that
-- are complete and the decoder, or the exception that it raises.
use pcap_decode.Base.{
  ℕ, ◌&&◌, ◌||◌, not, Option, none, some, List, [], ◌∷◌, ◌++◌, ltb, ◌==◌, if◌then◌else◌, length,
  drop,
}
use pcap_decode.Base.Equality.{nat_eq, list_eq, pair_eq, option_eq}
use pcap_decode.Base.Bytes.{Bytes, Result, ok, ◌>>=◌, at}
use pcap_decode.Base.Dict.{increment}
use pcap_decode.Models.{Text, text, decimal_text, Packet}
use pcap_decode.Bacnet.Services.{apdu_reject, confirmed_services}
use pcap_decode.Bacnet.Tables.{
  error_classes, reject_reasons, abort_reasons, probing_reject_reasons, object_types,
  commandable_object_types, tag_object_identifier, tag_enumerated, tag_unsigned, max_tags_per_apdu,
}
use pcap_decode.Bacnet.Tags.{ObjectId, Tag, decode_object_id, iter_tags}
use pcap_decode.Bacnet.Files.{FileCandidate, name_of, formatted_name, object_id_name, from_bytes}
use pcap_decode.Bacnet.Decoder.{BacnetDecoder, malformed, record_observation}
use pcap_decode.Raw.{is_member}

-- What a handler returns.
abbrev pub Handled : Type 0
Handled = Result (List FileCandidate × BacnetDecoder)

abbrev pub done : BacnetDecoder → Handled
done d = ok ([], d)

-- The loop of `_first_object_id`.
unfoldable pub find_object_id : List Tag → Result (Option ObjectId)
find_object_id [] = ok none
find_object_id (t ∷ ts) =
    let rest = find_object_id ts in
    if not t.is_context && t.tag_number == tag_object_identifier
    then decode_object_id t.value
    else rest

unfoldable pub first_object_id : Bytes → Result (Option ObjectId)
first_object_id body = iter_tags body 0 max_tags_per_apdu >>= find_object_id

-- The loop of `_first_enumerated`.
unfoldable pub find_enumerated : List Tag → Option ℕ
find_enumerated [] = none
find_enumerated (t ∷ ts) =
    let rest = find_enumerated ts in
    if (t.tag_number == tag_enumerated || t.tag_number == tag_unsigned) && ltb 0 (length t.value)
    then some (from_bytes t.value)
    else rest

unfoldable pub first_enumerated : Bytes → Result (Option ℕ)
first_enumerated body = iter_tags body 0 max_tags_per_apdu >>= λ tags. ok (find_enumerated tags)

-- The loop of `_describe_write_target` for the object in context tag 0.
unfoldable pub find_write_target : List Tag → Result (Option ObjectId)
find_write_target [] = ok none
find_write_target (t ∷ ts) =
    let rest = find_write_target ts in
    if t.is_context && (t.tag_number == 0 && length t.value == 4)
    then decode_object_id t.value
    else rest

-- `_describe_write_target` for the object that was found.
unfoldable pub describe_object : Option ObjectId → BacnetDecoder → Option Text × BacnetDecoder
describe_object none d = (none, d)
describe_object (some (object_type, number)) d =
    let target = object_id_name (object_type, number) in
    let name = name_of object_types (text "object-type-") object_type in
    let counted = record d { object_type_counts = increment name d.object_type_counts } in
    if is_member object_type commandable_object_types
    then (some (text "commandable object " ++ target), counted)
    else (some (text "object " ++ target), counted)

unfoldable pub write_target : Bytes → Result (Option ObjectId)
write_target body = first_object_id body >>= λ found. elim found [
  | none ↦ iter_tags body 0 max_tags_per_apdu >>= find_write_target
  | some object_id ↦ ok (some object_id)
]

-- The values of the enumerated tags of an error.
unfoldable pub error_values : List Tag → List ℕ
error_values [] = []
error_values (t ∷ ts) =
    let rest = error_values ts in
    if t.is_context || (not (t.tag_number == tag_enumerated) || length t.value == 0)
    then rest
    else from_bytes t.value ∷ rest

unfoldable pub code_text : List ℕ → Result Text
code_text [] = ok (text "None")
code_text (n ∷ ns) = decimal_text n

-- What `_parse_error` counts and records for a class.
unfoldable pub record_error : Text → ℕ → Text → Text → Packet → BacnetDecoder → BacnetDecoder
record_error service_name error_class class_name code p d =
    let name = class_name ++ (text "/code-" ++ code) in
    let counted = record d { error_counts = increment name d.error_counts } in
    if error_class == 4
    then record_observation (service_name ++ text "-error")
        (text "Security error returned - authentication or authorization failure") p
        (some (text "error class security, code " ++ code)) counted
    else counted

-- `_parse_error` behind the tags: the class and the code are the first two values.
unfoldable pub count_error : Text → List ℕ → Packet → BacnetDecoder → Result BacnetDecoder
count_error service_name [] p d = ok d
count_error service_name (error_class ∷ codes) p d = do
  class_name ← formatted_name error_classes (text "error-class-") error_class
  code ← code_text codes
  ok (record_error service_name error_class class_name code p d)

-- `_parse_error`
unfoldable pub parse_error : Bytes → Packet → BacnetDecoder → Result BacnetDecoder
parse_error apdu p d = if ltb (length apdu) 3 then ok (malformed d) else (do
  service ← at apdu 2
  let service_name = name_of confirmed_services (text "confirmed-service-") service
  let counter = increment (service_name ++ text "-error") d.service_counts
  tags ← iter_tags (drop 3 apdu) 0 4
  count_error service_name (error_values tags) p (record d { service_counts = counter }))

-- `_parse_reject_or_abort` for a reject and for an abort with its reason.
unfoldable pub count_reject : ℕ → Packet → BacnetDecoder → BacnetDecoder
count_reject reason p d =
    let name = name_of reject_reasons (text "reject-reason-") reason in
    let counted = record d { reject_counts = increment name d.reject_counts } in
    if is_member reason probing_reject_reasons
    then record_observation (text "reject")
        (text "Service rejected as unrecognized or malformed - consistent with protocol probing") p
        (some name) counted
    else counted

unfoldable pub count_abort : ℕ → BacnetDecoder → BacnetDecoder
count_abort reason d = record d {
  abort_counts = increment (name_of abort_reasons (text "abort-reason-") reason) d.abort_counts;
}

-- `_parse_reject_or_abort`
unfoldable pub parse_reject_or_abort : Bytes → ℕ → Packet → BacnetDecoder → Result BacnetDecoder
parse_reject_or_abort apdu pdu_type p d = if ltb (length apdu) 3 then ok (malformed d) else (do
  reason ← at apdu 2
  ok (if pdu_type == apdu_reject then count_reject reason p d else count_abort reason d))
