-- ===== src/Bacnet/Handling.antt =====
-- protocols/bacnet.py: the handlers of `process_packet`, for packets that are not too long for the
-- numbers in them to be put into text.
use pcap_decode.Base.{
  ℕ, ◌/◌, suc, All, ◌<◌, ◌≤◌, ◌≡◌, refl, inl, inr, Bool, true, false, Option, none, some, List, [],
  ◌∷◌, arith, ◌==◌, length, leb, Option-cases, ltb, drop, if◌then◌else◌,
}
use pcap_decode.Base.Equality.{nat_eq, list_eq, pair_eq, option_eq}
use pcap_decode.Base.Bytes.{
  bind-is_ok, bind-Post-is_ok, IsBytes, at-is_ok, if-is_ok, Bytes, ok, at, at-ok, unpack-slice,
  is_ok, ok_of_is_ok, byte, bit,
}
use pcap_decode.Base.Dict.{lookup, erase}
use pcap_decode.Models.{Packet, Text, text}
use pcap_decode.Bacnet.Services.{bvlc_functions, npdu_bearing_functions}
use pcap_decode.Bacnet.Tables.{sensitive_confirmed_services, error_classes}
use pcap_decode.Bacnet.Tags.{Tag, iter_tags}
use pcap_decode.Bacnet.Npdu.{NpduContent, parse_npdu, handles, handles_payload, is_key}
use pcap_decode.Bacnet.Decoder.{
  BacnetDecoder, ReadKey, Announcement, read_announcement_tag, read_announcement,
}
use pcap_decode.Bacnet.Apdu.{
  done, parse_error, count_error, error_values, code_text, parse_reject_or_abort,
}
use pcap_decode.Bacnet.Requests.{
  confirmed_service, service_detail, parse_confirmed_request, record_i_am, unconfirmed_service,
  parse_unconfirmed_request, absorb_read, ack_service, parse_complex_ack, dispatch_apdu, parse_apdu,
}
use pcap_decode.Bacnet.Safety.{
  handles-is_ok, parse_npdu-is_ok, iter_tags-is_ok, decode_object_id-is_ok, absorb-is_ok,
  service_detail-is_ok, ShortNpdu, parse_npdu-Short,
}
use pcap_decode.Bacnet.Digits.{
  longest, IsShort, HasDigits, ShortTags, drop-IsShort, slice-IsShort, iter_tags-Short,
  error_values-HasDigits, formatted_name-is_ok, code_text-is_ok,
}
use pcap_decode.Bacnet.Files.{formatted_name}
use pcap_decode.Bacnet.{
  process_npdu, process_bearing, process_function, process_named, process_frame, process_packet,
}

lt_of_ltb : (k n : ℕ) → ltb n (suc k) ≡ false → k < n
lt_of_ltb k n h = ground arith

count_error-is_ok :
    (service_name : Text) (values : List ℕ) (p : Packet) (d : BacnetDecoder)
    → All HasDigits values
    → is_ok (count_error service_name values p d) ≡ true
unfolding count_error
count_error-is_ok service_name [] p d h = refl
count_error-is_ok service_name (error_class ∷ codes) p d (few, h) =
    bind-is_ok (formatted_name error_classes (text "error-class-") error_class) _
      (formatted_name-is_ok error_classes (text "error-class-") error_class few)
      (λ class_name. bind-is_ok (code_text codes) _ (code_text-is_ok codes h) (λ code. refl))

parse_error-is_ok :
    (apdu : Bytes) (p : Packet) (d : BacnetDecoder)
    → IsShort apdu
    → is_ok (parse_error apdu p d) ≡ true
unfolding parse_error
parse_error-is_ok apdu p d h =
    if-is_ok _ _ _ (λ short. refl)
      (λ long. at-is_ok apdu 2 _ (lt_of_ltb 2 (length apdu) long) (λ service.
        bind-Post-is_ok ShortTags (iter_tags (drop 3 apdu) 0 4) _
          (iter_tags-is_ok (drop 3 apdu) 0 4)
          (iter_tags-Short (drop 3 apdu) 0 4 (drop-IsShort 3 apdu h))
          (λ tags few.
            count_error-is_ok _ (error_values tags) p _ (error_values-HasDigits tags few))))

parse_reject_or_abort-is_ok :
    (apdu : Bytes) (pdu_type : ℕ) (p : Packet) (d : BacnetDecoder)
    → is_ok (parse_reject_or_abort apdu pdu_type p d) ≡ true
unfolding parse_reject_or_abort
parse_reject_or_abort-is_ok apdu pdu_type p d = ground (arith, at-ok apdu 2)

confirmed_service-is_ok :
    (service : ℕ) (name : Text) (body : Bytes) (p : Packet) (invoke_id : ℕ) (d : BacnetDecoder)
    → IsShort body
    → is_ok (confirmed_service service name body p invoke_id d) ≡ true
unfolding confirmed_service
confirmed_service-is_ok service name body p invoke_id d h =
    elim (Option-cases (lookup service sensitive_confirmed_services)) [
      | inl e ↦ rw (e, confirmed_service) refl
      | inr (note, e) ↦
          rw (e, confirmed_service)
            (bind-is_ok (service_detail service body p invoke_id d) _
              (service_detail-is_ok service body p invoke_id d h) (λ r. refl))
    ]

lt_of_leb : (n m : ℕ) → leb n m ≡ false → m < n
lt_of_leb n m h = ground arith

nonempty : (d : Bytes) → (length d == 0) ≡ false → 0 < length d
nonempty d h = ground arith

three_lt :
    (control : ℕ) (d : Bytes)
    → leb (length d) (if bit control 3 then 5 else 3) ≡ false
    → 2 < length d
three_lt control d h = ground arith

parse_confirmed_request-is_ok :
    (apdu : Bytes) (p : Packet) (d : BacnetDecoder)
    → IsShort apdu
    → 0 < length apdu
    → is_ok (parse_confirmed_request apdu p d) ≡ true
unfolding parse_confirmed_request
parse_confirmed_request-is_ok apdu p d s h = at-is_ok apdu 0 _ h (λ control.
    if-is_ok _ _ _ (λ short. refl)
      (λ long. at-is_ok apdu 2 _ (three_lt control apdu long) (λ invoke_id.
        at-is_ok apdu (if bit control 3 then 5 else 3) _ (lt_of_leb _ _ long)
          (λ service. confirmed_service-is_ok service _ _ p invoke_id _ (drop-IsShort _ apdu s)))))

read_announcement_tag-is_ok :
    (t : Tag) (a : Announcement) → is_ok (read_announcement_tag t a) ≡ true
unfolding read_announcement_tag
read_announcement_tag-is_ok t a = ground (arith, decode_object_id-is_ok t.value)

read_announcement-is_ok : (ts : List Tag) (a : Announcement) → is_ok (read_announcement ts a) ≡ true
unfolding read_announcement
read_announcement-is_ok [] a = refl
read_announcement-is_ok (t ∷ ts) a =
    bind-is_ok (read_announcement_tag t a) (read_announcement ts) (read_announcement_tag-is_ok t a)
      (read_announcement-is_ok ts)

record_i_am-is_ok :
    (body : Bytes) (p : Packet) (origin_ip : Option Text) (d : BacnetDecoder)
    → is_ok (record_i_am body p origin_ip d) ≡ true
unfolding record_i_am
record_i_am-is_ok body p origin_ip d =
    bind-is_ok (iter_tags body 0 128) _ (iter_tags-is_ok body 0 128) (λ tags.
      bind-is_ok (read_announcement tags (record { device_instance = none; numbers = [] })) _
        (read_announcement-is_ok tags (record { device_instance = none; numbers = [] }))
        (λ a. refl))

unconfirmed_service-is_ok :
    (service : ℕ) (name : Text) (body : Bytes) (p : Packet) (origin_ip : Option Text)
    (d : BacnetDecoder)
    → is_ok (unconfirmed_service service name body p origin_ip d) ≡ true
unfolding unconfirmed_service
unconfirmed_service-is_ok service name body p origin_ip d =
    ground (arith, record_i_am-is_ok body p origin_ip d)

parse_unconfirmed_request-is_ok :
    (apdu : Bytes) (p : Packet) (origin_ip : Option Text) (d : BacnetDecoder)
    → is_ok (parse_unconfirmed_request apdu p origin_ip d) ≡ true
unfolding parse_unconfirmed_request
parse_unconfirmed_request-is_ok apdu p origin_ip d =
    if-is_ok _ _ _ (λ short. refl)
      (λ long.
        at-is_ok apdu 1 _ (lt_of_ltb 1 (length apdu) long)
          (λ service. unconfirmed_service-is_ok service _ _ p origin_ip _))

absorb_read-is_ok :
    (invoke_id : ℕ) (body : Bytes) (p : Packet) (d : BacnetDecoder)
    → is_ok (absorb_read invoke_id body p d) ≡ true
unfolding absorb_read
absorb_read-is_ok invoke_id body p d =
    let k : ReadKey = (p.dst_ip, (p.src_ip, invoke_id)) in
    elim (Option-cases (lookup k d.pending_file_reads)) [
      | inl e ↦ ground arith
      | inr (file_oid, e) ↦ ground (
        arith,
        absorb-is_ok body p file_oid (text "read")
            (record d { pending_file_reads = erase k d.pending_file_reads }),
      )
    ]

one_lt :
    (control : ℕ) (d : Bytes)
    → leb (length d) (if bit control 3 then 4 else 2) ≡ false
    → 1 < length d
one_lt control d h = ground arith

ack_service-is_ok :
    (service invoke_id : ℕ) (body : Bytes) (p : Packet) (d : BacnetDecoder)
    → is_ok (ack_service service invoke_id body p d) ≡ true
unfolding ack_service
ack_service-is_ok service invoke_id body p d = ground (arith, absorb_read-is_ok invoke_id body p d)

parse_complex_ack-is_ok :
    (apdu : Bytes) (p : Packet) (d : BacnetDecoder)
    → 0 < length apdu
    → is_ok (parse_complex_ack apdu p d) ≡ true
unfolding parse_complex_ack
parse_complex_ack-is_ok apdu p d h = at-is_ok apdu 0 _ h (λ control.
    if-is_ok _ _ _ (λ short. refl)
      (λ long. at-is_ok apdu 1 _ (one_lt control apdu long) (λ invoke_id.
        at-is_ok apdu (if bit control 3 then 4 else 2) _ (lt_of_leb _ _ long)
          (λ service. ack_service-is_ok service invoke_id _ p _))))

dispatch_apdu-is_ok :
    (pdu_type : ℕ) (apdu : Bytes) (p : Packet) (origin_ip : Option Text) (d : BacnetDecoder)
    → IsShort apdu
    → 0 < length apdu
    → is_ok (dispatch_apdu pdu_type apdu p origin_ip d) ≡ true
unfolding dispatch_apdu
dispatch_apdu-is_ok pdu_type apdu p origin_ip d s h = ground (
  arith,
  parse_confirmed_request-is_ok apdu p d s h,
  parse_unconfirmed_request-is_ok apdu p origin_ip d,
  parse_complex_ack-is_ok apdu p d h,
  parse_error-is_ok apdu p d s,
  parse_reject_or_abort-is_ok apdu pdu_type p d,
)

process_npdu-is_ok :
    (found : Option NpduContent) (p : Packet) (origin_ip : Option Text) (d : BacnetDecoder)
    → ShortNpdu found
    → is_ok (process_npdu found p origin_ip d) ≡ true
unfolding process_npdu parse_apdu
process_npdu-is_ok none p origin_ip d s = refl
process_npdu-is_ok (some (apdu, some message)) p origin_ip d s = refl
process_npdu-is_ok (some (apdu, none)) p origin_ip d s =
    if-is_ok _ _ _ (λ empty. refl)
      (λ full.
        at-is_ok apdu 0 _ (nonempty apdu full)
          (λ first. dispatch_apdu-is_ok (first / 16) apdu p origin_ip _ s (nonempty apdu full)))

process_bearing-is_ok :
    (header_extra : ℕ) (p : Packet) (d : BacnetDecoder)
    → IsShort p.payload
    → 4 ≤ length p.payload
    → is_ok (process_bearing header_extra p d) ≡ true
unfolding process_bearing
process_bearing-is_ok header_extra p d s h = rw (unpack-slice 2 p.payload 2 4 h refl) (
    bind-Post-is_ok ShortNpdu (parse_npdu _) _ (parse_npdu-is_ok _)
      (parse_npdu-Short _ (slice-IsShort p.payload _ _ s))
      (λ found few. process_npdu-is_ok found p _ d few))

process_function-is_ok :
    (function : ℕ) (name : Text) (p : Packet) (d : BacnetDecoder)
    → IsShort p.payload
    → 4 ≤ length p.payload
    → is_ok (process_function function name p d) ≡ true
unfolding process_function
process_function-is_ok function name p d s h =
    elim (Option-cases (lookup function npdu_bearing_functions)) [
      | inl e ↦ rw (e, process_function) refl
      | inr (header_extra, e) ↦
          rw (e, process_function) (process_bearing-is_ok header_extra p _ s h)
    ]

process_named-is_ok :
    (function : ℕ) (name : Option Text) (p : Packet) (d : BacnetDecoder)
    → IsShort p.payload
    → 4 ≤ length p.payload
    → elim name [ none ↦ false | some _ ↦ true ] ≡ true
    → is_ok (process_named function name p d) ≡ true
unfolding process_named
process_named-is_ok function none p d s h known = cc
process_named-is_ok function (some name) p d s h known =
    process_function-is_ok function name p d s h

process_frame-is_ok :
    (p : Packet) (d : BacnetDecoder)
    → IsShort p.payload
    → 4 ≤ length p.payload
    → is_key (byte p.payload 1) bvlc_functions ≡ true
    → is_ok (process_frame p d) ≡ true
unfolding process_frame
process_frame-is_ok p d s h known =
    let function = byte p.payload 1 in
    let found : at p.payload 1 ≡ ok function = at-ok p.payload 1 (omega arith) in
    rw (found, process_frame)
      (process_named-is_ok function (lookup function bvlc_functions) p d s h known)

-- What `handles` takes: at least four bytes, and a known function.
handles-known :
    (p : Packet)
    → handles p ≡ ok true
    → (4 ≤ length p.payload) × (is_key (byte p.payload 1) bvlc_functions ≡ true)
unfolding handles handles_payload
handles-known p e =
    ground (arith, at-ok p.payload 0, at-ok p.payload 1, unpack-slice 2 p.payload 2 4)

process_taken-is_ok :
    (taken : Bool) (p : Packet) (d : BacnetDecoder)
    → IsShort p.payload
    → handles p ≡ ok taken
    → is_ok (if taken then process_frame p d else done d) ≡ true
process_taken-is_ok true p d s e =
    let (long, known) = handles-known p e in process_frame-is_ok p d s long known
process_taken-is_ok false p d s e = refl

-- `process_packet` raises no exception for a payload of at most 1785 bytes, whatever these bytes are
-- and whatever the decoder has seen.
pub process_packet-is_ok :
    (p : Packet) (d : BacnetDecoder)
    → IsBytes p.payload
    → length p.payload ≤ longest
    → is_ok (process_packet p d) ≡ true
unfolding process_packet
process_packet-is_ok p d b h =
    let (taken, e) = ok_of_is_ok (handles p) (handles-is_ok p) in
    rw (e, process_packet) (process_taken-is_ok taken p d (b, h) e)
