-- ===== src/Bacnet/Safety.antt =====
-- protocols/bacnet.py: the readers of the decoder, and the details that it formats.
use pcap_decode.Base.{
  ℕ, ◌+◌, ◌≤◌, ◌≡◌, refl, Bool, true, ◌==◌, Option, none, some, List, [], ◌∷◌, arith, length,
  if◌then◌else◌, ◌++◌, ltb, leb,
}
use pcap_decode.Base.Bytes.{
  bind-is_ok, bind-Post-is_ok, then-Post, if-Post, Post, at, ◌>>=◌, Bytes, Result, ok, raise,
  unpack, at-ok, unpack-slice, is_ok, byte, bit,
}
use pcap_decode.Models.{Packet, Text}
use pcap_decode.Bacnet.Tags.{Tag, ObjectId, decode_object_id, iter_tags}
use pcap_decode.Bacnet.Total.{iter_tags-fits, tags_fit}
use pcap_decode.Bacnet.Npdu.{
  NpduContent, handles, handles_payload, skip_address, npdu_content, npdu_source, content_behind,
  parse_npdu,
}
use pcap_decode.Models.{text}
use pcap_decode.Bacnet.Files.{FileCandidate, formatted_name}
use pcap_decode.Bacnet.Tables.{reinitialize_states, device_communication_states}
use pcap_decode.Bacnet.Digits.{
  IsShort, FoundDigits, drop-IsShort, first_enumerated-HasDigits, formatted_name-is_ok,
}
use pcap_decode.Bacnet.Decoder.{BacnetDecoder}
use pcap_decode.Bacnet.Apdu.{
  find_object_id, first_object_id, first_enumerated, find_write_target, write_target,
}
use pcap_decode.Bacnet.Requests.{
  absorb, detail_read_file, detail_written, detail_write_file, detail_state, detail_write,
  service_detail,
}

handles_payload-is_ok : (d : Bytes) → 4 ≤ length d → is_ok (handles_payload d) ≡ true
unfolding handles_payload
handles_payload-is_ok d h = ground (arith, at-ok d 0, at-ok d 1, unpack-slice 2 d 2 4)

pub handles-is_ok : (p : Packet) → is_ok (handles p) ≡ true
unfolding handles
handles-is_ok p = ground (arith, handles_payload-is_ok p.payload)

skip_address-is_ok :
    (d : Bytes) (present : Bool) (offset : ℕ) → is_ok (skip_address d present offset) ≡ true
unfolding skip_address
skip_address-is_ok d present offset = ground (arith, at-ok d (offset + 2))

npdu_content-is_ok : (d : Bytes) (control behind : ℕ) → is_ok (npdu_content d control behind) ≡ true
unfolding npdu_content
npdu_content-is_ok d control behind = ground (arith, at-ok d behind, at-ok d (behind + 1))

content_behind-is_ok :
    (d : Bytes) (control : ℕ) (found : Option ℕ) → is_ok (content_behind d control found) ≡ true
unfolding content_behind
content_behind-is_ok d control none = refl
content_behind-is_ok d control (some behind) = npdu_content-is_ok d control behind

npdu_source-is_ok :
    (d : Bytes) (control : ℕ) (found : Option ℕ) → is_ok (npdu_source d control found) ≡ true
unfolding npdu_source
npdu_source-is_ok d control none = refl
npdu_source-is_ok d control (some offset) =
    bind-is_ok (skip_address d (bit control 3) offset) (content_behind d control)
      (skip_address-is_ok d (bit control 3) offset) (content_behind-is_ok d control)

source_if-is_ok :
    (version : ℕ) (d : Bytes) (control : ℕ) (found : Option ℕ)
    → is_ok (if version == 1 then npdu_source d control found else ok none) ≡ true
source_if-is_ok version d control found = ground (arith, npdu_source-is_ok d control found)

pub parse_npdu-is_ok : (d : Bytes) → is_ok (parse_npdu d) ≡ true
unfolding parse_npdu
parse_npdu-is_ok d =
    let version = byte d 0 in
    let control = byte d 1 in
    ground (
      arith,
      at-ok d 0,
      at-ok d 1,
      bind-is_ok (skip_address d (bit control 5) 2)
          (λ found. if version == 1 then npdu_source d control found else ok none)
          (skip_address-is_ok d (bit control 5) 2) (source_if-is_ok version d control),
    )

tags_fit-is_ok :
    (d : Bytes) (offset limit : ℕ) (m : Result (List Tag))
    → tags_fit d offset limit m ≡ true
    → is_ok m ≡ true
tags_fit-is_ok d offset limit (ok ts) h = refl
tags_fit-is_ok d offset limit (raise e) h = cc

pub iter_tags-is_ok : (d : Bytes) (offset limit : ℕ) → is_ok (iter_tags d offset limit) ≡ true
iter_tags-is_ok d offset limit =
    tags_fit-is_ok d offset limit (iter_tags d offset limit) (iter_tags-fits d offset limit)

pub decode_object_id-is_ok : (raw : Bytes) → is_ok (decode_object_id raw) ≡ true
unfolding decode_object_id unpack
decode_object_id-is_ok raw = ground arith

find_object_id-is_ok : (ts : List Tag) → is_ok (find_object_id ts) ≡ true
unfolding find_object_id
find_object_id-is_ok [] = refl
find_object_id-is_ok (t ∷ ts) =
    ground (arith, decode_object_id-is_ok t.value, find_object_id-is_ok ts)

find_write_target-is_ok : (ts : List Tag) → is_ok (find_write_target ts) ≡ true
unfolding find_write_target
find_write_target-is_ok [] = refl
find_write_target-is_ok (t ∷ ts) =
    ground (arith, decode_object_id-is_ok t.value, find_write_target-is_ok ts)

first_object_id-is_ok : (body : Bytes) → is_ok (first_object_id body) ≡ true
unfolding first_object_id
first_object_id-is_ok body =
    bind-is_ok (iter_tags body 0 128) find_object_id (iter_tags-is_ok body 0 128)
      find_object_id-is_ok

first_enumerated-is_ok : (body : Bytes) → is_ok (first_enumerated body) ≡ true
unfolding first_enumerated
first_enumerated-is_ok body = ground (arith, iter_tags-is_ok body 0 128)

write_target-is_ok : (body : Bytes) → is_ok (write_target body) ≡ true
unfolding write_target
write_target-is_ok body = ground (
  arith,
  first_object_id-is_ok body,
  bind-is_ok (iter_tags body 0 128) find_write_target (iter_tags-is_ok body 0 128)
      find_write_target-is_ok,
)

pub absorb-is_ok :
    (body : Bytes) (p : Packet) (file_oid : ObjectId) (direction : Text) (d : BacnetDecoder)
    → is_ok (absorb body p file_oid direction d) ≡ true
unfolding absorb
absorb-is_ok body p file_oid direction d = ground (arith, iter_tags-is_ok body 0 128)

detail_written-is_ok :
    (body : Bytes) (p : Packet) (d : BacnetDecoder) (found : Option ObjectId)
    → is_ok (detail_written body p d found) ≡ true
unfolding detail_written
detail_written-is_ok body p d none = refl
detail_written-is_ok body p d (some file_oid) =
    ground (arith, absorb-is_ok body p file_oid (text "write") d)

detail_state-is_ok :
    (states : List (ℕ × Text)) (body : Bytes) (d : BacnetDecoder)
    → IsShort body
    → is_ok (detail_state states body d) ≡ true
unfolding detail_state
detail_state-is_ok states body d h =
    bind-Post-is_ok FoundDigits (first_enumerated body) _ (first_enumerated-is_ok body)
      (first_enumerated-HasDigits body h) (λ found. state_found-is_ok found)
  where
    state_found-is_ok :
        (found : Option ℕ)
        → FoundDigits found
        → is_ok {A = List FileCandidate × (Option Text × BacnetDecoder)} (elim found [
          | none ↦ ok ([], (none, d))
          | some state ↦
              formatted_name states [] state >>= λ name. ok ([], (some (text "state " ++ name), d))
        ])
          ≡ true
    state_found-is_ok none few = refl
    state_found-is_ok (some state) few =
        bind-is_ok (formatted_name states [] state) _ (formatted_name-is_ok states [] state few)
          (λ name. refl)

pub service_detail-is_ok :
    (service : ℕ) (body : Bytes) (p : Packet) (invoke_id : ℕ) (d : BacnetDecoder)
    → IsShort body
    → is_ok (service_detail service body p invoke_id d) ≡ true
unfolding service_detail detail_read_file detail_write_file detail_write
service_detail-is_ok service body p invoke_id d h = ground (
  arith,
  first_object_id-is_ok body,
  detail_state-is_ok reinitialize_states body d h,
  detail_state-is_ok device_communication_states body d h,
  write_target-is_ok body,
  bind-is_ok (first_object_id body) (detail_written body p d) (first_object_id-is_ok body)
      (detail_written-is_ok body p d),
)

-- The APDU of a short NPDU is short.
abbrev pub ShortNpdu : Option NpduContent → Type 0
ShortNpdu none = Unit
ShortNpdu (some content) = IsShort content.0

npdu_content-Short :
    (d : Bytes) (control behind : ℕ) → IsShort d → Post ShortNpdu (npdu_content d control behind)
unfolding npdu_content
npdu_content-Short d control behind h =
    let offset = if bit control 5 then behind + 1 else behind in
    if-Post ShortNpdu (ltb (length d) offset) _ _ (λ over. tt)
      (λ within.
        if-Post ShortNpdu (bit control 7) _ _
          (λ network.
            if-Post ShortNpdu (leb (length d) offset) _ _ (λ none_left. tt)
              (λ some_left. then-Post ShortNpdu (at d offset) _ (λ message. (tt, omega arith))))
          (λ apdu. drop-IsShort offset d h))

content_behind-Short :
    (d : Bytes) (control : ℕ) (found : Option ℕ)
    → IsShort d
    → Post ShortNpdu (content_behind d control found)
unfolding content_behind
content_behind-Short d control none h = tt
content_behind-Short d control (some behind) h = npdu_content-Short d control behind h

npdu_source-Short :
    (d : Bytes) (control : ℕ) (found : Option ℕ)
    → IsShort d
    → Post ShortNpdu (npdu_source d control found)
unfolding npdu_source
npdu_source-Short d control none h = tt
npdu_source-Short d control (some offset) h =
    then-Post ShortNpdu (skip_address d (bit control 3) offset) _
      (λ found. content_behind-Short d control found h)

pub parse_npdu-Short : (d : Bytes) → IsShort d → Post ShortNpdu (parse_npdu d)
unfolding parse_npdu
parse_npdu-Short d h =
    if-Post ShortNpdu (ltb (length d) 2) _ _ (λ short. tt)
      (λ long. then-Post ShortNpdu (at d 0) _ (λ version. then-Post ShortNpdu (at d 1) _ (λ control.
        then-Post ShortNpdu (skip_address d (bit control 5) 2) _ (λ found.
          if-Post ShortNpdu (version == 1) _ _ (λ known. npdu_source-Short d control found h)
            (λ other. tt)))))
