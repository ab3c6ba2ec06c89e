-- ===== src/Bacnet/Decoder.antt =====
-- protocols/bacnet.py, the state of `BacnetDecoder` and the methods that record what was seen.
-- The dicts `observations` and `devices` hold records; a field that the source may leave out is
-- optional.
use pcap_decode.Base.{
  ℕ, zero, suc, ◌+◌, Bool, false, ◌&&◌, ◌||◌, not, Option, none, some, List, [], ◌∷◌, ◌++◌, leb,
  ltb, ◌==◌, if◌then◌else◌, length,
}
use pcap_decode.Base.Equality.{◌==◌ as equals, nat_eq, list_eq, pair_eq, option_eq}
use pcap_decode.Base.Bytes.{Result, ok, ◌>>=◌}
use pcap_decode.Base.Dict.{Dict, lookup, insert}
use pcap_decode.Models.{Text, Packet}
use pcap_decode.Bacnet.Tables.{
  max_observations, max_devices, max_pending_file_reads, max_file_assembly_bytes,
  tag_object_identifier, tag_unsigned, tag_enumerated,
}
use pcap_decode.Bacnet.Tags.{ObjectId, Tag, decode_object_id}
use pcap_decode.Bacnet.Files.{FileBuffers, from_bytes}

pub record Device : Type 0 where
  pub address : Option Text
  pub first_seen : ℕ
  pub relayed_by : Option (Option Text)
  pub max_apdu_length : Option ℕ
  pub segmentation_supported : Option ℕ
  pub vendor_id : Option ℕ

pub record Observation : Type 0 where
  pub service : Text
  pub note : Text
  pub src_ip : Option Text
  pub dst_ip : Option Text
  pub count : ℕ
  pub first_seen : ℕ
  pub last_seen : ℕ
  pub details : List Text

-- The service and the two addresses.
abbrev pub ObservationKey : Type 0
ObservationKey = Text × (Text × Text)

-- The addresses and the invoke id of a request.
abbrev pub ReadKey : Type 0
ReadKey = Option Text × (Option Text × ℕ)

abbrev pub Counter : Type 0
Counter = Dict Text ℕ

pub record BacnetDecoder : Type 0 where
  pub max_file_bytes : ℕ
  pub bvlc_function_counts : Counter
  pub apdu_type_counts : Counter
  pub service_counts : Counter
  pub network_message_counts : Counter
  pub object_type_counts : Counter
  pub whois_by_source : Dict (Option Text) ℕ
  pub error_counts : Counter
  pub reject_counts : Counter
  pub abort_counts : Counter
  pub malformed_packets : ℕ
  pub packets_decoded : ℕ
  pub devices : Dict ℕ Device
  pub observations : Dict ObservationKey Observation
  pub pending_file_reads : Dict ReadKey ObjectId
  pub file_buffers : FileBuffers

-- `BacnetDecoder()`
abbrev pub new_decoder : BacnetDecoder
new_decoder = record {
  max_file_bytes = max_file_assembly_bytes;
  bvlc_function_counts = [];
  apdu_type_counts = [];
  service_counts = [];
  network_message_counts = [];
  object_type_counts = [];
  whois_by_source = [];
  error_counts = [];
  reject_counts = [];
  abort_counts = [];
  malformed_packets = 0;
  packets_decoded = 0;
  devices = [];
  observations = [];
  pending_file_reads = [];
  file_buffers = [];
}

-- `self.malformed_packets += 1`
abbrev pub malformed : BacnetDecoder → BacnetDecoder
malformed d = record d { malformed_packets = d.malformed_packets + 1 }

-- `ip or ""`
abbrev pub text_or_empty : Option Text → Text
text_or_empty none = []
text_or_empty (some t) = t

abbrev is_detail : Text → List Text → Bool
is_detail t [] = false
is_detail t (s ∷ ss) = equals t s || is_detail t ss

-- `if detail and detail not in record["details"] and len(record["details"]) < 8`
unfoldable pub add_detail : Option Text → List Text → List Text
add_detail none details = details
add_detail (some t) details =
    if ltb 0 (length t) && (not (is_detail t details) && ltb (length details) 8)
    then details ++ (t ∷ [])
    else details

abbrev pub new_observation : Text → Text → Packet → Observation
new_observation service note p = record {
  service = service;
  note = note;
  src_ip = p.src_ip;
  dst_ip = p.dst_ip;
  count = 0;
  first_seen = p.timestamp;
  last_seen = p.timestamp;
  details = [];
}

-- The update of an observation by one more packet.
unfoldable pub observe : Packet → Option Text → Observation → Observation
observe p detail o = record o {
  count = o.count + 1;
  last_seen = p.timestamp;
  details = add_detail detail o.details;
}

-- `_record_observation`
unfoldable pub record_observation :
    Text → Text → Packet → Option Text → BacnetDecoder → BacnetDecoder
record_observation service note p detail d =
    let k : ObservationKey = (service, (text_or_empty p.src_ip, text_or_empty p.dst_ip)) in
    elim (lookup k d.observations) [
      | none ↦ if leb max_observations (length d.observations) then d else record d {
        observations = insert k (observe p detail (new_observation service note p)) d.observations;
      }
      | some o ↦ record d { observations = insert k (observe p detail o) d.observations }
    ]

-- `_remember_file_read`
unfoldable pub remember_file_read : Packet → ℕ → ObjectId → BacnetDecoder → BacnetDecoder
remember_file_read p invoke_id file_oid d =
    let k : ReadKey = (p.src_ip, (p.dst_ip, invoke_id)) in
    let pending =
      if leb max_pending_file_reads (length d.pending_file_reads)
      then []
      else d.pending_file_reads in
    record d { pending_file_reads = insert k file_oid pending }

-- What `_record_i_am` reads of the tags: the device instance and the numbers.
pub record Announcement : Type 0 where
  pub device_instance : Option ℕ
  pub numbers : List ℕ

-- `object_id and object_id[0] == 8`
abbrev device_of : Option ObjectId → Option ℕ → Option ℕ
device_of none before = before
device_of (some (object_type, number)) before = if object_type == 8 then some number else before

-- The step of its `for` loop.
unfoldable pub read_announcement_tag : Tag → Announcement → Result Announcement
read_announcement_tag t a =
    if t.is_context
    then ok a
    else if t.tag_number == tag_object_identifier
    then (do
      object_id ← decode_object_id t.value
      ok (record a { device_instance = device_of object_id a.device_instance }))
    else if (t.tag_number == tag_unsigned || t.tag_number == tag_enumerated)
        && ltb 0 (length t.value)
    then ok (record a { numbers = a.numbers ++ (from_bytes t.value ∷ []) })
    else ok a

unfoldable pub read_announcement : List Tag → Announcement → Result Announcement
read_announcement [] a = ok a
read_announcement (t ∷ ts) a = read_announcement_tag t a >>= read_announcement ts

-- `numbers[i]`, which replaces a field where it is there.
abbrev number_or : List ℕ → ℕ → Option ℕ → Option ℕ
number_or [] i before = before
number_or (n ∷ ns) zero before = some n
number_or (n ∷ ns) (suc i) before = number_or ns i before

-- `origin_ip or packet.src_ip`
abbrev pub origin_or : Option Text → Option Text → Option Text
origin_or none src = src
origin_or (some []) src = src
origin_or (some (c ∷ s)) src = some (c ∷ s)

-- `origin_ip and origin_ip != packet.src_ip`
abbrev is_relayed : Option Text → Option Text → Bool
is_relayed none src = false
is_relayed (some []) src = false
is_relayed (some (c ∷ s)) src = not (equals (some (c ∷ s)) src)

unfoldable pub update_device : Packet → Option Text → List ℕ → Device → Device
update_device p origin_ip numbers v = record v {
  address = origin_or origin_ip p.src_ip;
  relayed_by = if is_relayed origin_ip p.src_ip then some p.src_ip else v.relayed_by;
  max_apdu_length = number_or numbers 0 v.max_apdu_length;
  segmentation_supported = number_or numbers 1 v.segmentation_supported;
  vendor_id = number_or numbers 2 v.vendor_id;
}

abbrev pub new_device : Packet → Device
new_device p = record {
  address = none;
  first_seen = p.timestamp;
  relayed_by = none;
  max_apdu_length = none;
  segmentation_supported = none;
  vendor_id = none;
}

-- The device of an announcement, stored under its instance.
unfoldable pub store_device : Packet → Option Text → Announcement → BacnetDecoder → BacnetDecoder
store_device p origin_ip a d = elim a.device_instance [
  | none ↦ d
  | some number ↦ if leb max_devices (length d.devices) then d else record d {
    devices =
        insert number
          (update_device p origin_ip a.numbers
            (elim (lookup number d.devices) [ none ↦ new_device p | some v ↦ v ]))
          d.devices;
  }
]
