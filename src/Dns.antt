-- ===== src/Dns.antt =====
-- pcap_decode/protocols/dns.py: names with compression, and the TXT records that carry data. The
-- parameters are `b64decode`, with `none` for an exception, and the test of the entropy, a float.
pub mod Safety
use pcap_decode.Base.{
  ℕ, zero, suc, ◌+◌, ◌-◌, ◌*◌, ◌/◌, ◌%◌, Bool, true, false, ◌&&◌, ◌||◌, not, Option, none, some,
  List, [], ◌∷◌, ◌++◌, leb, ltb, ◌==◌, if◌then◌else◌, length, take, drop,
}
use pcap_decode.Base.Bytes.{Bytes, Result, Error, ok, raise, ◌>>=◌, unpack, slice, byte, u16, big}
use pcap_decode.Base.Search.{is_infix}
use pcap_decode.Base.Strings.{is_space, strip, split}
use pcap_decode.Models.{Text, text, Proto, proto_beq, FlowKey, Packet, flow_key}

abbrev pub is_visited : ℕ → List ℕ → Bool
is_visited n [] = false
is_visited n (m ∷ ms) = n == m || is_visited n ms

-- The local variables of `parse_dns_name`.
pub record Walk : Type 0 where
  pub offset : ℕ
  pub visited_offsets : List ℕ
  pub initial_offset : ℕ
  pub jumped : Bool
  pub labels : List Text

-- The jump of a pointer at the offset.
abbrev pub jump : Bytes → Walk → Walk
jump d w = record {
  offset = u16 big d w.offset % 16384;
  visited_offsets = w.offset ∷ w.visited_offsets;
  initial_offset = if w.jumped then w.initial_offset else w.offset + 2;
  jumped = true;
  labels = w.labels;
}

-- A label of `n` bytes at the offset.
abbrev pub read_label : Bytes → ℕ → Walk → Walk
read_label d n w = record w {
  offset = w.offset + 1 + n;
  visited_offsets = w.offset ∷ w.visited_offsets;
  labels = w.labels ++ (slice d (w.offset + 1) (w.offset + 1 + n) ∷ []);
}

abbrev pub step_over : Walk → Walk
step_over w = record w { offset = w.offset + 1 }

-- The loop of `parse_dns_name`, with the jumps that are left.
unfoldable pub walk_name : ℕ → Bytes → ℕ → Walk → Result Walk
walk_name zero d jumps w = raise Error.no_fuel
walk_name (suc fuel) d zero w = ok w
walk_name (suc fuel) d (suc jumps) w =
    elim (leb (length d) w.offset || is_visited w.offset w.visited_offsets) [
      | true ↦ ok w
      | false ↦
          let n = byte d w.offset in
          elim (n == 0) [
            | true ↦ ok (step_over w)
            | false ↦ elim (n / 64 == 3) [
              | true ↦ elim (leb (length d) (w.offset + 1)) [
                | true ↦ ok w
                | false ↦ walk_name fuel d jumps (jump d w)
              ]
              | false ↦ elim (ltb (length d) (w.offset + 1 + n)) [
                | true ↦ ok (step_over w)
                | false ↦ walk_name fuel d (suc jumps) (read_label d n w)
              ]
            ]
          ]
    ]

-- `".".join(labels)`
unfoldable pub join_labels : List Text → Text
join_labels [] = []
join_labels (l ∷ []) = l
join_labels (l ∷ k ∷ ls) = l ++ (b'.' ∷ join_labels (k ∷ ls))

-- `parse_dns_name`: between two of the ten jumps the offset moves on.
unfoldable pub parse_dns_name : Bytes → ℕ → Result (Text × ℕ)
parse_dns_name d offset = do
  w ← walk_name (11 * (length d + 1) + 1) d 10 (record {
    offset = offset;
    visited_offsets = [];
    initial_offset = offset;
    jumped = false;
    labels = [];
  })
  ok (join_labels w.labels, if w.jumped then w.initial_offset else w.offset)

-- The strings of a TXT record, one behind the other.
unfoldable pub txt_strings : ℕ → Bytes → Bytes
txt_strings zero rdata = []
txt_strings (suc fuel) [] = []
txt_strings (suc fuel) (n ∷ rdata) = take n rdata ++ txt_strings fuel (drop n rdata)

pub record DnsObject : Type 0 where
  pub payload : Bytes
  pub filename : Text
  pub flow : Option FlowKey
  pub timestamp : ℕ
  pub dns_domain : Text
  pub raw_txt : Bytes

pub record Suspicious : Type 0 where
  pub domain : Text
  pub subdomain : Text
  pub size : ℕ
  pub timestamp : ℕ
  pub src_ip : Option Text
  pub dst_ip : Option Text

abbrev pub port_is : ℕ → Option ℕ → Bool
port_is n none = false
port_is n (some p) = p == n

abbrev is_transport : Proto → Option Proto → Bool
is_transport t none = false
is_transport t (some p) = proto_beq p t

-- `DnsDecoder.handles`
unfoldable pub handles : Packet → Bool
handles p =
    (is_transport Proto.udp p.transport_proto || is_transport Proto.tcp p.transport_proto)
    && (port_is 53 p.src_port || port_is 53 p.dst_port)

-- The message without the length that TCP puts in front.
unfoldable pub message_of : Packet → Bytes
message_of p =
    if is_transport Proto.tcp p.transport_proto
      && (leb 2 (length p.payload) && leb (u16 big p.payload 0 + 2) (length p.payload))
    then slice p.payload 2 (u16 big p.payload 0 + 2)
    else p.payload

abbrev pub first_part : List Text → Text
first_part [] = []
first_part (l ∷ ls) = l

-- The ASCII characters.
unfoldable pub ascii : Text → Bytes
ascii [] = []
ascii (c ∷ t) = let rest = ascii t in if ltb c 128 then c ∷ rest else rest

abbrev pub or_raw : Option Bytes → Bytes → Bytes
or_raw none raw = raw
or_raw (some []) raw = raw
or_raw (some (c ∷ d)) raw = c ∷ d

module _ (b64decode : Bytes → Option Bytes) (is_dense : Bytes → Bool) where
  -- `_check_suspicious_domain`
  unfoldable pub check_suspicious_domain : Text → Packet → List Suspicious → List Suspicious
  check_suspicious_domain domain p found =
      let subdomain = first_part (split (b'.' ∷ []) domain) in
      if ltb 35 (length subdomain) && is_dense (ascii subdomain)
      then found
        ++ ((record {
          domain = domain;
          subdomain = subdomain;
          size = length subdomain;
          timestamp = p.timestamp;
          src_ip = p.src_ip;
          dst_ip = p.dst_ip;
        })
            ∷ [])
      else found

  -- The loop over the questions, from `offset` on.
  unfoldable pub read_questions :
      ℕ → Bytes → ℕ → Packet → List Suspicious → Result (ℕ × List Suspicious)
  read_questions zero d offset p found = ok (offset, found)
  read_questions (suc n) d offset p found = elim (leb (length d) offset) [
    | true ↦ ok (offset, found)
    | false ↦ parse_dns_name d offset >>= λ name. elim (leb (name.1 + 4) (length d)) [
      | false ↦ read_questions n d name.1 p found
      | true ↦ unpack 4 (slice d name.1 (name.1 + 4)) >>= λ h.
          read_questions n d (name.1 + 4) p (check_suspicious_domain name.0 p found)
    ]
  ]

  -- `decoded_blob`
  unfoldable pub decoded_blob : Bytes → Option Bytes
  decoded_blob candidate =
      if ltb 20 (length candidate) && length candidate % 4 == 0 then b64decode candidate else none

  -- The object of a TXT record.
  unfoldable pub txt_object : Bytes → Text → Packet → List DnsObject
  txt_object raw_txt dname p =
      let target = or_raw (decoded_blob (strip is_space raw_txt)) raw_txt in
      if leb 32 (length target)
      then (record {
        payload = target;
        filename = text "dns_txt_" ++ (take 20 dname ++ text ".bin");
        flow = flow_key p;
        timestamp = p.timestamp;
        dns_domain = dname;
        raw_txt = raw_txt;
      })
        ∷ []
      else []

  -- The loop over the answers, from `offset` on.
  unfoldable pub read_answers : ℕ → Bytes → ℕ → Packet → Result (List DnsObject)
  read_answers zero d offset p = ok []
  read_answers (suc n) d offset p = elim (leb (length d) offset) [
    | true ↦ ok []
    | false ↦ parse_dns_name d offset >>= λ name. elim (ltb (length d) (name.1 + 10)) [
      | true ↦ ok []
      | false ↦ unpack 10 (slice d name.1 (name.1 + 10)) >>= λ h.
          elim (ltb (length d) (name.1 + 10 + u16 big h 8)) [
            | true ↦ ok []
            | false ↦
                let rdata = slice d (name.1 + 10) (name.1 + 10 + u16 big h 8) in
                let found =
                  (if u16 big h 0 == 16
                    then txt_object (txt_strings (length rdata) rdata) name.0 p
                    else []) in
                read_answers n d (name.1 + 10 + u16 big h 8) p >>= λ rest. ok (found ++ rest)
          ]
    ]
  ]

  -- `DnsDecoder.process_packet`, with the state `suspicious_domains`
  unfoldable pub process_packet :
      Packet → List Suspicious → Result (List DnsObject × List Suspicious)
  process_packet p found =
      let d = message_of p in
      if not (handles p) || (length p.payload == 0 || ltb (length d) 12)
      then ok ([], found)
      else (do
        h ← unpack 12 (slice d 0 12)
        asked ← read_questions (u16 big h 4) d 12 p found
        objects ← read_answers (u16 big h 6) d asked.0 p
        ok (objects, asked.1))
