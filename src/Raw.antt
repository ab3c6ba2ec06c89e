-- ===== src/Raw.antt =====
-- pcap_decode/protocols/raw.py: the candidates that are cut out of TCP streams and UDP packets as
-- they are, and the limits on those of UDP. A packet whose addresses are `None` prints them so.
pub mod Limits
use pcap_decode.Base.{
  ℕ, zero, suc, ◌+◌, ◌/◌, ◌%◌, ◌≡◌, ◌↔◌, Bool, true, false, ◌&&◌, ◌||◌, Option, none, some, List,
  [], ◌∷◌, ◌++◌, arith, leb, ltb, if◌then◌else◌, length,
}
use pcap_decode.Base.Equality.{Eq, ◌==◌, nat_eq}
use pcap_decode.Base.Bytes.{Bytes}
use pcap_decode.Base.Dict.{Dict, lookup, insert, increment, sum_values}
use pcap_decode.Models.{
  Text, text, number_text, Proto, FlowKey, flow_eq, normalized, reverse, Packet, flow_key,
  TcpStream,
}

abbrev pub telemetry_udp_ports : List ℕ
telemetry_udp_ports =
    67 ∷ 68 ∷ 123 ∷ 137 ∷ 138 ∷ 161 ∷ 162 ∷ 514 ∷ 1900 ∷ 3671 ∷ 5353 ∷ 5355 ∷ 2222 ∷ 20000 ∷ 34962
    ∷ 34963 ∷ 34964 ∷ 44818 ∷ []

abbrev pub max_raw_udp_candidates_per_flow : ℕ
max_raw_udp_candidates_per_flow = 8

abbrev pub max_tracked_udp_flows : ℕ
max_tracked_udp_flows = 200_000

abbrev pub min_raw_udp_payload : ℕ
min_raw_udp_payload = 32

-- The reasons that `_suppression_reason` gives.
pub data Reason : Type 0 where
  telemetry_port flow_table_full per_flow_cap : Reason

abbrev pub reason_beq : Reason → Reason → Bool
reason_beq Reason.telemetry_port Reason.telemetry_port = true
reason_beq Reason.flow_table_full Reason.flow_table_full = true
reason_beq Reason.per_flow_cap Reason.per_flow_cap = true
reason_beq _ _ = false

pub reason_beq_iff : (a b : Reason) → (reason_beq a b ≡ true) ↔ (a ≡ b)
reason_beq_iff a b = ground arith

instance abbrev pub reason_eq : Eq Reason
reason_eq = record { beq = reason_beq; beq_iff = reason_beq_iff }

pub record RawStreamDecoder : Type 0 where
  pub max_candidates : ℕ
  pub max_flows : ℕ
  pub udp_flow_counts : Dict FlowKey ℕ
  pub suppressed_udp_packets : Dict Reason ℕ

-- `RawStreamDecoder()`
abbrev pub new_decoder : RawStreamDecoder
new_decoder = record {
  max_candidates = max_raw_udp_candidates_per_flow;
  max_flows = max_tracked_udp_flows;
  udp_flow_counts = [];
  suppressed_udp_packets = [];
}

pub data Direction : Type 0 where
  client_to_server server_to_client : Direction

pub data Metadata : Type 0 where
  stream_side : Direction → ℕ → Metadata
  udp_frame : ℕ → Metadata

pub data Source : Type 0 where
  raw_tcp raw_udp : Source

pub record Candidate : Type 0 where
  pub payload : Bytes
  pub filename : Text
  pub source_protocol : Source
  pub flow : Option FlowKey
  pub timestamp : ℕ
  pub metadata : Metadata

abbrev pub tcp_filename : Text → ℕ → ℕ → Text
tcp_filename ip from_port to_port =
    text "raw_tcp_"
    ++ (ip
        ++ (95 ∷ (number_text from_port ++ (text "_to_" ++ (number_text to_port ++ text ".bin")))))

abbrev text_or_none : Option Text → Text
text_or_none none = text "None"
text_or_none (some t) = t

abbrev port_or_none : Option ℕ → Text
port_or_none none = text "None"
port_or_none (some n) = number_text n

abbrev pub udp_filename : Packet → Text
udp_filename p =
    text "raw_udp_" ++ (text_or_none p.src_ip ++ (95 ∷ (port_or_none p.src_port ++ text ".bin")))

abbrev pub client_candidate : TcpStream → Candidate
client_candidate s = record {
  payload = s.client_to_server;
  filename = tcp_filename s.flow.src_ip s.flow.src_port s.flow.dst_port;
  source_protocol = Source.raw_tcp;
  flow = some s.flow;
  timestamp = s.start_time;
  metadata = Metadata.stream_side Direction.client_to_server s.packets_count;
}

abbrev pub server_candidate : TcpStream → Candidate
server_candidate s = record {
  payload = s.server_to_client;
  filename = tcp_filename s.flow.dst_ip s.flow.dst_port s.flow.src_port;
  source_protocol = Source.raw_tcp;
  flow = some (reverse s.flow);
  timestamp = s.start_time;
  metadata = Metadata.stream_side Direction.server_to_client s.packets_count;
}

-- `parse_stream`
unfoldable pub parse_stream : TcpStream → List Candidate
parse_stream s =
    (if leb 16 (length s.client_to_server) then client_candidate s ∷ [] else [])
    ++ (if leb 16 (length s.server_to_client) then server_candidate s ∷ [] else [])

abbrev pub is_member : ℕ → List ℕ → Bool
is_member n [] = false
is_member n (m ∷ ms) = n == m || is_member n ms

-- `port in TELEMETRY_UDP_PORTS`
unfoldable pub is_telemetry : Option ℕ → Bool
is_telemetry none = false
is_telemetry (some port) = is_member port telemetry_udp_ports

-- `_suppression_reason` for the normalised flow `k`.
unfoldable pub count_flow : FlowKey → RawStreamDecoder → Option Reason × RawStreamDecoder
count_flow k d = elim (lookup k d.udp_flow_counts) [
  | none ↦
      if leb d.max_flows (length d.udp_flow_counts)
      then (some Reason.flow_table_full, d)
      else (none, record d { udp_flow_counts = insert k 1 d.udp_flow_counts })
  | some seen ↦
      if leb d.max_candidates seen
      then (some Reason.per_flow_cap, d)
      else (none, record d { udp_flow_counts = insert k (seen + 1) d.udp_flow_counts })
]

-- `_suppression_reason`
unfoldable pub suppression_reason : Packet → RawStreamDecoder → Option Reason × RawStreamDecoder
suppression_reason p d =
    if is_telemetry p.src_port || is_telemetry p.dst_port
    then (some Reason.telemetry_port, d)
    else elim (flow_key p) [ none ↦ (none, d) | some flow ↦ count_flow (normalized flow) d ]

-- `self.suppressed_udp_packets[reason] += 1`
unfoldable pub suppress : Reason → RawStreamDecoder → RawStreamDecoder
suppress reason d = record d { suppressed_udp_packets = increment reason d.suppressed_udp_packets }

abbrev pub udp_candidate : Packet → Candidate
udp_candidate p = record {
  payload = p.payload;
  filename = udp_filename p;
  source_protocol = Source.raw_udp;
  flow = flow_key p;
  timestamp = p.timestamp;
  metadata = Metadata.udp_frame p.frame_number;
}

-- The packets that `parse_udp_packet` considers.
unfoldable pub is_eligible : Packet → Bool
is_eligible p =
    elim p.transport_proto [ some Proto.udp ↦ true | _ ↦ false ]
    && leb min_raw_udp_payload (length p.payload)

-- `parse_udp_packet`
unfoldable pub parse_udp_packet : Packet → RawStreamDecoder → List Candidate × RawStreamDecoder
parse_udp_packet p d =
    if is_eligible p
    then (let (reason, d') = suppression_reason p d in
        elim reason [ none ↦ (udp_candidate p ∷ [], d') | some r ↦ ([], suppress r d') ])
    else ([], d)

pub record Summary : Type 0 where
  pub raw_udp_packets_suppressed : ℕ
  pub by_reason : Dict Reason ℕ
  pub tracked_udp_flows : ℕ
  pub max_candidates_per_flow : ℕ

unfoldable pub suppression_summary : RawStreamDecoder → Summary
suppression_summary d = record {
  raw_udp_packets_suppressed = sum_values d.suppressed_udp_packets;
  by_reason = d.suppressed_udp_packets;
  tracked_udp_flows = length d.udp_flow_counts;
  max_candidates_per_flow = d.max_candidates;
}

-- The candidates of a run over packets, and the decoder at its end.
unfoldable pub parse_packets : List Packet → RawStreamDecoder → List Candidate × RawStreamDecoder
parse_packets [] d = ([], d)
parse_packets (p ∷ ps) d =
    let (found, d') = parse_udp_packet p d in
    let (rest, d'') = parse_packets ps d' in (found ++ rest, d'')
