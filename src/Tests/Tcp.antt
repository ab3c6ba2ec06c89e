-- ===== src/Tests/Tcp.antt =====
-- tcp_reassembly.py on concrete segments, packets and tables.
use mathlib.Core.List.{reverse}
use mathlib.Core.Option.{map}
use pcap_decode.Base.{
  ℕ, zero, suc, ◌+◌, ◌≤◌, ◌<◌, ◌≡◌, refl, ◌↔◌, inl, inr, true, false, none, some, List, [], ◌∷◌,
  arith, length, take, All,
}
use pcap_decode.Base.Bytes.{Bytes}
use pcap_decode.Models.{
  FlowKey, flow_eq, Proto, normalized, reverse as swap, Packet, Flags, FlagDict, flags,
}
use pcap_decode.Models.Flow.{SameFlow, normalized_iff}
use pcap_decode.TcpReassembly.{
  DirectionalReassembler, new_reassembler, Arrival, add_segment, add_segment_fuel, get_data,
}
use pcap_decode.TcpReassembly.Delivery.{
  receive, IsSegment, Covered, receive_prefix, receive_complete,
}
use pcap_decode.TcpReassembly.Early.{add_segment_depth, add_segment_syn_data, add_segment_gap}
use pcap_decode.Connections.{process_packet, tcp_flow, finalize, run}
use pcap_decode.Connections.Table.{
  TableOk, IsOf, process_packet-TableOk, contents_of, entry_content, finalize_conversations,
}
use pcap_decode.Base.Dict.{lookup}
use pcap_decode.Base.Equality.{nat_eq, list_eq}
use pcap_decode.Connections.Counting.{run_counts, stream_packets, table_packets, tcp_packets}

abbrev plain : Flags
plain = record {
  fin = false;
  syn = false;
  rst = false;
  psh = false;
  ack = true;
  urg = false;
  ece = false;
  cwr = false;
}

abbrev syn_flags : FlagDict
syn_flags = flags (record plain { syn = true; ack = false })

-- The SYN of a stream whose first byte has the last sequence number before the wrap.
abbrev syn : Arrival
syn = record { seq = 0xffff_fffe; payload = []; flags = syn_flags; timestamp = 0; frame_num = 1 }

abbrev piece : ℕ → Bytes → Arrival
piece seq d = record { seq = seq; payload = d; flags = flags plain; timestamp = 0; frame_num = 2 }

abbrev stream : Bytes
stream = 71 ∷ 69 ∷ 84 ∷ []

-- The end first, past the wrap, then an overlapping start.
abbrev pieces : List Arrival
pieces = piece 0 (69 ∷ 84 ∷ []) ∷ piece 0xffff_ffff (71 ∷ 69 ∷ []) ∷ []

pieces_segments : All (IsSegment stream 0xffff_ffff) pieces
pieces_segments = (((1, refl, omega arith, refl), refl), (((0, refl, omega arith, refl), refl), tt))

pieces-Covered : (q : ℕ) → q < 3 → Covered stream 0xffff_ffff q pieces
pieces-Covered zero h = inr (inl (0, omega arith, refl, omega arith, omega arith))
pieces-Covered (suc q) h = inl (1, omega arith, refl, omega arith, omega arith)

receive_complete_example :
    let r = receive pieces (add_segment syn new_reassembler) in
    (get_data r ≡ stream) × (r.out_of_order ≡ [])
receive_complete_example =
    receive_complete stream syn pieces (omega arith) refl refl pieces_segments pieces-Covered

receive_prefix_example :
    let r = receive pieces (add_segment syn new_reassembler) in
    (r.data_buffer ≡ take (length r.data_buffer) stream)
    × ((p : ℕ) → ((q : ℕ) → q < p → Covered stream 0xffff_ffff q pieces) → p ≤ length r.data_buffer)
receive_prefix_example = receive_prefix stream syn pieces (omega arith) refl refl pieces_segments

-- A SYN that carries data.
abbrev fast_open : Arrival
fast_open = record { seq = 7; payload = stream; flags = syn_flags; timestamp = 0; frame_num = 1 }

-- A direction that starts at 100, and a segment that ends at 95.
abbrev midway : DirectionalReassembler
midway = record {
  base_seq = some 100;
  next_expected_seq = some 102;
  data_buffer = 1 ∷ 2 ∷ [];
  segments = [];
  out_of_order = [];
  is_closed = false;
}

add_segment_depth_example :
    add_segment_fuel 2 (piece 93 stream) midway ≡ some (add_segment (piece 93 stream) midway)
add_segment_depth_example = add_segment_depth 2 (piece 93 stream) midway refl (omega arith)

add_segment_syn_data_example :
    map (λ r. r.data_buffer) (add_segment_fuel 3 fast_open new_reassembler) ≡ some (reverse stream)
add_segment_syn_data_example = add_segment_syn_data 3 fast_open (omega arith) (omega arith) refl

add_segment_gap_example :
    let r = add_segment (piece 93 (8 ∷ 9 ∷ [])) midway in
    (r.data_buffer ≡ 8 ∷ 9 ∷ 1 ∷ 2 ∷ []) × (r.base_seq ≡ some 93) × (r.is_closed ≡ false)
add_segment_gap_example =
    add_segment_gap (piece 93 (8 ∷ 9 ∷ [])) midway 100 5 refl refl (omega arith) (omega arith)
      (omega arith) (omega arith) refl refl

-- Two hosts, and a conversation between them.
abbrev client_flow : FlowKey
client_flow = record {
  src_ip = 98 ∷ [];
  src_port = 4000;
  dst_ip = 97 ∷ [];
  dst_port = 80;
  proto = Proto.tcp;
}

normalized_iff_example :
    (normalized client_flow ≡ normalized (swap client_flow))
    ↔ SameFlow client_flow (swap client_flow)
normalized_iff_example = normalized_iff client_flow (swap client_flow)

abbrev packet : FlagDict → ℕ → Bytes → Packet
packet f seq d = record {
  frame_number = 1;
  timestamp = 5;
  link_type = 1;
  raw_data = [];
  ip_version = some 4;
  src_ip = some (98 ∷ []);
  dst_ip = some (97 ∷ []);
  ip_proto = some 6;
  ip_id = none;
  ip_frag_offset = 0;
  ip_more_frags = false;
  transport_proto = some Proto.tcp;
  src_port = some 4000;
  dst_port = some 80;
  seq_num = some seq;
  ack_num = some 0;
  tcp_flags = some f;
  payload = d;
}

abbrev packets : List Packet
packets =
    packet syn_flags 9 []
    ∷ packet (flags plain) 10 stream
    ∷ packet (flags (record plain { rst = true })) 13 []
    ∷ packet (flags plain) 20 (1 ∷ [])
    ∷ []

process_packet-TableOk_example :
    let p = packet syn_flags 9 [] in
    TableOk (process_packet p []).0
    × ((flow : FlowKey) → tcp_flow p ≡ some flow → IsOf flow (process_packet p []).1)
process_packet-TableOk_example = process_packet-TableOk (packet syn_flags 9 []) [] (tt, tt)

run_counts_example : stream_packets (run packets []) ≡ table_packets [] + tcp_packets packets
run_counts_example = run_counts packets [] (tt, tt)

finalize_conversations_example :
    let conns = (process_packet (packet (flags plain) 10 stream) []).0 in
    contents_of (normalized client_flow) (finalize conns)
    ≡ entry_content (lookup (normalized client_flow) conns)
finalize_conversations_example =
    let p = packet (flags plain) 10 stream in
    finalize_conversations (process_packet p []).0 (normalized client_flow)
      (process_packet-TableOk p [] (tt, tt)).0
