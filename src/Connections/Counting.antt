-- ===== src/Connections/Counting.antt =====
-- tcp_reassembly.py: no packet is lost and none is counted twice.
use pcap_decode.Base.{
  ℕ, ◌+◌, ◌≡◌, refl, inl, inr, Option, none, some, List, [], ◌∷◌, arith, Option-cases,
}
use pcap_decode.Base.Dict.{lookup, insert, erase}
use pcap_decode.Models.{FlowKey, flow_eq, flow_beq_iff, normalized, Packet, TcpStream}
use pcap_decode.Connections.{
  ConnectionTracker, TcpReassembler, track, build_stream, find_tracker, process_flow,
  process_packet, tcp_flow, finalize, run,
}
use pcap_decode.Connections.Table.{TableOk, EntriesOk, track_count, process_packet-TableOk}

-- The packets counted in a table, in streams, and the TCP packets of a capture.
unfoldable pub table_packets : TcpReassembler → ℕ
table_packets [] = 0
table_packets ((k, t) ∷ conns) = t.packets_count + table_packets conns

unfoldable pub stream_packets : List TcpStream → ℕ
stream_packets [] = 0
stream_packets (s ∷ ss) = s.packets_count + stream_packets ss

unfoldable pub tcp_packets : List Packet → ℕ
tcp_packets [] = 0
tcp_packets (p ∷ ps) = elim (tcp_flow p) [ none ↦ 0 | some _ ↦ 1 ] + tcp_packets ps

-- The packets of the entry of `k`.
abbrev entry_packets : Option ConnectionTracker → ℕ
entry_packets none = 0
entry_packets (some t) = t.packets_count

table_packets-insert :
    (k : FlowKey) (t : ConnectionTracker) (conns : TcpReassembler)
    → table_packets (insert k t conns) + entry_packets (lookup k conns)
      ≡ table_packets conns + t.packets_count
unfolding table_packets insert lookup
table_packets-insert k t [] = omega arith
table_packets-insert k t ((j, u) ∷ conns) = ground (arith, table_packets-insert k t conns)

table_packets-erase-insert :
    (k : FlowKey) (t : ConnectionTracker) (conns : TcpReassembler)
    → table_packets (erase k (insert k t conns)) + entry_packets (lookup k conns)
      ≡ table_packets conns
unfolding table_packets insert lookup erase
table_packets-erase-insert k t [] = ground (arith, flow_beq_iff k k)
table_packets-erase-insert k t ((j, u) ∷ conns) =
    ground (arith, table_packets-erase-insert k t conns)

out_packets : Option TcpStream → ℕ
out_packets none = 0
out_packets (some s) = s.packets_count

find_tracker_count :
    (p : Packet) (flow : FlowKey) (conns : TcpReassembler)
    → (find_tracker p flow conns).packets_count ≡ entry_packets (lookup (normalized flow) conns)
unfolding find_tracker
find_tracker_count p flow conns = ground arith

process_flow_counts :
    (p : Packet) (flow : FlowKey) (conns : TcpReassembler)
    → table_packets (process_flow p flow conns).0 + out_packets (process_flow p flow conns).1
      ≡ table_packets conns + 1
unfolding process_flow build_stream out_packets
process_flow_counts p flow conns =
    let t = track p (find_tracker p flow conns) in
    let k = normalized flow in
    ground (
      arith,
      track_count p (find_tracker p flow conns),
      find_tracker_count p flow conns,
      table_packets-insert k t conns,
      table_packets-erase-insert k t conns,
    )

finalize_counts :
    (conns : TcpReassembler)
    → EntriesOk conns
    → stream_packets (finalize conns) ≡ table_packets conns
unfolding finalize stream_packets table_packets build_stream
finalize_counts [] h = refl
finalize_counts ((k, t) ∷ conns) h =
    let counted = h.0.counted in ground (arith, finalize_counts conns h.1)

-- 1 for a packet that the reassembler takes.
abbrev taken : Packet → ℕ
taken p = elim (tcp_flow p) [ none ↦ 0 | some _ ↦ 1 ]

process_packet_counts :
    (p : Packet) (conns : TcpReassembler)
    → table_packets (process_packet p conns).0 + out_packets (process_packet p conns).1
      ≡ table_packets conns + taken p
unfolding process_packet out_packets
process_packet_counts p conns = elim (Option-cases (tcp_flow p)) [
  | inl other ↦ ground arith
  | inr (flow, e) ↦ ground (arith, process_flow_counts p flow conns)
]

run_cons :
    (p : Packet) (ps : List Packet) (conns : TcpReassembler)
    → stream_packets (run (p ∷ ps) conns)
      ≡ out_packets (process_packet p conns).1 + stream_packets (run ps (process_packet p conns).0)
unfolding run stream_packets out_packets
run_cons p ps conns = ground arith

-- Whatever the packets are, the streams that a run hands on, those of `finalize` included, count
-- together every TCP packet with a flow key exactly once, beside those counted in the table before.
pub run_counts :
    (ps : List Packet) (conns : TcpReassembler)
    → TableOk conns
    → stream_packets (run ps conns) ≡ table_packets conns + tcp_packets ps
unfolding run tcp_packets
run_counts [] conns h = omega (arith, finalize_counts conns h.1)
run_counts (p ∷ ps) conns h = omega (
  arith,
  run_cons p ps conns,
  process_packet_counts p conns,
  run_counts ps (process_packet p conns).0 (process_packet-TableOk p conns h).0,
)
