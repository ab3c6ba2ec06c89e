-- ===== src/Connections.antt =====
-- pcap_decode/tcp_reassembly.py, `class ConnectionTracker` and `class TcpReassembler`: the two
-- directions of a connection, and the table of connections by normalised flow key. The table is the
-- dict `connections`; a tracker that a method changes is written back under its key.
pub mod Table
pub mod Counting
use pcap_decode.Base.{
  ℕ, ◌+◌, max, Bool, true, false, ◌&&◌, ◌||◌, not, Option, none, some, List, [], ◌∷◌, ◌++◌, ltb,
  if◌then◌else◌, length,
}
use pcap_decode.Base.Equality.{◌==◌, nat_eq, list_eq}
use pcap_decode.Base.Dict.{Dict, lookup, insert, erase}
use pcap_decode.Models.{
  Text, Proto, FlowKey, flow_beq, flow_eq, normalized, Packet, flow_key, FlagDict, no_flags, flags,
  get_syn, get_rst, TcpStream,
}
use pcap_decode.TcpReassembly.{
  DirectionalReassembler, new_reassembler, Arrival, add_segment, get_data,
}

pub record ConnectionTracker : Type 0 where
  pub client_flow : FlowKey
  pub start_time : ℕ
  pub end_time : ℕ
  pub packets_count : ℕ
  pub client_to_server : DirectionalReassembler
  pub server_to_client : DirectionalReassembler
  pub is_closed : Bool

-- `ConnectionTracker(client_flow, start_time)`
abbrev pub new_tracker : FlowKey → ℕ → ConnectionTracker
new_tracker flow time = record {
  client_flow = flow;
  start_time = time;
  end_time = time;
  packets_count = 0;
  client_to_server = new_reassembler;
  server_to_client = new_reassembler;
  is_closed = false;
}

-- `packet.tcp_flags or {}`
abbrev pub flags_or_empty : Option FlagDict → FlagDict
flags_or_empty none = no_flags
flags_or_empty (some f) = f

-- `packet.seq_num or 0`
abbrev pub number_or_zero : Option ℕ → ℕ
number_or_zero none = 0
number_or_zero (some n) = n

-- `==` between an optional value of a packet and a field of a flow key.
abbrev pub is_text_eq : Option Text → Text → Bool
is_text_eq none t = false
is_text_eq (some s) t = s == t

abbrev pub is_port_eq : Option ℕ → ℕ → Bool
is_port_eq none q = false
is_port_eq (some p) q = p == q

abbrev pub arrival_of : Packet → Arrival
arrival_of p = record {
  seq = number_or_zero p.seq_num;
  payload = p.payload;
  flags = flags_or_empty p.tcp_flags;
  timestamp = p.timestamp;
  frame_num = p.frame_number;
}

abbrev pub is_c2s : Packet → ConnectionTracker → Bool
is_c2s p t =
    is_text_eq p.src_ip t.client_flow.src_ip && is_port_eq p.src_port t.client_flow.src_port

-- `ConnectionTracker.process_packet`
unfoldable pub track : Packet → ConnectionTracker → ConnectionTracker
track p t =
    let c2s = is_c2s p t in
    let client =
      if c2s then add_segment (arrival_of p) t.client_to_server else t.client_to_server in
    let server =
      if c2s then t.server_to_client else add_segment (arrival_of p) t.server_to_client in
    record t {
      packets_count = t.packets_count + 1;
      end_time = max t.end_time p.timestamp;
      client_to_server = client;
      server_to_client = server;
      is_closed =
          if client.is_closed && server.is_closed || get_rst (flags_or_empty p.tcp_flags)
          then true
          else t.is_closed;
    }

-- `ConnectionTracker.build_stream`
unfoldable pub build_stream : ConnectionTracker → TcpStream
build_stream t = record {
  flow = t.client_flow;
  start_time = t.start_time;
  end_time = t.end_time;
  client_to_server = get_data t.client_to_server;
  server_to_client = get_data t.server_to_client;
  client_segments = t.client_to_server.segments;
  server_segments = t.server_to_client.segments;
  packets_count = t.packets_count;
  is_closed = t.is_closed;
}

abbrev pub TcpReassembler : Type 0
TcpReassembler = Dict FlowKey ConnectionTracker

-- `packet.tcp_flags and not packet.tcp_flags.get("SYN", False)`
abbrev pub is_late : Option FlagDict → Bool
is_late none = false
is_late (some no_flags) = false
is_late (some (flags f)) = not f.syn

-- The flow that a new tracker gets: the sender of a SYN is the client.
unfoldable pub tracker_flow : Packet → FlowKey → FlowKey
tracker_flow p flow =
    if is_late p.tcp_flags && not (flow_beq (normalized flow) flow) then normalized flow else flow

-- The tracker of the packet's connection, a new one where there is none.
unfoldable pub find_tracker : Packet → FlowKey → TcpReassembler → ConnectionTracker
find_tracker p flow conns = elim (lookup (normalized flow) conns) [
  | none ↦ new_tracker (tracker_flow p flow) p.timestamp
  | some t ↦ t
]

-- The connection is over and has data to hand on.
unfoldable pub is_finished : ConnectionTracker → Bool
is_finished t =
    t.is_closed
    && (ltb 0 (length t.client_to_server.data_buffer)
        || ltb 0 (length t.server_to_client.data_buffer))

-- `process_packet` for a TCP packet of the flow `flow`.
unfoldable pub process_flow : Packet → FlowKey → TcpReassembler → TcpReassembler × Option TcpStream
process_flow p flow conns =
    let key = normalized flow in
    let t = track p (find_tracker p flow conns) in
    let stored = insert key t conns in
    if is_finished t then (erase key stored, some (build_stream t)) else (stored, none)

-- The flow key of a packet that `TcpReassembler.process_packet` takes.
unfoldable pub tcp_flow : Packet → Option FlowKey
tcp_flow p = elim p.transport_proto [ some Proto.tcp ↦ flow_key p | _ ↦ none ]

-- `TcpReassembler.process_packet`
unfoldable pub process_packet : Packet → TcpReassembler → TcpReassembler × Option TcpStream
process_packet p conns = elim (tcp_flow p) [
  | none ↦ (conns, none)
  | some flow ↦ process_flow p flow conns
]

-- `TcpReassembler.finalize`: the streams; the table is cleared.
unfoldable pub finalize : TcpReassembler → List TcpStream
finalize [] = []
finalize ((key, t) ∷ conns) =
    let rest = finalize conns in if ltb 0 t.packets_count then build_stream t ∷ rest else rest

-- The calls that `decode_file` makes: every packet in turn, then `finalize`.
unfoldable pub run : List Packet → TcpReassembler → List TcpStream
run [] conns = finalize conns
run (p ∷ ps) conns =
    let (conns', out) = process_packet p conns in
    elim out [ none ↦ run ps conns' | some s ↦ s ∷ run ps conns' ]
