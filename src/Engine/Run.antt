-- ===== src/Engine/Run.antt =====
-- engine.py, `decode_file` and `_process_stream`: the packets of a capture through the defragmenter,
-- the reassembler, the decoders and the carver. The e-mail and FTP decoders are parameters
-- with their own states; what they find has the type `O`.
use pcap_decode.Base.{
  ℕ, ◌+◌, Bool, true, false, ◌&&◌, ◌||◌, not, Option, none, some, List, [], ◌∷◌, ◌++◌, map, leb,
  if◌then◌else◌, length,
}
use pcap_decode.Base.Bytes.{Bytes, Result, ok, ◌>>=◌}
use pcap_decode.Models.{Text, Proto, proto_beq, FlowKey, reverse, Packet, TcpStream}
use pcap_decode.IpReassembly.{IpDefragmenter}
use pcap_decode.IpReassembly
use pcap_decode.Connections.{TcpReassembler}
use pcap_decode.Connections
use pcap_decode.Raw.{
  RawStreamDecoder, Candidate, Direction, client_to_server, server_to_client, parse_udp_packet,
}
use pcap_decode.Raw
use pcap_decode.Bacnet.Decoder.{BacnetDecoder}
use pcap_decode.Bacnet.Files.{FileCandidate}
use pcap_decode.Bacnet.Npdu
use pcap_decode.Bacnet
use pcap_decode.Dns.{DnsObject, Suspicious}
use pcap_decode.Dns
use pcap_decode.Smb.{SmbObject, FileNames}
use pcap_decode.Smb
use pcap_decode.Http.Objects.{Calls, HttpObject}
use pcap_decode.Http.Stream
use pcap_decode.Carver.{Carved}
use pcap_decode.Carver.Whole.{carve_all}

-- A candidate, by the part that found it.
pub data Found (O : Type 0) : Type 0 where
  http_found : HttpObject → Found O
  other_found : O → Found O
  smb_found : SmbObject → Found O
  carved_found : Direction → FlowKey → ℕ → Carved → Found O
  dns_found : DnsObject → Found O
  bacnet_found : FileCandidate → Found O
  raw_found : Candidate → Found O

-- The state of the decoders and the counters of a run.
pub record Run (E F : Type 0) : Type 0 where
  pub defragmenter : IpDefragmenter
  pub connections : TcpReassembler
  pub email_state : E
  pub ftp_state : F
  pub file_names : FileNames
  pub suspicious_domains : List Suspicious
  pub bacnet_decoder : BacnetDecoder
  pub raw_decoder : RawStreamDecoder
  pub packets_count : ℕ
  pub tcp_streams_count : ℕ
  pub udp_packets_count : ℕ

abbrev pub is_proto : Proto → Option Proto → Bool
is_proto t none = false
is_proto t (some p) = proto_beq p t

abbrev is_none {ℓ} : {A : Type ℓ} → List A → Bool
is_none [] = true
is_none (x ∷ xs) = false

-- The settings of the engine, and what it calls outside the modelled parts.
pub record Engine (O E F : Type 0) : Type 0 where
  pub calls : Calls
  pub decode_utf16 : Bytes → Text
  pub re_search : Text → Bytes → Option ℕ
  pub b64decode : Bytes → Option Bytes
  pub is_dense : Bytes → Bool
  pub email : TcpStream → E → Result (List O × E)
  pub ftp : TcpStream → F → Result (List O × F)
  pub carve_raw_streams : Bool
  pub min_payload_size : ℕ

module _ {O E F : Type 0} (engine : Engine O E F) where
  -- What the carver finds in one direction of a stream.
  unfoldable pub carve_side : Direction → FlowKey → ℕ → Bytes → Result (List (Found O))
  carve_side direction flow timestamp data_chunk =
      if leb engine.min_payload_size (length data_chunk)
      then (carve_all engine.re_search data_chunk >>= λ items.
          ok (map (λ item. carved_found direction flow timestamp item) items))
      else ok []

  -- `_process_stream`
  unfoldable pub process_stream : TcpStream → Run E F → Result (List (Found O) × Run E F)
  process_stream s st = do
    http_objs ← Stream.parse_stream engine.calls s
    email_objs ← engine.email s st.email_state
    ftp_objs ← engine.ftp s st.ftp_state
    smb_objs ← Smb.parse_stream engine.decode_utf16 s st.file_names
    c2s ← carve_side client_to_server s.flow s.start_time s.client_to_server
    s2c ← carve_side server_to_client (reverse s.flow) s.start_time s.server_to_client
    let no_match =
        is_none http_objs && (is_none email_objs.0 && (is_none ftp_objs.0 && is_none smb_objs.1))
    let raw_objs : List (Found O) =
        if no_match && engine.carve_raw_streams then map raw_found (Raw.parse_stream s) else []
    let found : List (Found O) =
        map http_found http_objs
        ++ (map other_found email_objs.0
            ++ (map other_found ftp_objs.0
                ++ (map smb_found smb_objs.1 ++ (c2s ++ (s2c ++ raw_objs)))))
    let next : Run E F = record st {
      email_state = email_objs.1;
      ftp_state = ftp_objs.1;
      file_names = smb_objs.0;
    }
    ok (found, next)

  -- The objects of a UDP packet that the DNS decoder claims.
  unfoldable pub claim_dns : Packet → Run E F → Result (List (Found O) × Run E F)
  claim_dns p st =
      if Dns.handles p
      then (Dns.process_packet engine.b64decode engine.is_dense p st.suspicious_domains >>= λ r.
          ok (map dns_found r.0, record st { suspicious_domains = r.1 }))
      else ok ([], st)

  unfoldable pub claim_bacnet : Packet → Bool → Run E F → Result (List (Found O) × Run E F)
  claim_bacnet p taken st =
      if taken
      then (Bacnet.process_packet p st.bacnet_decoder >>= λ r.
          ok (map bacnet_found r.0, record st { bacnet_decoder = r.1 }))
      else ok ([], st)

  -- The raw decoder takes what no other decoder claims.
  unfoldable pub carve_udp : Bool → Packet → Run E F → List (Found O) × Run E F
  carve_udp claimed p st =
      let r = parse_udp_packet p st.raw_decoder in
      if engine.carve_raw_streams && not claimed
      then (map raw_found r.0, record st { raw_decoder = r.1 })
      else ([], st)

  -- A UDP packet.
  unfoldable pub process_udp : Packet → Run E F → Result (List (Found O) × Run E F)
  process_udp p st = do
    dns ← claim_dns p (record st { udp_packets_count = st.udp_packets_count + 1 })
    taken ← Bacnet.Npdu.handles p
    bacnet ← claim_bacnet p taken dns.1
    let rest = carve_udp (Dns.handles p || taken) p bacnet.1
    ok (dns.0 ++ (bacnet.0 ++ rest.0), rest.1)

  -- A stream that is handed on.
  unfoldable pub count_stream : TcpStream → Run E F → Result (List (Found O) × Run E F)
  count_stream s st = process_stream s (record st { tcp_streams_count = st.tcp_streams_count + 1 })

  -- A TCP packet.
  unfoldable pub process_tcp : Packet → Run E F → Result (List (Found O) × Run E F)
  process_tcp p st =
      let r = Connections.process_packet p st.connections in
      let next : Run E F = record st { connections = r.0 } in
      elim r.1 [ none ↦ ok ([], next) | some s ↦ count_stream s next ]

  -- A packet behind the defragmenter.
  unfoldable pub process_whole : Packet → Run E F → Result (List (Found O) × Run E F)
  process_whole p st =
      if is_proto Proto.udp p.transport_proto
      then process_udp p st
      else if is_proto Proto.tcp p.transport_proto
      then process_tcp p st
      else ok ([], st)

  -- The body of the loop over the packets.
  unfoldable pub process_raw : Packet → Run E F → Result (List (Found O) × Run E F)
  process_raw raw_pkt st =
      let r = IpReassembly.process raw_pkt st.defragmenter in
      let next : Run E F = record st { packets_count = st.packets_count + 1; defragmenter = r.0 } in
      elim r.1 [ none ↦ ok ([], next) | some p ↦ process_whole p next ]

  unfoldable pub process_packets : List Packet → Run E F → Result (List (Found O) × Run E F)
  process_packets [] st = ok ([], st)
  process_packets (p ∷ ps) st = do
    first ← process_raw p st
    rest ← process_packets ps first.1
    ok (first.0 ++ rest.0, rest.1)

  unfoldable pub process_streams : List TcpStream → Run E F → Result (List (Found O) × Run E F)
  process_streams [] st = ok ([], st)
  process_streams (s ∷ ss) st = do
    first ← count_stream s st
    rest ← process_streams ss first.1
    ok (first.0 ++ rest.0, rest.1)

  -- The candidates that `decode_file` collects from the packets of a capture.
  unfoldable pub collect : List Packet → Run E F → Result (List (Found O) × Run E F)
  collect packets st = do
    seen ← process_packets packets st
    ended ← process_streams (Connections.finalize seen.1.connections) seen.1
    let last = Bacnet.finalize ended.1.bacnet_decoder
    ok (seen.0 ++ (ended.0 ++ map bacnet_found last.0), record ended.1 { bacnet_decoder = last.1 })
