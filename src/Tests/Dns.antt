-- ===== src/Tests/Dns.antt =====
-- protocols/dns.py on a response whose name points to itself.
use pcap_decode.Base.{◌≡◌, true, false, none, some, [], ◌∷◌}
use pcap_decode.Base.Bytes.{is_ok}
use pcap_decode.Models.{Proto, Packet}
use pcap_decode.Reader.Decode.{new_packet}
use pcap_decode.Dns.{process_packet}
use pcap_decode.Dns.Safety.{process_packet_total}

-- One question, with a pointer to the byte 12 at the byte 12.
abbrev query : Packet
query = record (new_packet 1 0 1 []) {
  src_ip = some (97 ∷ []);
  dst_ip = some (98 ∷ []);
  transport_proto = some Proto.udp;
  src_port = some 4000;
  dst_port = some 53;
  payload = 0 ∷ 1 ∷ 0 ∷ 0 ∷ 0 ∷ 1 ∷ 0 ∷ 0 ∷ 0 ∷ 0 ∷ 0 ∷ 0 ∷ 192 ∷ 12 ∷ 0 ∷ 1 ∷ 0 ∷ 1 ∷ [];
}

process_packet_total_example : is_ok (process_packet (λ d. none) (λ d. false) query []) ≡ true
process_packet_total_example = process_packet_total (λ d. none) (λ d. false) query []
