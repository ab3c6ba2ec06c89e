-- ===== src/Tests/Raw.antt =====
-- protocols/raw.py on two UDP packets of one conversation.
use pcap_decode.Base.{ℕ, zero, suc, ◌+◌, ◌≤◌, ◌≡◌, some, List, [], ◌∷◌, arith, length}
use pcap_decode.Base.Bytes.{Bytes}
use pcap_decode.Base.Dict.{lookup, sum_values, count_of}
use pcap_decode.Models.{FlowKey, Proto, Packet, flow_eq}
use pcap_decode.Reader.Decode.{new_packet}
use pcap_decode.Raw.{reason_eq, RawStreamDecoder, new_decoder, parse_packets}
use pcap_decode.Raw.Limits.{
  Within, eligible_packets, conversation_candidates, parse_packets_accounts, parse_packets_capped,
}

abbrev repeat : ℕ → ℕ → Bytes
repeat b zero = []
repeat b (suc n) = b ∷ repeat b n

abbrev request : Packet
request = record (new_packet 1 0 1 []) {
  src_ip = some (97 ∷ []);
  dst_ip = some (98 ∷ []);
  transport_proto = some Proto.udp;
  src_port = some 4000;
  dst_port = some 5000;
  payload = repeat 7 40;
}

abbrev reply : Packet
reply = record request {
  src_ip = some (98 ∷ []);
  dst_ip = some (97 ∷ []);
  src_port = some 5000;
  dst_port = some 4000;
}

abbrev packets : List Packet
packets = request ∷ reply ∷ []

-- One candidate for each conversation.
abbrev strict : RawStreamDecoder
strict = record new_decoder { max_candidates = 1 }

abbrev conversation : FlowKey
conversation = record {
  src_ip = 97 ∷ [];
  src_port = 4000;
  dst_ip = 98 ∷ [];
  dst_port = 5000;
  proto = Proto.udp;
}

strict-Within : Within strict
unfolding lookup
strict-Within = record { flows = omega arith; capped = λ k. omega arith }

parse_packets_accounts_example :
    length (parse_packets packets strict).0
      + sum_values (parse_packets packets strict).1.suppressed_udp_packets
    ≡ sum_values strict.suppressed_udp_packets + eligible_packets packets
parse_packets_accounts_example = parse_packets_accounts packets strict

parse_packets_capped_example :
    Within (parse_packets packets strict).1
    × (conversation_candidates conversation (parse_packets packets strict).0
          + count_of (lookup conversation strict.udp_flow_counts)
        ≤ 1)
parse_packets_capped_example =
    parse_packets_capped conversation packets strict (omega arith) strict-Within
