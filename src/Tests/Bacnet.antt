-- ===== src/Tests/Bacnet.antt =====
-- protocols/bacnet.py on a write of a file and on a truncated packet.
use pcap_decode.Base.{◌≡◌, refl, some, true, false, List, [], ◌∷◌, arith, length}
use pcap_decode.Base.Int.{negsuc}
use pcap_decode.Base.Bytes.{Bytes, is_ok}
use pcap_decode.Models.{Proto, Packet, text}
use pcap_decode.Reader.Decode.{new_packet}
use pcap_decode.Bacnet.Tags.{Tag, iter_tags}
use pcap_decode.Bacnet.Total.{tags_fit, iter_tags-fits}
use pcap_decode.Bacnet.Files.{
  FileBuffer, new_buffer, write_chunks, absorb_file_data, read_transfer, read_transfer_tag,
  from_bytes_signed, from_bytes,
}
use pcap_decode.Bacnet.Limits.{
  Capped, candidates_capped, absorb_file_data-Capped, write_chunk_negative,
}
use pcap_decode.Bacnet.Decoder.{new_decoder}
use pcap_decode.Bacnet.Handling.{process_packet-is_ok}
use pcap_decode.Bacnet.{process_packet}

-- A start position of 1 and two bytes of data, as signed and octet-string tags.
abbrev body : Bytes
body = 0x31 ∷ 1 ∷ 0x62 ∷ 7 ∷ 8 ∷ []

abbrev packet : Packet
packet = record (new_packet 1 0 1 []) {
  src_ip = some (97 ∷ []);
  dst_ip = some (98 ∷ []);
  transport_proto = some Proto.udp;
  payload = 0x81 ∷ 10 ∷ 0 ∷ 7 ∷ 1 ∷ 0 ∷ 0x50 ∷ [];
}

abbrev position_tag : Tag
position_tag = record {
  tag_number = 3;
  is_context = false;
  lvt = 1;
  value = 1 ∷ [];
  next_offset = 2;
}

abbrev data_tag : Tag
data_tag = record {
  tag_number = 6;
  is_context = false;
  lvt = 2;
  value = 7 ∷ 8 ∷ [];
  next_offset = 5;
}

abbrev tags : List Tag
tags = position_tag ∷ data_tag ∷ []

iter_tags-fits_example : tags_fit body 0 128 (iter_tags body 0 128) ≡ true
iter_tags-fits_example = iter_tags-fits body 0 128

absorb_file_data-Capped_example :
    (candidates_capped 2 (absorb_file_data 2 tags packet (10, 1) (text "write") []).0 ≡ true)
    × Capped 2 (absorb_file_data 2 tags packet (10, 1) (text "write") []).1
unfolding read_transfer read_transfer_tag from_bytes_signed from_bytes
absorb_file_data-Capped_example =
    absorb_file_data-Capped 2 tags packet (10, 1) (text "write") [] refl tt

abbrev full : FileBuffer
full = record (new_buffer packet (10, 1) (text "write")) { payload = 1 ∷ 2 ∷ 3 ∷ [] }

-- The cap is 3, and the buffer then has 5 bytes.
write_chunk_negative_example :
    length (write_chunks 3 ((7 ∷ 8 ∷ []) ∷ []) (negsuc 1) full).payload ≡ 5
write_chunk_negative_example =
    write_chunk_negative 3 1 (7 ∷ 8 ∷ []) full (omega arith) (omega arith) (omega arith)

process_packet-is_ok_example : is_ok (process_packet packet new_decoder) ≡ true
process_packet-is_ok_example =
    process_packet-is_ok packet new_decoder
      (
        omega arith,
        (
          omega arith,
          (omega arith, (omega arith, (omega arith, (omega arith, (omega arith, tt))))),
        ),
      )
      (omega arith)
