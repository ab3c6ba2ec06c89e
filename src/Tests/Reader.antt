-- ===== src/Tests/Reader.antt =====
-- pcap_reader.py on a small capture.
use pcap_decode.Base.{◌<◌, ◌≡◌, true, false, none, List, [], ◌∷◌, arith, length, take}
use pcap_decode.Base.Bytes.{Bytes, ok, raise, Error, little, big, is_ok}
use pcap_decode.Models.{Packet}
use pcap_decode.Reader.Decode.{decode_packet}
use pcap_decode.Reader.Total.{decode_packet_total}
use pcap_decode.Reader.File.{read_all}
use pcap_decode.Reader.File.Total.{is_known, read_all_total}
use pcap_decode.Reader.File.RoundTrip.{Capture, write_pcap, decode_captures, read_all_write}

-- A UDP datagram from 10.0.0.1:1024 to 10.0.0.2:53 with two bytes, behind a VLAN tag, and padding.
abbrev frame : Bytes
frame =
    0 ∷ 0 ∷ 0 ∷ 0 ∷ 0 ∷ 0 ∷ 0 ∷ 0 ∷ 0 ∷ 0 ∷ 0 ∷ 0 ∷ 0x81 ∷ 0 ∷ 0 ∷ 7 ∷ 8 ∷ 0 ∷ 0x45 ∷ 0 ∷ 0 ∷ 30 ∷ 0
    ∷ 0 ∷ 0 ∷ 0 ∷ 64 ∷ 17 ∷ 0 ∷ 0 ∷ 10 ∷ 0 ∷ 0 ∷ 1 ∷ 10 ∷ 0 ∷ 0 ∷ 2 ∷ 4 ∷ 0 ∷ 0 ∷ 53 ∷ 0 ∷ 10 ∷ 0
    ∷ 0 ∷ 42 ∷ 43 ∷ 0 ∷ 0 ∷ []

decode_packet_total_example :
    (p : Packet) × (decode_packet (λ d. d) little 1 0 1 frame ≡ ok p) × (p.ip_id ≡ none)
decode_packet_total_example = decode_packet_total (λ d. d) little 1 0 1 frame

abbrev captures : List Capture
captures = record { ts_sec = 3; ts_frac = 250; origlen = 48; frame = frame } ∷ []

read_all_write_example :
    read_all (λ d. d) little (write_pcap big true 65535 1 captures (1 ∷ []))
    ≡ decode_captures (λ d. d) little true 1 0 captures
read_all_write_example =
    read_all_write (λ d. d) little big true 65535 1 captures (1 ∷ [])
      ((omega arith, omega arith, omega arith), tt) (omega arith) (omega arith)

read_all_total_example :
    (is_known (take 4 frame) ≡ true → is_ok (read_all (λ d. d) little frame) ≡ true)
    × (is_known (take 4 frame) ≡ false
        → 0 < length frame
        → read_all (λ d. d) little frame ≡ raise Error.value_error)
    × (length frame ≡ 0 → read_all (λ d. d) little frame ≡ ok [])
read_all_total_example = read_all_total (λ d. d) little frame
