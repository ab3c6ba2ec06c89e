-- ===== src/Tests/Run.antt =====
-- engine.py, `decode_file`, on a packet that the DNS decoder claims.
use pcap_decode.Base.{arith, ℕ, refl, inl, true, false, none, some, [], ◌∷◌}
use pcap_decode.Base.Bytes.{ok}
use pcap_decode.Models.{Proto, Packet}
use pcap_decode.Reader.Decode.{new_packet}
use pcap_decode.Raw
use pcap_decode.Bacnet.Decoder
use pcap_decode.Dns.{handles}
use pcap_decode.Engine.Run.{Engine, Run, process_udp}
use pcap_decode.Engine.Claims.{LeavesRaw, process_udp-LeavesRaw}

-- Libraries that decode nothing, and decoders for e-mail and FTP that find nothing.
abbrev engine : Engine ℕ ℕ ℕ
engine = record {
  calls = record {
    gzip_decompress = λ d. none;
    zlib_decompress = λ d. none;
    zlib_gzip = λ d. none;
    zlib_raw = λ d. none;
    zstd = none;
    unquote = λ t. t;
    url_path = λ t. ok t;
    match_filename = λ t. none;
    match_boundary = λ t. none;
  };
  decode_utf16 = λ d. d;
  re_search = λ p d. none;
  b64decode = λ d. none;
  is_dense = λ d. false;
  email = λ s e. ok ([], e);
  ftp = λ s f. ok ([], f);
  carve_raw_streams = true;
  min_payload_size = 16;
}

abbrev start : Run ℕ ℕ
start = record {
  defragmenter = [];
  connections = [];
  email_state = 0;
  ftp_state = 0;
  file_names = [];
  suspicious_domains = [];
  bacnet_decoder = Decoder.new_decoder;
  raw_decoder = Raw.new_decoder;
  packets_count = 0;
  tcp_streams_count = 0;
  udp_packets_count = 0;
}

abbrev query : Packet
query = record (new_packet 1 0 1 []) {
  src_ip = some (97 ∷ []);
  dst_ip = some (98 ∷ []);
  transport_proto = some Proto.udp;
  src_port = some 4000;
  dst_port = some 53;
  payload = 0 ∷ 1 ∷ 0 ∷ 0 ∷ 0 ∷ 1 ∷ 0 ∷ 0 ∷ 0 ∷ 0 ∷ 0 ∷ 0 ∷ 192 ∷ 12 ∷ 0 ∷ 1 ∷ 0 ∷ 1 ∷ [];
}

process_udp-LeavesRaw_example : LeavesRaw start.raw_decoder (process_udp engine query start)
unfolding handles
process_udp-LeavesRaw_example =
    process_udp-LeavesRaw engine query start
      (
        omega arith,
        (
          omega arith,
          (
            omega arith,
            (
              omega arith,
              (
                omega arith,
                (
                  omega arith,
                  (
                    omega arith,
                    (
                      omega arith,
                      (
                        omega arith,
                        (
                          omega arith,
                          (
                            omega arith,
                            (
                              omega arith,
                              (
                                omega arith,
                                (
                                  omega arith,
                                  (omega arith, (omega arith, (omega arith, (omega arith, tt)))),
                                ),
                              ),
                            ),
                          ),
                        ),
                      ),
                    ),
                  ),
                ),
              ),
            ),
          ),
        ),
      )
      (omega arith) (inl refl)
