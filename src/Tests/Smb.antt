-- ===== src/Tests/Smb.antt =====
-- protocols/smb.py on a client that writes a file of five bytes in two requests.
use pcap_decode.Base.{ℕ, ◌≡◌, refl, true, List, [], ◌∷◌, ◌++◌, arith, map, All, replicate}
use pcap_decode.Base.Bytes.{Bytes, ok, is_ok}
use pcap_decode.Base.Search.{starts_with}
use pcap_decode.Models.{text, Proto, TcpStream}
use pcap_decode.Smb.{write_key, parse_stream}
use pcap_decode.Smb.Frames.{Frame, IsFrame, encode_frames}
use pcap_decode.Smb.Writes.{IsWrite, contents, file_of, parse_stream-written}
use pcap_decode.Smb.Safety.{parse_stream-is_ok}

-- A WRITE request of session 7 with `size` bytes of data.
abbrev request : ℕ → Bytes → Bytes
request size d =
    0xfe
    ∷ b'S'
    ∷ b'M'
    ∷ b'B'
    ∷ (replicate 8 0
        ++ (9
            ∷ (replicate 27 0
                ++ (7 ∷ (replicate 31 0 ++ (112 ∷ 0 ∷ 0 ∷ 0 ∷ size ∷ (replicate 35 0 ++ d)))))))

abbrev frames : List Frame
frames =
    (record { kind = 0; body = request 3 (text "abc") })
    ∷ (record { kind = 0; body = request 2 (text "de") })
    ∷ []

frames-IsFrame : All IsFrame frames
unfolding text
frames-IsFrame = (
  record { full = omega arith; short = omega arith },
  (record { full = omega arith; short = omega arith }, tt),
)

frames-IsWrite : All (IsWrite 7 (replicate 16 0)) (map (λ f. f.body) frames)
unfolding text starts_with
frames-IsWrite = (
  record {
    smb = refl;
    long = omega arith;
    command = refl;
    session = refl;
    file = refl;
    behind = omega arith;
    filled = omega arith;
    within = omega arith;
  },
  (
    record {
      smb = refl;
      long = omega arith;
      command = refl;
      session = refl;
      file = refl;
      behind = omega arith;
      filled = omega arith;
      within = omega arith;
    },
    tt,
  ),
)

abbrev stream : TcpStream
stream = record {
  flow = record {
    src_ip = 97 ∷ [];
    src_port = 4000;
    dst_ip = 98 ∷ [];
    dst_port = 445;
    proto = Proto.tcp;
  };
  start_time = 0;
  end_time = 1;
  client_to_server = encode_frames frames;
  server_to_client = [];
  client_segments = [];
  server_segments = [];
  packets_count = 1;
  is_closed = true;
}

parse_stream-written_example :
    parse_stream (λ d. d) stream []
    ≡ ok ([], file_of stream (write_key 7 (replicate 16 0)) (contents (map (λ f. f.body) frames)))
parse_stream-written_example =
    parse_stream-written (λ d. d) stream [] 7 (replicate 16 0) frames refl refl refl frames-IsFrame
      frames-IsWrite

parse_stream-is_ok_example : is_ok (parse_stream (λ d. d) stream []) ≡ true
parse_stream-is_ok_example = parse_stream-is_ok (λ d. d) stream []
