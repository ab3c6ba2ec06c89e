-- ===== src/Tests/Http.antt =====
-- protocols/http.py on chunked bodies and on responses, one of them with a negative length.
use pcap_decode.Base.{
  suc, ◌≡◌, refl, ◌⊎◌, true, false, none, List, [], ◌∷◌, ◌++◌, arith, map, length, All,
}
use pcap_decode.Base.Int.{negsuc}
use pcap_decode.Base.Equality.{list_eq, nat_eq}
use pcap_decode.Base.Dict.{lookup, insert}
use pcap_decode.Base.Bytes.{Bytes, ok, raise, Error, is_ok}
use pcap_decode.Base.Search.{starts_with, find, is_infix}
use pcap_decode.Base.Strings.{
  lstrip, rstrip, int_of_bytes, int_of_text, int_signed, int_prefix, int_digits, digit_in,
  digit_value, split_fuel, lower_text,
}
use pcap_decode.Models.{text, Proto, reverse, TcpStream}
use pcap_decode.Http.{
  crlf, blank_line, before, chunk_size, dechunk_http_body, parse_http_headers, headers_of,
  add_headers, add_header, is_valid, content_length, parse_http_messages,
}
use pcap_decode.Http.Objects.{Calls}
use pcap_decode.Http.Stream.{parse_stream}
use pcap_decode.Http.Chunks.{Chunk, IsChunk, encode, bodies, dechunk-encode, dechunk_stuck}
use pcap_decode.Http.Framing.{
  Sent, IsSent, IsHead, encode_messages, message_of, messages-encode, messages_stuck,
}
use pcap_decode.Http.Ends.{NegativeChunk, NegativeLength, loops_end}
use pcap_decode.Http.Served.{Yields, full_bodies, IsPlain, parse_stream-Yields}

abbrev chunks : List Chunk
chunks =
    (record { line = text "3;a=b"; body = text "abc" })
    ∷ (record { line = text "1"; body = text "d" })
    ∷ []

chunks-IsChunk : All IsChunk chunks
unfolding text find starts_with chunk_size before int_of_bytes int_signed int_prefix int_digits
    digit_in digit_value lstrip rstrip
chunks-IsChunk = (
  record { alone = refl; sized = refl; filled = omega arith },
  (record { alone = refl; sized = refl; filled = omega arith }, tt),
)

dechunk-encode_example :
    dechunk_http_body 3 (encode chunks (text "0" ++ (crlf ++ text "rest"))) ≡ ok (bodies chunks)
unfolding text find starts_with chunk_size before int_of_bytes int_signed int_prefix int_digits
    digit_in digit_value lstrip rstrip
dechunk-encode_example =
    dechunk-encode 3 chunks (text "0") (text "rest") chunks-IsChunk refl refl (omega arith)

dechunk_stuck_example :
    dechunk_http_body 1000 (text "-6" ++ (crlf ++ text "rest")) ≡ raise Error.no_fuel
unfolding text find starts_with chunk_size before int_of_bytes int_signed int_prefix int_digits
    digit_in digit_value lstrip rstrip
dechunk_stuck_example = dechunk_stuck 1000 (text "-6") (text "rest") refl refl

abbrev response : Sent
response = record {
  head = text "HTTP/1.1 200 OK" ++ (crlf ++ text "Content-Length: 3");
  body = text "abc";
}

response-IsSent : IsSent false response
unfolding text find starts_with lookup insert int_of_text int_signed int_prefix int_digits digit_in
    digit_value lstrip rstrip split_fuel lower_text headers_of add_headers add_header is_valid
    parse_http_headers content_length
response-IsSent = record { alone = refl; full = refl; valid = refl; sized = refl }

response-IsPlain : IsPlain response
unfolding text find starts_with lookup insert lstrip rstrip split_fuel lower_text headers_of
    add_headers add_header parse_http_headers is_infix
response-IsPlain = record { whole = refl; bare = refl }

messages-encode_example :
    parse_http_messages 3 false (encode_messages (response ∷ response ∷ []))
    ≡ ok (map message_of (response ∷ response ∷ []))
messages-encode_example =
    messages-encode 3 false (response ∷ response ∷ []) (response-IsSent, (response-IsSent, tt))
      (omega arith)

-- The length leads back to the start of the response.
abbrev backwards : Bytes
backwards = text "HTTP/1.1 200 OK" ++ (crlf ++ text "Content-Length: -40")

backwards-IsHead : IsHead false backwards (negsuc 39)
unfolding text find starts_with lookup insert int_of_text int_signed int_prefix int_digits digit_in
    digit_value lstrip rstrip split_fuel lower_text headers_of add_headers add_header is_valid
    parse_http_headers content_length
backwards-IsHead = record { alone = refl; full = refl; valid = refl; sized = refl }

messages_stuck_example :
    parse_http_messages 1000 false (backwards ++ (blank_line ++ text "abc")) ≡ raise Error.no_fuel
unfolding text
messages_stuck_example = messages_stuck 1000 false backwards (text "abc") backwards-IsHead

abbrev chunked : Bytes
chunked = encode chunks (text "0")

loops_end_example :
    ((is_ok (dechunk_http_body (suc (length chunked)) chunked) ≡ true) ⊎ NegativeChunk chunked)
    × ((is_ok (parse_http_messages (suc (length chunked)) true chunked) ≡ true)
        ⊎ NegativeLength chunked)
loops_end_example = loops_end true chunked

-- Libraries that know no name and decompress nothing.
abbrev calls : Calls
calls = record {
  gzip_decompress = λ d. none;
  zlib_decompress = λ d. none;
  zlib_gzip = λ d. none;
  zlib_raw = λ d. none;
  zstd = none;
  unquote = λ t. t;
  url_path = λ t. ok t;
  match_filename = λ t. none;
  match_boundary = λ t. none;
}

abbrev stream : TcpStream
stream = record {
  flow = record {
    src_ip = 97 ∷ [];
    src_port = 4000;
    dst_ip = 98 ∷ [];
    dst_port = 80;
    proto = Proto.tcp;
  };
  start_time = 0;
  end_time = 1;
  client_to_server = [];
  server_to_client = encode_messages (response ∷ []);
  client_segments = [];
  server_segments = [];
  packets_count = 1;
  is_closed = true;
}

parse_stream-Yields_example :
    Yields (reverse stream.flow) (full_bodies (response ∷ [])) (parse_stream calls stream)
parse_stream-Yields_example =
    parse_stream-Yields calls stream (response ∷ []) refl refl (response-IsSent, tt)
      (response-IsPlain, tt)
