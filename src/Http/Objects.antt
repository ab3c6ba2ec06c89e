-- ===== src/Http/Objects.antt =====
-- protocols/http.py: file names, multipart bodies, content encodings, and the objects that
-- `HttpDecoder.parse_stream` extracts. The functions of gzip, zlib, zstandard, urllib and re that the
-- code calls are the fields of `Calls`.
use pcap_decode.Base.{
  ℕ, suc, ◌+◌, ◌-◌, Bool, false, ◌&&◌, ◌||◌, not, Option, none, some, List, [], ◌∷◌, ◌++◌, ◌==◌,
  if◌then◌else◌, length, take, drop,
}
use pcap_decode.Base.Int.{ℤ, pos}
use pcap_decode.Base.Bytes.{Bytes, Result, ok, ◌>>=◌, bytes_beq}
use pcap_decode.Base.Search.{find, is_infix}
use pcap_decode.Base.Strings.{
  is_space, is_space_char, strip, rstrip, split, lower_text, int_of_text,
}
use pcap_decode.Models.{Text, text, FlowKey}
use pcap_decode.Http.{
  blank_line, crlf, Headers, Message, header, is_chunked, parse_http_headers, dechunk_http_body,
  is_empty,
}

-- The groups 1 and 2 of a match.
abbrev pub Groups : Type 0
Groups = Option Text × Option Text

-- `none` stands for an exception of a decompressor, and for no match; `url_path` is
-- `urlparse(uri).path`, which raises `ValueError`.
pub record Calls : Type 0 where
  pub gzip_decompress : Bytes → Option Bytes
  pub zlib_decompress : Bytes → Option Bytes
  pub zlib_gzip : Bytes → Option Bytes
  pub zlib_raw : Bytes → Option Bytes
  pub zstd : Option (Bytes → Option Bytes)
  pub unquote : Text → Text
  pub url_path : Text → Result Text
  pub match_filename : Text → Option Groups
  pub match_boundary : Text → Option Groups

-- `name or default`: an empty name does not count either.
abbrev pub name_or : Option Text → Text → Text
name_or none default = default
name_or (some []) default = default
name_or (some (c ∷ name)) default = c ∷ name

abbrev pub or_else {ℓ} : {A : Type ℓ} → Option A → A → A
or_else none b = b
or_else (some a) b = a

-- The result of a first attempt, or else of a second one, or else the data.
abbrev pub try_both : Option Bytes → Option Bytes → Bytes → Bytes
try_both first second d = or_else first (or_else second d)

abbrev pub try_zstd : Option (Bytes → Option Bytes) → Bytes → Bytes
try_zstd none d = d
try_zstd (some decompress) d = or_else (decompress d) d

-- `group(1) or group(2)`, and "" for no group.
abbrev pub either_group : Groups → Text
either_group (some (c ∷ t), g) = c ∷ t
either_group (_, some t) = t
either_group (_, none) = []

-- The last part of a path.
unfoldable pub last_part : List Text → Text
last_part [] = []
last_part (p ∷ []) = p
last_part (p ∷ q ∷ ps) = last_part (q ∷ ps)

abbrev pub candidate_of : Text → Text
candidate_of path = last_part (split (b'/' ∷ []) (rstrip (λ c. c == b'/') path))

-- `split(" ", 2)` of a line: the parts before the first and the second blank, and the rest.
pub data Parts : Type 0 where
  one : Text → Parts
  two : Text → Text → Parts
  three : Text → Text → Text → Parts

unfoldable pub split_line : Text → Parts
split_line line = elim (find (b' ' ∷ []) line) [
  | none ↦ one line
  | some i ↦ elim (find (b' ' ∷ []) (drop (i + 1) line)) [
    | none ↦ two (take i line) (drop (i + 1) line)
    | some j ↦ three (take i line) (take j (drop (i + 1) line)) (drop (j + 1) (drop (i + 1) line))
  ]
]

abbrev request_parts : Parts → Text × (Text × Text)
request_parts (one a) = ([], ([], []))
request_parts (two a b) = (a, (b, text "HTTP/1.1"))
request_parts (three a b c) = (a, (b, c))

-- `_parse_request_line`
unfoldable pub parse_request_line : Text → Text × (Text × Text)
parse_request_line line = request_parts (split_line line)

abbrev status_of : Option ℤ → Text → ℤ × Text
status_of none reason = (pos 0, [])
status_of (some n) reason = (n, reason)

abbrev response_parts : Parts → ℤ × Text
response_parts (one a) = (pos 0, [])
response_parts (two a b) = status_of (int_of_text b) []
response_parts (three a b c) = status_of (int_of_text b) c

-- `_parse_response_line`
unfoldable pub parse_response_line : Text → ℤ × Text
parse_response_line line = response_parts (split_line line)

-- The part without a line end at its end.
abbrev pub without_crlf : Bytes → Bytes
without_crlf d = if bytes_beq (drop (length d - 2) d) crlf then take (length d - 2) d else d

abbrev pub is_in : Text → List Text → Bool
is_in t [] = false
is_in t (u ∷ us) = bytes_beq t u || is_in t us

-- The headers and the body of a part of a multipart body.
unfoldable pub multipart_part : Bytes → List (Headers × Bytes)
multipart_part part =
    if is_empty part || bytes_beq part (text "--") then [] else elim (find blank_line part) [
      | none ↦ []
      | some i ↦
          (
            (parse_http_headers (text "DUMMY / HTTP/1.1" ++ (crlf ++ take i part))).1,
            without_crlf (drop (i + 4) part),
          )
          ∷ []
    ]

unfoldable pub multipart_parts : List Bytes → List (Headers × Bytes)
multipart_parts [] = []
multipart_parts (part ∷ parts) = multipart_part (strip is_space part) ++ multipart_parts parts

-- `parse_multipart_body`
unfoldable pub parse_multipart_body : Bytes → Text → List (Headers × Bytes)
parse_multipart_body body boundary = multipart_parts (split (text "--" ++ boundary) body)

-- What the metadata of an object says.
pub data About : Type 0 where
  request_upload : (method uri host user_agent : Text) → Headers → About
  request_body : (method uri host user_agent content_type : Text) → About
  response_body : ℤ → (reason uri host content_type content_encoding : Text) → Headers → About

pub record HttpObject : Type 0 where
  pub payload : Bytes
  pub filename : Text
  pub flow : FlowKey
  pub timestamp : ℕ
  pub about : About

module _ (calls : Calls) where
  -- `decompress_payload`
  unfoldable pub decompress_payload : Bytes → Text → Bytes
  decompress_payload d encoding =
      let name = strip is_space_char (lower_text encoding) in
      if is_empty d || is_empty encoding
      then d
      else if is_in name (text "gzip" ∷ text "x-gzip" ∷ [])
      then try_both (calls.gzip_decompress d) (calls.zlib_gzip d) d
      else if is_in name (text "deflate" ∷ text "zlib" ∷ [])
      then try_both (calls.zlib_decompress d) (calls.zlib_raw d) d
      else if bytes_beq name (text "zstd")
      then try_zstd calls.zstd d
      else d

  -- The name that a URI gives.
  unfoldable pub uri_filename : Text → Result (Option Text)
  uri_filename uri =
      if is_empty uri
      then ok none
      else calls.url_path uri >>= λ path. ok (
          if not (is_empty path)
            && (is_infix (b'/' ∷ []) path
                && (not (is_empty (candidate_of path)) && is_infix (b'.' ∷ []) (candidate_of path)))
          then some (calls.unquote (candidate_of path))
          else none)

  -- The name that the content disposition gives, or "".
  unfoldable pub named_by : Text → Text
  named_by content_disp =
      if is_empty content_disp
      then []
      else elim (calls.match_filename content_disp) [ none ↦ [] | some g ↦ either_group g ]

  -- `extract_filename_from_headers`
  unfoldable pub extract_filename_from_headers : Headers → Text → Result (Option Text)
  extract_filename_from_headers headers uri =
      let fn = named_by (header (text "content-disposition") headers) in
      if is_empty fn then uri_filename uri else ok (some (calls.unquote (strip is_space_char fn)))

  -- The body without chunks and content encoding.
  unfoldable pub decoded_body : Message → Result Bytes
  decoded_body m = do
    raw_body ←
        (if is_chunked m.headers then dechunk_http_body (suc (length m.body)) m.body else ok m.body)
    ok (decompress_payload raw_body (header (text "content-encoding") m.headers))
