-- ===== src/Http.antt =====
-- pcap_decode/protocols/http.py: header lines, chunked bodies, and the messages of one direction of a
-- stream. A position may be negative, as a negative length moves the source's loops backwards.
pub mod Parts
pub mod Chunks
pub mod Framing
pub mod Ends
pub mod Objects
pub mod Stream
pub mod Served
use pcap_decode.Base.{
  ℕ, zero, suc, ◌+◌, Bool, true, false, ◌||◌, Option, none, some, List, [], ◌∷◌, ◌++◌, ltb,
  if◌then◌else◌, length, take, drop,
}
use pcap_decode.Base.Int.{ℤ, pos, ◌+ℤ◌, ltb_ℤ}
use pcap_decode.Base.Equality.{list_eq, nat_eq}
use pcap_decode.Base.Dict.{Dict, lookup, insert}
use pcap_decode.Base.Bytes.{Bytes, Result, Error, ok, raise, ◌>>=◌, slice}
use pcap_decode.Base.Search.{starts_with, find, find_from, is_infix}
use pcap_decode.Base.Strings.{
  is_space, is_space_char, strip, split, lower_text, int_of_bytes, int_of_text, bound_at,
  slice_from, slice_between, min_ℤ,
}
use pcap_decode.Models.{Text, text}

abbrev pub crlf : Bytes
crlf = 13 ∷ 10 ∷ []

-- The empty line at the end of a header.
abbrev pub blank_line : Bytes
blank_line = 13 ∷ 10 ∷ 13 ∷ 10 ∷ []

-- What stands before the first match, or all of it.
unfoldable pub before : Bytes → Bytes → Bytes
before sep d = elim (find sep d) [ none ↦ d | some i ↦ take i d ]

-- `int(chunk_header, 16)` for a chunk header with its extensions.
unfoldable pub chunk_size : Bytes → Option ℤ
chunk_size line = int_of_bytes 16 (strip is_space (before (b';' ∷ []) line))

-- What a chunk of size `n` from `start` on gives: the end of the data, or a piece of it and the
-- position behind the chunk.
unfoldable pub chunk_at : Bytes → ℕ → ℤ → Bytes × Option ℤ
chunk_at d start n =
    let chunk_end = pos start +ℤ n in
    if ltb_ℤ (pos (length d)) chunk_end
    then (drop start d, none)
    else (slice_between d (pos start) chunk_end, some (chunk_end +ℤ pos 2))

-- The loop of `dechunk_http_body` from `idx` on.
unfoldable pub dechunk_from : ℕ → Bytes → ℤ → Result Bytes
dechunk_from zero d idx = raise Error.no_fuel
dechunk_from (suc fuel) d idx = elim (ltb_ℤ idx (pos (length d))) [
  | false ↦ ok []
  | true ↦ elim (find_from crlf d (bound_at (length d) idx)) [
    | none ↦ ok (slice_from d idx)
    | some end ↦ elim (chunk_size (slice_between d idx (pos end))) [
      | none ↦ ok (slice_from d idx)
      | some (pos zero) ↦ ok []
      | some n ↦ elim (chunk_at d (end + 2) n).1 [
        | none ↦ ok (chunk_at d (end + 2) n).0
        | some next ↦ dechunk_from fuel d next >>= λ rest. ok ((chunk_at d (end + 2) n).0 ++ rest)
      ]
    ]
  ]
]

-- `dechunk_http_body`, with fuel for its loop
unfoldable pub dechunk_http_body : ℕ → Bytes → Result Bytes
dechunk_http_body fuel d = dechunk_from fuel d (pos 0)

abbrev pub Headers : Type 0
Headers = Dict Text Text

-- A line with a colon is a header.
unfoldable pub add_header : Text → Headers → Headers
add_header line headers = elim (find (b':' ∷ []) line) [
  | none ↦ headers
  | some i ↦
      insert (lower_text (strip is_space_char (take i line)))
        (strip is_space_char (drop (i + 1) line)) headers
]

unfoldable pub add_headers : List Text → Headers → Headers
add_headers [] headers = headers
add_headers (line ∷ lines) headers = add_headers lines (add_header line headers)

unfoldable pub headers_of : List Bytes → Text × Headers
headers_of [] = ([], [])
headers_of ([] ∷ lines) = ([], [])
headers_of ((c ∷ line) ∷ lines) = (strip is_space_char (c ∷ line), add_headers lines [])

-- `parse_http_headers`
unfoldable pub parse_http_headers : Bytes → Text × Headers
parse_http_headers header_bytes = headers_of (split crlf header_bytes)

-- `headers.get(name, "")`
abbrev pub or_empty : Option Text → Text
or_empty none = []
or_empty (some v) = v

abbrev pub header : Text → Headers → Text
header name headers = or_empty (lookup name headers)

abbrev pub is_chunked : Headers → Bool
is_chunked headers =
    is_infix (text "chunked") (lower_text (header (text "transfer-encoding") headers))

unfoldable pub any_prefix : List Text → Text → Bool
any_prefix [] line = false
any_prefix (m ∷ ms) line = starts_with m line || any_prefix ms line

abbrev pub next_methods : List Text
next_methods =
    text "GET "
    ∷ text "POST "
    ∷ text "PUT "
    ∷ text "DELETE "
    ∷ text "HEAD "
    ∷ text "OPTIONS "
    ∷ text "CONNECT "
    ∷ []

abbrev pub methods : List Text
methods = next_methods ++ (text "TRACE " ∷ text "PATCH " ∷ [])

-- `is_valid` of the first line
unfoldable pub is_valid : Bool → Text → Bool
is_valid true line = any_prefix methods line
is_valid false line = starts_with (text "HTTP/") line

-- The earlier one of `next_msg` and `pos`.
abbrev pub earlier : Option ℕ → Option ℕ → Option ℕ
earlier none p = p
earlier (some n) none = some n
earlier (some n) (some p) = if ltb p n then some p else some n

unfoldable pub earliest : List Text → Bytes → ℕ → Option ℕ → Option ℕ
earliest [] d start next_msg = next_msg
earliest (m ∷ ms) d start next_msg = earliest ms d start (earlier next_msg (find_from m d start))

unfoldable pub next_message : Bool → Bytes → ℕ → Option ℕ
next_message true d start = earliest next_methods d start none
next_message false d start = find_from (text "HTTP/") d start

-- The body up to `k` bytes behind a position, or up to the end of the data.
abbrev pub body_until : Bytes → ℕ → ℕ → Option ℕ → Bytes × Option ℤ
body_until d start k none = (drop start d, none)
body_until d start k (some i) = (slice d start (i + k), some (pos (i + k)))

unfoldable pub content_length : Headers → Option ℤ
content_length headers = elim (lookup (text "content-length") headers) [
  | none ↦ none
  | some v ↦ int_of_text v
]

-- The body at `start`, and the position where the loop goes on, if it does.
unfoldable pub body_at : Bool → Bytes → Headers → ℕ → Bytes × Option ℤ
body_at is_request d headers start = elim (content_length headers) [
  | some n ↦ (
    slice_between d (pos start) (min_ℤ (length d) (pos start +ℤ n)),
    some (min_ℤ (length d) (pos start +ℤ n)),
  )
  | none ↦
      if is_chunked headers
      then body_until d start 5 (find_from (b'0' ∷ blank_line) d start)
      else body_until d start 0 (next_message is_request d start)
]

pub record Message : Type 0 where
  pub first_line : Text
  pub headers : Headers
  pub body : Bytes

abbrev pub is_empty : Text → Bool
is_empty [] = true
is_empty (c ∷ line) = false

-- The loop of `_parse_http_messages` from `offset` on.
unfoldable pub messages_from : ℕ → Bool → Bytes → ℤ → Result (List Message)
messages_from zero is_request d offset = raise Error.no_fuel
messages_from (suc fuel) is_request d offset = elim (ltb_ℤ offset (pos (length d))) [
  | false ↦ ok []
  | true ↦ elim (find_from blank_line d (bound_at (length d) offset)) [
    | none ↦ ok []
    | some hdr_end ↦
        let head = parse_http_headers (slice_between d offset (pos hdr_end)) in
        elim (is_empty head.0) [
          | true ↦ ok []
          | false ↦ elim (is_valid is_request head.0) [
            | false ↦ messages_from fuel is_request d (pos (hdr_end + 4))
            | true ↦
                let found = body_at is_request d head.1 (hdr_end + 4) in
                let message : Message = record {
                  first_line = head.0;
                  headers = head.1;
                  body = found.0;
                } in
                elim found.1 [
                  | none ↦ ok (message ∷ [])
                  | some next ↦ messages_from fuel is_request d next >>= λ rest. ok (message ∷ rest)
                ]
          ]
        ]
  ]
]

-- `_parse_http_messages`, with fuel for its loop
unfoldable pub parse_http_messages : ℕ → Bool → Bytes → Result (List Message)
parse_http_messages fuel is_request d = messages_from fuel is_request d (pos 0)
