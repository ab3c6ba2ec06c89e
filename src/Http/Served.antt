-- ===== src/Http/Served.antt =====
-- protocols/http.py: what `parse_stream` extracts from a server that sends messages with a length.
use pcap_decode.Base.{
  suc, ◌≤◌, ◌≡◌, refl, ◌∙◌, ap, Bool, true, false, Option, none, List, [], ◌∷◌, ◌++◌, map, arith,
  if◌then◌else◌, length, All, length-append,
}
use pcap_decode.Base.Bytes.{Bytes, Result, ok, raise, ◌>>=◌}
use pcap_decode.Models.{text, FlowKey, reverse, TcpStream}
use pcap_decode.Http.{blank_line, Message, header, is_chunked, is_empty, parse_http_messages}
use pcap_decode.Http.Objects.{
  Calls, HttpObject, decompress_payload, uri_filename, extract_filename_from_headers, decoded_body,
  named_by,
}
use pcap_decode.Http.Stream.{response_object, response_objects, request_objects, parse_stream}
use pcap_decode.Http.Framing.{Sent, IsSent, encode_messages, message_of, messages-encode}

-- A result with the payloads `bs`, all of them on the flow `k`.
abbrev pub Yields : FlowKey → List Bytes → Result (List HttpObject) → Type 0
Yields k bs (ok objs) = (map (λ o. o.payload) objs ≡ bs) × All (λ o. o.flow ≡ k) objs
Yields k bs (raise e) = ⊥

-- The bodies that are not empty.
abbrev pub full_bodies : List Sent → List Bytes
full_bodies [] = []
full_bodies (m ∷ ms) = elim (is_empty m.body) [
  | true ↦ full_bodies ms
  | false ↦ m.body ∷ full_bodies ms
]

-- Neither a transfer encoding with chunks nor a content encoding.
pub record IsPlain (m : Sent) : Type 0 where
  pub whole : is_chunked (message_of m).headers ≡ false
  pub bare : is_empty (header (text "content-encoding") (message_of m).headers) ≡ true

decompress-bare :
    (calls : Calls) (d encoding : Bytes)
    → is_empty encoding ≡ true
    → decompress_payload calls d encoding ≡ d
unfolding decompress_payload
decompress-bare calls [] encoding h = refl
decompress-bare calls (c ∷ d) [] h = refl
decompress-bare calls (c ∷ d) (x ∷ encoding) h = cc

decoded_body-plain :
    (calls : Calls) (m : Sent) → IsPlain m → decoded_body calls (message_of m) ≡ ok m.body
unfolding decoded_body
decoded_body-plain calls m p = rw p.whole (ap ok (decompress-bare calls m.body _ p.bare))

abbrev Named : Result (Option Bytes) → Type 0
Named r = (fn : Option Bytes) × (r ≡ ok fn)

either-Named : (b : Bool) (x y : Option Bytes) → Named (if b then ok x else ok y)
either-Named true x y = (x, refl)
either-Named false x y = (y, refl)

-- Without a URI there is no exception.
named : (calls : Calls) (m : Message) → Named (extract_filename_from_headers calls m.headers [])
unfolding extract_filename_from_headers uri_filename
named calls m = either-Named (is_empty (named_by calls _)) none _

Yields-more :
    (k : FlowKey) (bs : List Bytes) (body : Bytes) (r : Result (List HttpObject)) (o : HttpObject)
    → o.payload ≡ body
    → o.flow ≡ k
    → Yields k bs r
    → Yields k
        (elim (is_empty body) [ true ↦ bs | false ↦ body ∷ bs ])
        (r >>= λ rest. ok (if is_empty body then rest else o ∷ rest))
Yields-more k bs body (raise e) o p f y = absurd y
Yields-more k bs [] (ok objs) o p f y = y
Yields-more k bs (c ∷ body) (ok objs) o p f y =
    (ap (λ b. b ∷ map (λ o. o.payload) objs) p ∙ ap (λ l. (c ∷ body) ∷ l) y.0, (f, y.1))

responses_yield :
    (calls : Calls) (s : TcpStream) (ms : List Sent)
    → All IsPlain ms
    → Yields (reverse s.flow) (full_bodies ms) (response_objects calls s [] (map message_of ms))
unfolding response_objects
responses_yield calls s [] p = (refl, tt)
responses_yield calls s (m ∷ ms) (p, ps) =
    let n = named calls (message_of m) in
    let o = response_object calls s (message_of m) ([], []) m.body n.0 in
    rw (decoded_body-plain calls m p) (
      rw n.1 (
        Yields-more (reverse s.flow) (full_bodies ms) m.body
          (response_objects calls s [] (map message_of ms)) o refl refl
          (responses_yield calls s ms ps)))

Yields-same :
    (k : FlowKey) (bs : List Bytes) (r : Result (List HttpObject))
    → Yields k bs r
    → Yields k bs (r >>= λ received. ok ([] ++ received))
Yields-same k bs (ok objs) y = y
Yields-same k bs (raise e) y = y

length-encode : (ms : List Sent) → length ms ≤ length (encode_messages ms)
length-encode [] = omega arith
length-encode (m ∷ ms) = omega (
  arith,
  length-encode ms,
  length-append m.head (blank_line ++ (m.body ++ encode_messages ms)),
  length-append m.body (encode_messages ms),
)

-- The objects of a stream whose client sends nothing and whose server sends messages with a content
-- length each, without chunks and content encoding: their bodies, in order, without the empty ones,
-- on the reverse of the flow. No exception is raised.
pub parse_stream-Yields :
    (calls : Calls) (s : TcpStream) (ms : List Sent)
    → s.client_to_server ≡ []
    → s.server_to_client ≡ encode_messages ms
    → All (IsSent false) ms
    → All IsPlain ms
    → Yields (reverse s.flow) (full_bodies ms) (parse_stream calls s)
unfolding parse_stream request_objects
parse_stream-Yields calls s ms c e h p =
    let d = encode_messages ms in
    let asked : parse_http_messages (suc (length s.client_to_server)) true s.client_to_server
        ≡ ok [] =
      ap (λ l. parse_http_messages (suc (length l)) true l) c
      ∙ messages-encode 1 true [] tt (omega arith) in
    let served : parse_http_messages (suc (length s.server_to_client)) false s.server_to_client
        ≡ ok (map message_of ms) =
      ap (λ l. parse_http_messages (suc (length l)) false l) e
      ∙ messages-encode (suc (length d)) false ms h (omega (arith, length-encode ms)) in
    rw asked (
      rw served (
        Yields-same (reverse s.flow) (full_bodies ms)
          (response_objects calls s [] (map message_of ms)) (responses_yield calls s ms p)))
