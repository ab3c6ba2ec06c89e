-- ===== src/Http/Stream.antt =====
-- protocols/http.py, `HttpDecoder.parse_stream`: the requests of the client, then the responses of the
-- server, each with the request of the same number.
use pcap_decode.Base.{
  suc, Bool, true, false, ◌&&◌, ◌||◌, Option, none, some, List, [], ◌∷◌, ◌++◌, ltb, if◌then◌else◌,
  length,
}
use pcap_decode.Base.Bytes.{Bytes, Result, ok, ◌>>=◌}
use pcap_decode.Base.Search.{is_infix}
use pcap_decode.Models.{Text, text, reverse, TcpStream}
use pcap_decode.Http.{Headers, Message, header, parse_http_messages, is_empty}
use pcap_decode.Http.Objects.{
  Calls, request_upload, request_body, response_body, HttpObject, name_or, either_group, is_in,
  parse_request_line, parse_response_line, parse_multipart_body, extract_filename_from_headers,
  decoded_body,
}

abbrev uri_of : Text → Text
uri_of line = (parse_request_line line).1.0

-- `matched_req_uri` and `matched_host` of a response: those of the request of the same number.
abbrev pub matched : List Message → Text × Text
matched [] = ([], [])
matched (req ∷ reqs) = (uri_of req.first_line, header (text "host") req.headers)

-- The requests behind the first one.
abbrev pub later : List Message → List Message
later [] = []
later (req ∷ reqs) = reqs

abbrev pub is_multipart : Text → Bool
is_multipart content_type =
    is_infix (text "multipart/form-data") content_type && is_infix (text "boundary=") content_type

module _ (calls : Calls) where
  unfoldable pub upload_objects :
      TcpStream → Message → List (Headers × Bytes) → Result (List HttpObject)
  upload_objects s m [] = ok []
  upload_objects s m ((part_headers, part) ∷ parts) = do
    p_fn ← extract_filename_from_headers calls part_headers []
    rest ← upload_objects s m parts
    let item : HttpObject = record {
      payload = part;
      filename = name_or p_fn (text "http_upload.bin");
      flow = s.flow;
      timestamp = s.start_time;
      about =
          request_upload (parse_request_line m.first_line).0 (uri_of m.first_line)
            (header (text "host") m.headers) (header (text "user-agent") m.headers) part_headers;
    }
    ok (if is_empty part then rest else item ∷ rest)

  unfoldable pub multipart_objects : TcpStream → Message → Bytes → Result (List HttpObject)
  multipart_objects s m body =
      elim (calls.match_boundary (header (text "content-type") m.headers)) [
        | none ↦ ok []
        | some g ↦ upload_objects s m (parse_multipart_body body (either_group g))
      ]

  unfoldable pub body_objects : TcpStream → Message → Bytes → Result (List HttpObject)
  body_objects s m body = if is_empty body then ok [] else (do
    fn ← extract_filename_from_headers calls m.headers (uri_of m.first_line)
    let item : HttpObject = record {
      payload = body;
      filename = name_or fn (text "http_post_payload.bin");
      flow = s.flow;
      timestamp = s.start_time;
      about =
          request_body (parse_request_line m.first_line).0 (uri_of m.first_line)
            (header (text "host") m.headers) (header (text "user-agent") m.headers)
            (header (text "content-type") m.headers);
    }
    let kept =
        is_in (parse_request_line m.first_line).0 (text "POST" ∷ text "PUT" ∷ [])
        || ltb 32 (length body)
    ok (if kept then item ∷ [] else []))

  -- The loop over the requests.
  unfoldable pub request_objects : TcpStream → List Message → Result (List HttpObject)
  request_objects s [] = ok []
  request_objects s (m ∷ ms) = do
    body ← decoded_body calls m
    found ←
        (if is_multipart (header (text "content-type") m.headers)
          then multipart_objects s m body
          else body_objects s m body)
    rest ← request_objects s ms
    ok (found ++ rest)

  abbrev pub response_object : TcpStream → Message → Text × Text → Bytes → Option Text → HttpObject
  response_object s m from body fn = record {
    payload = body;
    filename = name_or fn (text "http_download.bin");
    flow = reverse s.flow;
    timestamp = s.start_time;
    about =
        response_body (parse_response_line m.first_line).0 (parse_response_line m.first_line).1
          from.0 from.1 (header (text "content-type") m.headers)
          (header (text "content-encoding") m.headers) m.headers;
  }

  -- The loop over the responses, with the requests that are left.
  unfoldable pub response_objects :
      TcpStream → List Message → List Message → Result (List HttpObject)
  response_objects s reqs [] = ok []
  response_objects s reqs (m ∷ ms) = do
    body ← decoded_body calls m
    fn ← extract_filename_from_headers calls m.headers (matched reqs).0
    rest ← response_objects s (later reqs) ms
    ok (if is_empty body then rest else response_object s m (matched reqs) body fn ∷ rest)

  -- `HttpDecoder.parse_stream`
  unfoldable pub parse_stream : TcpStream → Result (List HttpObject)
  parse_stream s = do
    requests ← parse_http_messages (suc (length s.client_to_server)) true s.client_to_server
    responses ← parse_http_messages (suc (length s.server_to_client)) false s.server_to_client
    sent ← request_objects s requests
    received ← response_objects s requests responses
    ok (sent ++ received)
