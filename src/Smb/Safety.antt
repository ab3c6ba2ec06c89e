-- ===== src/Smb/Safety.antt =====
-- protocols/smb.py: `parse_stream` raises nothing.
use pcap_decode.Base.{ℕ, ◌≤◌, ◌≡◌, refl, true, ◌&&◌, not, List, [], ◌∷◌, arith, leb, ◌==◌, length}
use pcap_decode.Base.Bytes.{
  Bytes, ok, slice, unpack-slice, is_ok, bind-is_ok, if-is_ok, u16, little,
}
use pcap_decode.Models.{Text, TcpStream}
use pcap_decode.Smb.{
  FileNames, Buffers, is_message, is_smb, absorb_write, absorb_read, absorb_response,
  absorb_responses, remember_name, absorb_request, absorb_requests, parse_netbios_messages,
  parse_stream,
}
use pcap_decode.Smb.Frames.{parse_netbios_messages-is_ok}

absorb_write-is_ok :
    (msg : Bytes) (session_id : ℕ) (b : Buffers)
    → 112 ≤ length msg
    → is_ok (absorb_write msg session_id b) ≡ true
unfolding absorb_write
absorb_write-is_ok msg session_id b h =
    rw (unpack-slice 2 msg 72 74 (omega arith) refl)
      (rw (unpack-slice 4 msg 76 80 (omega arith) refl) refl)

absorb_read-is_ok :
    (msg : Bytes) (session_id : ℕ) (b : Buffers)
    → 80 ≤ length msg
    → is_ok (absorb_read msg session_id b) ≡ true
unfolding absorb_read
absorb_read-is_ok msg session_id b h =
    rw (unpack-slice 1 msg 66 67 (omega arith) refl)
      (rw (unpack-slice 4 msg 68 72 (omega arith) refl) refl)

is_message-length : (msg : Bytes) → is_message msg ≡ true → 64 ≤ length msg
is_message-length msg h = ground arith

enough : (c k n len : ℕ) → (c == k && leb n len) ≡ true → n ≤ len
enough c k n len h = ground arith

absorb_response-is_ok : (msg : Bytes) (b : Buffers) → is_ok (absorb_response msg b) ≡ true
unfolding absorb_response
absorb_response-is_ok msg b =
    if-is_ok (is_message msg) _ (ok b)
      (λ m.
        let long = is_message-length msg m in
        rw (unpack-slice 2 msg 12 14 (omega arith) refl) (
          rw (unpack-slice 8 msg 40 48 (omega arith) refl) (
            if-is_ok (u16 little (slice msg 12 14) 0 == 8 && leb 80 (length msg)) _ (ok b)
              (λ c. absorb_read-is_ok msg _ b (enough _ 8 80 (length msg) c)) (λ c. refl))))
      (λ m. refl)

absorb_responses-is_ok : (msgs : List Bytes) (b : Buffers) → is_ok (absorb_responses msgs b) ≡ true
unfolding absorb_responses
absorb_responses-is_ok [] b = refl
absorb_responses-is_ok (msg ∷ msgs) b =
    bind-is_ok (absorb_response msg b) _ (absorb_response-is_ok msg b)
      (λ next. absorb_responses-is_ok msgs next)

module _ (decode_utf16 : Bytes → Text) where
  remember_name-is_ok :
      (msg : Bytes) (session_id : ℕ) (names : FileNames)
      → 120 ≤ length msg
      → is_ok (remember_name decode_utf16 msg session_id names) ≡ true
  unfolding remember_name
  remember_name-is_ok msg session_id names h =
      rw (unpack-slice 2 msg 116 118 (omega arith) refl)
        (rw (unpack-slice 2 msg 118 120 (omega arith) refl) refl)

  absorb_request-is_ok :
      (msg : Bytes) (state : FileNames × Buffers)
      → is_ok (absorb_request decode_utf16 msg state) ≡ true
  unfolding absorb_request
  absorb_request-is_ok msg (names, b) =
      if-is_ok (is_message msg) _ (ok (names, b))
        (λ m.
          let long = is_message-length msg m in
          rw (unpack-slice 2 msg 12 14 (omega arith) refl) (
            rw (unpack-slice 8 msg 40 48 (omega arith) refl) (
              if-is_ok (u16 little (slice msg 12 14) 0 == 5 && leb 120 (length msg)) _ _
                (λ c.
                  bind-is_ok (remember_name decode_utf16 msg _ names) _
                    (remember_name-is_ok msg _ names (enough _ 5 120 (length msg) c)) (λ r. refl))
                (λ c.
                  if-is_ok (u16 little (slice msg 12 14) 0 == 9 && leb 112 (length msg)) _
                    (ok (names, b))
                    (λ w.
                      bind-is_ok (absorb_write msg _ b) _
                        (absorb_write-is_ok msg _ b (enough _ 9 112 (length msg) w)) (λ r. refl))
                    (λ w. refl)))))
        (λ m. refl)

  absorb_requests-is_ok :
      (msgs : List Bytes) (state : FileNames × Buffers)
      → is_ok (absorb_requests decode_utf16 msgs state) ≡ true
  unfolding absorb_requests
  absorb_requests-is_ok [] state = refl
  absorb_requests-is_ok (msg ∷ msgs) state =
      bind-is_ok (absorb_request decode_utf16 msg state) _ (absorb_request-is_ok msg state)
        (λ next. absorb_requests-is_ok msgs next)

-- No stream makes the SMB decoder raise an exception, in any state of the decoder.
pub parse_stream-is_ok :
    (decode_utf16 : Bytes → Text) (s : TcpStream) (names : FileNames)
    → is_ok (parse_stream decode_utf16 s names) ≡ true
unfolding parse_stream
parse_stream-is_ok decode_utf16 s names =
    if-is_ok (not (is_smb s.flow.src_port) && not (is_smb s.flow.dst_port)) (ok (names, [])) _
      (λ b. refl)
      (λ b.
        bind-is_ok (parse_netbios_messages s.client_to_server) _
          (parse_netbios_messages-is_ok s.client_to_server)
          (λ asked.
            bind-is_ok (parse_netbios_messages s.server_to_client) _
              (parse_netbios_messages-is_ok s.server_to_client)
              (λ answered.
                bind-is_ok (absorb_requests decode_utf16 asked (names, [])) _
                  (absorb_requests-is_ok decode_utf16 asked (names, []))
                  (λ state.
                    bind-is_ok (absorb_responses answered state.1) _
                      (absorb_responses-is_ok answered state.1) (λ r. refl)))))
