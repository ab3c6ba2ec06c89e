-- ===== src/Smb/Writes.antt =====
-- protocols/smb.py, `parse_stream`: the contents of a file that a client writes.
use pcap_decode.Base.{
  ℕ, suc, ◌+◌, ◌≤◌, ◌<◌, ◌≡◌, refl, sym, ◌∙◌, ap, Bool, not, true, false, ◌&&◌, List, [], ◌∷◌, ◌++◌,
  map, arith, leb, ltb, ◌==◌, length, All,
}
use mathlib.Core.List.{append_assoc, append-nil}
use pcap_decode.Base.Equality.{list_eq, nat_eq, beq_refl}
use pcap_decode.Base.Dict.{lookup, insert}
use pcap_decode.Base.Bytes.{
  Bytes, ok, ◌>>=◌, slice, unpack-slice, u16, u32, u64, little, length-slice,
}
use pcap_decode.Models.{Text, TcpStream}
use pcap_decode.Smb.{
  FileNames, Buffers, SmbObject, smb_object, is_message, is_smb, has_data, write_key, extend,
  absorb_write, absorb_request, absorb_requests, absorb_responses, filled, parse_netbios_messages,
  parse_stream,
}
use pcap_decode.Smb.Frames.{Frame, IsFrame, encode_frames, netbios-encode_frames}

-- The data of a WRITE request.
abbrev pub data_offset : Bytes → ℕ
data_offset msg = u16 little (slice msg 72 74) 0

abbrev pub data_length : Bytes → ℕ
data_length msg = u32 little (slice msg 76 80) 0

abbrev pub written : Bytes → Bytes
written msg = slice msg (data_offset msg) (data_offset msg + data_length msg)

-- A WRITE request for a file of a session, with its fields at the places where the code reads them,
-- whose data is within the message.
pub record IsWrite (session_id : ℕ) (file_id msg : Bytes) : Type 0 where
  pub smb : is_message msg ≡ true
  pub long : 112 ≤ length msg
  pub command : u16 little (slice msg 12 14) 0 ≡ 9
  pub session : u64 little (slice msg 40 48) 0 ≡ session_id
  pub file : slice msg 88 104 ≡ file_id
  pub behind : 0 < data_offset msg
  pub filled : 0 < data_length msg
  pub within : data_offset msg + data_length msg ≤ length msg

abbrev pub contents : List Bytes → Bytes
contents [] = []
contents (msg ∷ msgs) = written msg ++ contents msgs

-- One buffer, unless it is empty.
abbrev buffer : Text → Bytes → Buffers
buffer k [] = []
buffer k (c ∷ d) = (k, c ∷ d) ∷ []

buffer_some : (k : Text) (d : Bytes) → 0 < length d → (k, d) ∷ [] ≡ buffer k d
buffer_some k [] h = absurd (omega arith)
buffer_some k (c ∷ d) h = refl

extend-buffer :
    (k : Text) (d chunk : Bytes)
    → 0 < length chunk
    → extend k chunk (buffer k d) ≡ buffer k (d ++ chunk)
unfolding extend lookup insert
extend-buffer k [] chunk h = buffer_some k chunk h
extend-buffer k (c ∷ d) chunk h = let e : list_eq.beq k k ≡ true = beq_refl k in rw e refl

has_data-within :
    (msg : Bytes) (offset size : ℕ)
    → 0 < offset
    → 0 < size
    → offset + size ≤ length msg
    → has_data msg offset size ≡ true
has_data-within msg offset size h k l = ground arith

absorb_write-buffer :
    (session_id : ℕ) (file_id msg d : Bytes)
    → IsWrite session_id file_id msg
    → absorb_write msg session_id (buffer (write_key session_id file_id) d)
      ≡ ok (buffer (write_key session_id file_id) (d ++ written msg))
unfolding absorb_write
absorb_write-buffer session_id file_id msg d w =
    let k = write_key session_id file_id in
    let there : has_data msg (data_offset msg) (data_length msg) ≡ true =
      has_data-within msg (data_offset msg) (data_length msg) w.behind w.filled w.within in
    let full : 0 < length (written msg) = omega (
      arith,
      length-slice msg (data_offset msg) (data_offset msg + data_length msg) w.within,
      w.filled,
    ) in
    let long = w.long in
    rw (unpack-slice 2 msg 72 74 (omega arith) refl) (
      rw (unpack-slice 4 msg 76 80 (omega arith) refl) (
        rw there (
          ap (λ f. ok (extend (write_key session_id f) (written msg) (buffer k d))) w.file
          ∙ ap ok (extend-buffer k d (written msg) full))))

le→leb : (a b : ℕ) → a ≤ b → leb a b ≡ true
le→leb a b h = ground arith

and_false : (b : Bool) → (b && false) ≡ false
and_false true = refl
and_false false = refl

module _ (decode_utf16 : Bytes → Text) where
  absorb_request-buffer :
      (session_id : ℕ) (file_id msg d : Bytes) (names : FileNames)
      → IsWrite session_id file_id msg
      → absorb_request decode_utf16 msg (names, buffer (write_key session_id file_id) d)
        ≡ ok (names, buffer (write_key session_id file_id) (d ++ written msg))
  unfolding absorb_request
  absorb_request-buffer session_id file_id msg d names w =
      let long = w.long in
      let k = write_key session_id file_id in
      let other : (u16 little (slice msg 12 14) 0 == 5 && leb 120 (length msg)) ≡ false =
        ap (λ c. c == 5 && leb 120 (length msg)) w.command in
      let this : (u16 little (slice msg 12 14) 0 == 9 && leb 112 (length msg)) ≡ true =
        ap (λ c. c == 9 && leb 112 (length msg)) w.command ∙ le→leb 112 (length msg) long in
      rw (w.smb) (
        rw (unpack-slice 2 msg 12 14 (omega arith) refl) (
          rw (unpack-slice 8 msg 40 48 (omega arith) refl) (
            rw other (
              rw this (
                ap
                  (λ i.
                    absorb_write msg i (buffer k d) >>= λ active_files. ok (names, active_files))
                  w.session
                ∙ rw (absorb_write-buffer session_id file_id msg d w) refl)))))

  absorb_requests-buffer :
      (session_id : ℕ) (file_id : Bytes) (msgs : List Bytes) (d : Bytes) (names : FileNames)
      → All (IsWrite session_id file_id) msgs
      → absorb_requests decode_utf16 msgs (names, buffer (write_key session_id file_id) d)
        ≡ ok (names, buffer (write_key session_id file_id) (d ++ contents msgs))
  unfolding absorb_requests
  absorb_requests-buffer session_id file_id [] d names h =
      ap (λ l. ok (names, buffer (write_key session_id file_id) l)) (sym (append-nil d))
  absorb_requests-buffer session_id file_id (msg ∷ msgs) d names (w, ws) =
      rw (absorb_request-buffer session_id file_id msg d names w) (
        absorb_requests-buffer session_id file_id msgs (d ++ written msg) names ws
        ∙ ap (λ l. ok (names, buffer (write_key session_id file_id) l))
            (append_assoc d (written msg) (contents msgs)))

-- The file under a key, unless it is empty.
abbrev pub file_of : TcpStream → Text → Bytes → List SmbObject
file_of s k [] = []
file_of s k (c ∷ d) = smb_object s k (c ∷ d) ∷ []

filled-buffer : (s : TcpStream) (k : Text) (d : Bytes) → filled s (buffer k d) ≡ file_of s k d
unfolding filled
filled-buffer s k [] = refl
filled-buffer s k (c ∷ d) =
    let some_bytes : ltb 0 (suc (length d)) ≡ true = ground arith in rw some_bytes refl

-- From a client that writes one file of one session to an SMB port, with the fields of its requests at
-- the places where the code reads them, and a server that sends nothing, the file is extracted: its data in
-- the order of the requests, under the key of the session and the file. No exception is raised.
pub parse_stream-written :
    (decode_utf16 : Bytes → Text) (s : TcpStream) (names : FileNames) (session_id : ℕ)
    (file_id : Bytes) (fs : List Frame)
    → is_smb s.flow.dst_port ≡ true
    → s.client_to_server ≡ encode_frames fs
    → s.server_to_client ≡ []
    → All IsFrame fs
    → All (IsWrite session_id file_id) (map (λ f. f.body) fs)
    → parse_stream decode_utf16 s names
      ≡ ok (names, file_of s (write_key session_id file_id) (contents (map (λ f. f.body) fs)))
unfolding parse_stream absorb_responses
parse_stream-written decode_utf16 s names session_id file_id fs p c e h w =
    let k = write_key session_id file_id in
    let msgs = map (λ f. f.body) fs in
    let handled : (not (is_smb s.flow.src_port) && not (is_smb s.flow.dst_port)) ≡ false =
      ap (λ b. not (is_smb s.flow.src_port) && not b) p
      ∙ and_false (not (is_smb s.flow.src_port)) in
    let sent : parse_netbios_messages s.client_to_server ≡ ok msgs =
      ap parse_netbios_messages c ∙ netbios-encode_frames fs h in
    let answered : parse_netbios_messages s.server_to_client ≡ ok [] =
      ap parse_netbios_messages e ∙ netbios-encode_frames [] tt in
    rw handled (
      rw sent (
        rw answered (
          rw (absorb_requests-buffer decode_utf16 session_id file_id msgs [] names w)
            (ap (λ l. ok (names, l)) (filled-buffer s k (contents msgs))))))
