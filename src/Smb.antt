-- ===== src/Smb.antt =====
-- pcap_decode/protocols/smb.py: NetBIOS messages, and the file contents that SMB2 messages carry.
-- `decode_utf16` stands for `decode("utf-16le", errors="ignore")`.
pub mod Frames
pub mod Writes
pub mod Safety
use pcap_decode.Base.{
  ℕ, zero, suc, ◌+◌, ◌-◌, ◌*◌, ◌/◌, ◌%◌, Bool, true, false, ◌&&◌, ◌||◌, not, Option, none, some,
  List, [], ◌∷◌, ◌++◌, leb, ltb, ◌==◌, if◌then◌else◌, length, take, drop,
}
use pcap_decode.Base.Equality.{list_eq, nat_eq, pair_eq}
use pcap_decode.Base.Dict.{Dict, lookup, insert}
use pcap_decode.Base.Bytes.{
  Bytes, Result, Error, ok, raise, ◌>>=◌, unpack, slice, byte, u16, u32, u64, little,
}
use pcap_decode.Base.Search.{starts_with}
use pcap_decode.Base.Strings.{split, lstrip, rstrip, strip, hex_digit}
use pcap_decode.Models.{Text, text, number_text, FlowKey, TcpStream}

abbrev pub smb1_magic : Bytes
smb1_magic = 0xff ∷ text "SMB"

abbrev pub smb2_magic : Bytes
smb2_magic = 0xfe ∷ text "SMB"

-- The length field of a NetBIOS message at `offset`.
abbrev pub message_length : Bytes → ℕ → ℕ
message_length d offset =
    byte d (offset + 1) * 65536 + byte d (offset + 2) * 256 + byte d (offset + 3)

-- Data that is an SMB message without a NetBIOS header.
abbrev pub is_bare : Bytes → ℕ → Bool
is_bare d offset =
    offset == 0 && (ltb 64 (length d) && (starts_with smb2_magic d || starts_with smb1_magic d))

-- The loop of `_parse_netbios_messages` from `offset` on.
unfoldable pub netbios_from : ℕ → Bytes → ℕ → Result (List Bytes)
netbios_from zero d offset = raise Error.no_fuel
netbios_from (suc fuel) d offset = elim (leb (offset + 4) (length d)) [
  | false ↦ ok []
  | true ↦
      let n = message_length d offset in
      elim (n == 0 || ltb (length d) (offset + 4 + n)) [
        | true ↦ ok (if is_bare d offset then d ∷ [] else [])
        | false ↦ netbios_from fuel d (offset + (4 + n)) >>= λ rest.
            ok (slice d (offset + 4) (offset + 4 + n) ∷ rest)
      ]
]

-- `_parse_netbios_messages`: every round reads a message.
unfoldable pub parse_netbios_messages : Bytes → Result (List Bytes)
parse_netbios_messages d = netbios_from (suc (length d)) d 0

-- `bytes.hex()`
unfoldable pub hex : Bytes → Text
hex [] = []
hex (b ∷ d) = hex_digit (b / 16) ∷ hex_digit (b % 16) ∷ hex d

abbrev pub write_key : ℕ → Bytes → Text
write_key session_id file_id = text "write_" ++ (number_text session_id ++ (b'_' ∷ hex file_id))

abbrev pub read_key : ℕ → Text
read_key session_id = text "read_" ++ number_text session_id

abbrev pub Buffers : Type 0
Buffers = Dict Text Bytes

abbrev pub or_nothing : Option Bytes → Bytes
or_nothing none = []
or_nothing (some d) = d

-- `active_files[k].extend(data)`
unfoldable pub extend : Text → Bytes → Buffers → Buffers
extend k chunk active_files = insert k (or_nothing (lookup k active_files) ++ chunk) active_files

-- The data that a message names, if it lies behind the start and begins within the message.
abbrev pub has_data : Bytes → ℕ → ℕ → Bool
has_data msg offset size = ltb 0 offset && (ltb offset (length msg) && ltb 0 size)

abbrev pub is_message : Bytes → Bool
is_message msg = starts_with smb2_magic msg && leb 64 (length msg)

-- A WRITE request.
unfoldable pub absorb_write : Bytes → ℕ → Buffers → Result Buffers
absorb_write msg session_id active_files = do
  a ← unpack 2 (slice msg 72 74)
  b ← unpack 4 (slice msg 76 80)
  let offset = u16 little a 0
  let size = u32 little b 0
  ok (
      if has_data msg offset size
      then extend (write_key session_id (slice msg 88 104)) (slice msg offset (offset + size))
          active_files
      else active_files)

-- A READ response.
unfoldable pub absorb_read : Bytes → ℕ → Buffers → Result Buffers
absorb_read msg session_id active_files = do
  a ← unpack 1 (slice msg 66 67)
  b ← unpack 4 (slice msg 68 72)
  let offset = byte a 0
  let size = u32 little b 0
  ok (
      if has_data msg offset size
      then extend (read_key session_id) (slice msg offset (offset + size)) active_files
      else active_files)

-- A message of the server.
unfoldable pub absorb_response : Bytes → Buffers → Result Buffers
absorb_response msg active_files =
    if is_message msg
    then (do
      cmd ← unpack 2 (slice msg 12 14)
      session ← unpack 8 (slice msg 40 48)
      if u16 little cmd 0 == 8 && leb 80 (length msg)
          then absorb_read msg (u64 little session 0) active_files
          else ok active_files)
    else ok active_files

unfoldable pub absorb_responses : List Bytes → Buffers → Result Buffers
absorb_responses [] active_files = ok active_files
absorb_responses (msg ∷ msgs) active_files =
    absorb_response msg active_files >>= λ next. absorb_responses msgs next

-- The keys of `file_names`: a session, and an empty file id.
abbrev pub FileNames : Type 0
FileNames = Dict (ℕ × Bytes) Text

-- The last of the parts.
unfoldable pub last_name : List Text → Text
last_name [] = []
last_name (p ∷ []) = p
last_name (p ∷ q ∷ ps) = last_name (q ∷ ps)

pub record SmbObject : Type 0 where
  pub payload : Bytes
  pub filename : Text
  pub flow : FlowKey
  pub timestamp : ℕ
  pub smb_key : Text
  pub size : ℕ

abbrev pub smb_object : TcpStream → Text → Bytes → SmbObject
smb_object s k d = record {
  payload = d;
  filename = text "smb_transfer_" ++ (k ++ text ".bin");
  flow = s.flow;
  timestamp = s.start_time;
  smb_key = k;
  size = length d;
}

-- The contents that are not empty, under their keys.
unfoldable pub filled : TcpStream → Buffers → List SmbObject
filled s [] = []
filled s ((k, d) ∷ active_files) =
    let rest = filled s active_files in if ltb 0 (length d) then smb_object s k d ∷ rest else rest

abbrev pub is_smb : ℕ → Bool
is_smb p = p == 445 || p == 139

module _ (decode_utf16 : Bytes → Text) where
  -- The name of a CREATE request.
  unfoldable pub remember_name : Bytes → ℕ → FileNames → Result FileNames
  remember_name msg session_id file_names = do
    a ← unpack 2 (slice msg 116 118)
    b ← unpack 2 (slice msg 118 120)
    let offset = u16 little a 0
    let size = u16 little b 0
    let clean_name =
        last_name (
          split (0x5c ∷ []) (strip (λ c. c == 0) (decode_utf16 (slice msg offset (offset + size)))))
    ok (
        if has_data msg offset size && ltb 0 (length clean_name)
        then insert (session_id, []) clean_name file_names
        else file_names)

  -- A message of the client.
  unfoldable pub absorb_request : Bytes → FileNames × Buffers → Result (FileNames × Buffers)
  absorb_request msg (file_names, active_files) =
      if is_message msg
      then (do
        cmd ← unpack 2 (slice msg 12 14)
        session ← unpack 8 (slice msg 40 48)
        if u16 little cmd 0 == 5 && leb 120 (length msg)
            then (remember_name msg (u64 little session 0) file_names >>= λ names.
                ok (names, active_files))
            else if u16 little cmd 0 == 9 && leb 112 (length msg)
            then (absorb_write msg (u64 little session 0) active_files >>= λ written.
                ok (file_names, written))
            else ok (file_names, active_files))
      else ok (file_names, active_files)

  unfoldable pub absorb_requests : List Bytes → FileNames × Buffers → Result (FileNames × Buffers)
  absorb_requests [] state = ok state
  absorb_requests (msg ∷ msgs) state =
      absorb_request msg state >>= λ next. absorb_requests msgs next

  -- `SmbDecoder.parse_stream`, with the state `file_names` of the decoder
  unfoldable pub parse_stream : TcpStream → FileNames → Result (FileNames × List SmbObject)
  parse_stream s file_names =
      if not (is_smb s.flow.src_port) && not (is_smb s.flow.dst_port)
      then ok (file_names, [])
      else (do
        c2s_messages ← parse_netbios_messages s.client_to_server
        s2c_messages ← parse_netbios_messages s.server_to_client
        asked ← absorb_requests c2s_messages (file_names, [])
        answered ← absorb_responses s2c_messages asked.1
        ok (asked.0, filled s answered))
