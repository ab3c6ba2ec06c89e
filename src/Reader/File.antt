-- ===== src/Reader/File.antt =====
-- pcap_reader.py, `_read_all`, `_read_pcap` and `_read_pcapng`: the two file formats. The file is the
-- list of the bytes still to be read; what a generator yields is a list. A timestamp is in
-- nanoseconds; the source divides to a float of seconds.
pub mod Total
pub mod RoundTrip
use pcap_decode.Base.{
  ℕ, zero, suc, ◌+◌, ◌-◌, ◌*◌, min, Bool, true, false, ◌||◌, ◌&&◌, Option, none, some, List, [],
  ◌∷◌, ◌++◌, ltb, leb, ◌==◌, if◌then◌else◌, length, drop, take, get_elem?,
}
use pcap_decode.Base.Bytes.{
  Bytes, Result, ok, raise, Error, ◌>>=◌, slice, unpack, u16, u32, big, little, Endian, bytes_beq,
}
use pcap_decode.Models.{Text, Packet}
use pcap_decode.Reader.{linktype_ethernet}
use pcap_decode.Reader.Decode.{decode_packet}

abbrev pub pcap_magic_micro_le : Bytes
pcap_magic_micro_le = 0xd4 ∷ 0xc3 ∷ 0xb2 ∷ 0xa1 ∷ []

abbrev pub pcap_magic_micro_be : Bytes
pcap_magic_micro_be = 0xa1 ∷ 0xb2 ∷ 0xc3 ∷ 0xd4 ∷ []

abbrev pub pcap_magic_nano_le : Bytes
pcap_magic_nano_le = 0x4d ∷ 0x3c ∷ 0xb2 ∷ 0xa1 ∷ []

abbrev pub pcap_magic_nano_be : Bytes
pcap_magic_nano_be = 0xa1 ∷ 0xb2 ∷ 0x3c ∷ 0x4d ∷ []

abbrev pub pcapng_shb_magic : Bytes
pcapng_shb_magic = 0x0a ∷ 0x0d ∷ 0x0d ∷ 0x0a ∷ []

-- `ts_sec + ts_usec / time_div`
abbrev pub pcap_time : Bool → ℕ → ℕ → ℕ
pcap_time is_nano sec frac = sec * 1_000_000_000 + (if is_nano then frac else frac * 1000)

module _ (inet_ntop : Bytes → Text) (host : Endian) where
  -- The `while` loop of `_read_pcap`: a record header of 16 bytes, then `caplen` bytes.
  unfoldable pub pcap_records : ℕ → Endian → Bool → ℕ → ℕ → Bytes → Result (List Packet)
  pcap_records zero e nano link frame file = raise Error.no_fuel
  pcap_records (suc fuel) e nano link frame file =
      let pkt_hdr = take 16 file in
      let rest = drop 16 file in
      elim (ltb (length pkt_hdr) 16) [
        | true ↦ ok []
        | false ↦ unpack 16 pkt_hdr >>= λ h.
            elim (ltb (length (take (u32 e h 8) rest)) (u32 e h 8)) [
              | true ↦ ok []
              | false ↦
                  decode_packet inet_ntop host (frame + 1) (pcap_time nano (u32 e h 0) (u32 e h 4))
                    link (take (u32 e h 8) rest)
                  >>= λ p.
                      pcap_records fuel e nano link (frame + 1) (drop (u32 e h 8) rest) >>= λ ps.
                      ok (p ∷ ps)
            ]
      ]

  -- `_read_pcap`, on the file behind the magic bytes.
  unfoldable pub read_pcap : Bytes → Bytes → Result (List Packet)
  read_pcap magic file =
      let is_little = bytes_beq magic pcap_magic_micro_le || bytes_beq magic pcap_magic_nano_le in
      let e = if is_little then little else big in
      let nano = bytes_beq magic pcap_magic_nano_le || bytes_beq magic pcap_magic_nano_be in
      let hdr = take 20 file in
      if ltb (length hdr) 20 then ok [] else (do
        h ← unpack 20 hdr
        pcap_records (suc (length file)) e nano (u32 e h 16) 0 (drop 20 file))

  -- The link type of the interface `i`; `interfaces` lists the link types.
  abbrev pub interface_link : List ℕ → ℕ → ℕ
  interface_link interfaces i = elim (get_elem? interfaces i) [
    | none ↦ linktype_ethernet
    | some link ↦ link
  ]

  -- What a block does: the new list of interfaces, and the packet if it holds one.
  abbrev pub Block : Type 0
  Block = Result (List ℕ × Option Packet)

  -- An Interface Description Block.
  unfoldable pub interface_block : Endian → List ℕ → Bytes → Block
  interface_block e interfaces body =
      if leb 8 (length body)
      then (do h ← unpack 8 (slice body 0 8); ok (interfaces ++ (u16 e h 0 ∷ []), none))
      else ok (interfaces, none)

  -- An Enhanced Packet Block; the timestamp counts microseconds.
  unfoldable pub enhanced_block : Endian → List ℕ → ℕ → Bytes → Block
  enhanced_block e interfaces frame body =
      if leb 20 (length body)
      then (do
        h ← unpack 20 (slice body 0 20)
        let ts_raw = u32 e h 4 * 4_294_967_296 + u32 e h 8
        p ←
            decode_packet inet_ntop host (frame + 1) (ts_raw * 1000)
              (interface_link interfaces (u32 e h 0)) (slice body 20 (20 + u32 e h 12))
        ok (interfaces, some p))
      else ok (interfaces, none)

  -- A Simple Packet Block.
  unfoldable pub simple_block : Endian → List ℕ → ℕ → Bytes → Block
  simple_block e interfaces frame body =
      if leb 4 (length body)
      then (do
        h ← unpack 4 (slice body 0 4)
        let caplen = min (length body - 4) (u32 e h 0)
        p ←
            decode_packet inet_ntop host (frame + 1) 0 (interface_link interfaces 0)
              (slice body 4 (4 + caplen))
        ok (interfaces, some p))
      else ok (interfaces, none)

  unfoldable pub process_block : Endian → List ℕ → ℕ → ℕ → Bytes → Block
  process_block e interfaces frame b_type body =
      if b_type == 1
      then interface_block e interfaces body
      else if b_type == 6
      then enhanced_block e interfaces frame body
      else if b_type == 3
      then simple_block e interfaces frame body
      else ok (interfaces, none)

  -- The `while` loop of `_read_pcapng`: a block header of 8 bytes, the body, and a trailer of 4 bytes.
  unfoldable pub pcapng_blocks : ℕ → Endian → List ℕ → ℕ → Bytes → Result (List Packet)
  pcapng_blocks zero e interfaces frame file = raise Error.no_fuel
  pcapng_blocks (suc fuel) e interfaces frame file =
      let header = take 8 file in
      let rest = drop 8 file in
      elim (ltb (length header) 8) [
        | true ↦ ok []
        | false ↦ unpack 8 header >>= λ h. elim (ltb (u32 e h 4) 12) [
          | true ↦ ok []
          | false ↦
              elim (ltb (length (take (u32 e h 4 - 12) rest)) (u32 e h 4 - 12)
                || ltb (length (take 4 (drop (u32 e h 4 - 12) rest))) 4) [
                  | true ↦ ok []
                  | false ↦
                      process_block e interfaces frame (u32 e h 0) (take (u32 e h 4 - 12) rest)
                      >>= λ b. elim b.1 [
                        | none ↦
                            pcapng_blocks fuel e b.0 frame (drop 4 (drop (u32 e h 4 - 12) rest))
                        | some p ↦
                            pcapng_blocks fuel e b.0 (frame + 1)
                              (drop 4 (drop (u32 e h 4 - 12) rest))
                            >>= λ ps. ok (p ∷ ps)
                      ]
                ]
        ]
      ]

  -- `_read_pcapng`, on the file behind the magic bytes.
  unfoldable pub read_pcapng : Bytes → Result (List Packet)
  read_pcapng file =
      let hdr_rem = take 8 file in
      if ltb (length hdr_rem) 8 then ok [] else (do
        h ← unpack 8 hdr_rem
        let is_little = u32 little h 4 == 0x1a2b3c4d
        let e = if is_little then little else big
        let skip_len = u32 e h 0 - 12
        pcapng_blocks (suc (length file)) e [] 0 (drop skip_len (drop 8 file)))

  -- `_read_all`
  unfoldable pub read_all : Bytes → Result (List Packet)
  read_all file =
      let magic = take 4 file in
      let rest = drop 4 file in
      if length magic == 0
      then ok []
      else if bytes_beq magic pcapng_shb_magic
      then read_pcapng rest
      else if bytes_beq magic pcap_magic_micro_le
          || (bytes_beq magic pcap_magic_micro_be
              || (bytes_beq magic pcap_magic_nano_le || bytes_beq magic pcap_magic_nano_be))
      then read_pcap magic rest
      else raise Error.value_error
