-- ===== src/Reader/File/Total.antt =====
-- pcap_reader.py: a file is read to its end without an exception, unless its magic bytes are unknown.
use pcap_decode.Base.{
  ℕ, zero, suc, ◌+◌, ◌-◌, ◌*◌, ◌<◌, ◌≡◌, Bool, true, false, ◌||◌, List, [], arith, ltb, length,
  drop, take, length-take, length-drop, min,
}
use pcap_decode.Base.Bytes.{
  Bytes, ok, raise, Error, slice, unpack, u32, big, little, Endian, bytes_beq, is_ok, ok_of_is_ok,
  unpack-slice,
}
use pcap_decode.Models.{Text}
use pcap_decode.Reader.Decode.{decode_packet}
use pcap_decode.Reader.Total.{decode_packet_total}
use pcap_decode.Reader.File.{
  pcap_records, read_pcap, interface_block, enhanced_block, simple_block, process_block,
  pcapng_blocks, read_pcapng, read_all, pcap_time, pcapng_shb_magic, pcap_magic_micro_le,
  pcap_magic_micro_be, pcap_magic_nano_le, pcap_magic_nano_be, interface_link,
}

-- The four bytes at the start of a file are those of a known format.
abbrev pub is_known : Bytes → Bool
is_known magic =
    bytes_beq magic pcapng_shb_magic
    || (bytes_beq magic pcap_magic_micro_le
        || (bytes_beq magic pcap_magic_micro_be
            || (bytes_beq magic pcap_magic_nano_le || bytes_beq magic pcap_magic_nano_be)))

-- A buffer of the length that was asked for unpacks.
pub unpack_whole : (n : ℕ) (d : Bytes) → length d ≡ n → unpack n d ≡ ok d
unfolding unpack
unpack_whole n d e = ground arith

length-take_enough : (n : ℕ) (d : Bytes) → ltb (length (take n d)) n ≡ false → length (take n d) ≡ n
length-take_enough n d h = ground (arith, length-take n d)

module _ (inet_ntop : Bytes → Text) (host : Endian) where
  decode_packet-ok :
      (frame time link : ℕ) (raw : Bytes)
      → is_ok (decode_packet inet_ntop host frame time link raw) ≡ true
  decode_packet-ok frame time link raw =
      let (p, e, unset) = decode_packet_total inet_ntop host frame time link raw in rw e

  pcap_records-ok :
      (fuel : ℕ) (e : Endian) (nano : Bool) (link frame : ℕ) (file : Bytes)
      → length file < fuel
      → is_ok (pcap_records inet_ntop host fuel e nano link frame file) ≡ true
  unfolding pcap_records
  pcap_records-ok zero e nano link frame file h = absurd (omega arith)
  pcap_records-ok (suc fuel) e nano link frame file h =
      let hd = take 16 file in
      let rest = drop 16 file in
      let len = u32 e hd 8 in
      ground (
        arith,
        unpack_whole 16 hd,
        length-take 16 file,
        length-drop 16 file,
        length-drop len rest,
        decode_packet-ok (frame + 1) (pcap_time nano (u32 e hd 0) (u32 e hd 4)) link
            (take len rest),
        pcap_records-ok fuel e nano link (frame + 1) (drop len rest),
      )

  read_pcap-ok : (magic file : Bytes) → is_ok (read_pcap inet_ntop host magic file) ≡ true
  unfolding read_pcap
  read_pcap-ok magic file =
      let hd = take 20 file in
      let nano = bytes_beq magic pcap_magic_nano_le || bytes_beq magic pcap_magic_nano_be in
      ground (
        arith,
        unpack_whole 20 hd,
        length-take 20 file,
        length-drop 20 file,
        pcap_records-ok (suc (length file)) little nano (u32 little hd 16) 0 (drop 20 file),
        pcap_records-ok (suc (length file)) big nano (u32 big hd 16) 0 (drop 20 file),
      )

  interface_block-ok :
      (e : Endian) (ifs : List ℕ) (body : Bytes)
      → is_ok (interface_block inet_ntop host e ifs body) ≡ true
  unfolding interface_block
  interface_block-ok e ifs body = ground (arith, unpack-slice 8 body 0 8)

  enhanced_block-ok :
      (e : Endian) (ifs : List ℕ) (frame : ℕ) (body : Bytes)
      → is_ok (enhanced_block inet_ntop host e ifs frame body) ≡ true
  unfolding enhanced_block
  enhanced_block-ok e ifs frame body =
      let h = slice body 0 20 in
      ground (
        arith,
        unpack-slice 20 body 0 20,
        decode_packet-ok (frame + 1) ((u32 e h 4 * 4_294_967_296 + u32 e h 8) * 1000)
            (interface_link inet_ntop host ifs (u32 e h 0)) (slice body 20 (20 + u32 e h 12)),
      )

  simple_block-ok :
      (e : Endian) (ifs : List ℕ) (frame : ℕ) (body : Bytes)
      → is_ok (simple_block inet_ntop host e ifs frame body) ≡ true
  unfolding simple_block
  simple_block-ok e ifs frame body = ground (
    arith,
    unpack-slice 4 body 0 4,
    decode_packet-ok (frame + 1) 0 (interface_link inet_ntop host ifs 0)
        (slice body 4 (4 + min (length body - 4) (u32 e (slice body 0 4) 0))),
  )

  process_block-ok :
      (e : Endian) (ifs : List ℕ) (frame b_type : ℕ) (body : Bytes)
      → is_ok (process_block inet_ntop host e ifs frame b_type body) ≡ true
  unfolding process_block
  process_block-ok e ifs frame b_type body = ground (
    arith,
    interface_block-ok e ifs body,
    enhanced_block-ok e ifs frame body,
    simple_block-ok e ifs frame body,
  )

  pcapng_blocks-ok :
      (fuel : ℕ) (e : Endian) (ifs : List ℕ) (frame : ℕ) (file : Bytes)
      → length file < fuel
      → is_ok (pcapng_blocks inet_ntop host fuel e ifs frame file) ≡ true
  unfolding pcapng_blocks
  pcapng_blocks-ok zero e ifs frame file h = absurd (omega arith)
  pcapng_blocks-ok (suc fuel) e ifs frame file h =
      let hd = take 8 file in
      let rest = drop 8 file in
      let len = u32 e hd 4 - 12 in
      let next = drop 4 (drop len rest) in
      let ((ifs', out), done) =
        ok_of_is_ok (process_block inet_ntop host e ifs frame (u32 e hd 0) (take len rest))
          (process_block-ok e ifs frame (u32 e hd 0) (take len rest)) in
      ground (
        arith,
        done,
        unpack_whole 8 hd,
        length-take 8 file,
        length-drop 8 file,
        length-drop len rest,
        length-drop 4 (drop len rest),
        pcapng_blocks-ok fuel e ifs' frame next,
        pcapng_blocks-ok fuel e ifs' (frame + 1) next,
      )

  read_pcapng-ok : (file : Bytes) → is_ok (read_pcapng inet_ntop host file) ≡ true
  unfolding read_pcapng
  read_pcapng-ok file =
      let hd = take 8 file in
      ground (
        arith,
        unpack_whole 8 hd,
        length-take 8 file,
        length-drop 8 file,
        length-drop (u32 little hd 0 - 12) (drop 8 file),
        length-drop (u32 big hd 0 - 12) (drop 8 file),
        pcapng_blocks-ok (suc (length file)) little [] 0
            (drop (u32 little hd 0 - 12) (drop 8 file)),
        pcapng_blocks-ok (suc (length file)) big [] 0 (drop (u32 big hd 0 - 12) (drop 8 file)),
      )

  -- `_read_all` returns for every file that is empty or starts with known magic bytes, whatever
  -- follows them: truncated headers, lengths that lie and malformed frames raise nothing. For every
  -- other file it raises `ValueError`.
  pub read_all_total :
      (file : Bytes)
      → (is_known (take 4 file) ≡ true → is_ok (read_all inet_ntop host file) ≡ true)
        × (is_known (take 4 file) ≡ false
            → 0 < length file
            → read_all inet_ntop host file ≡ raise Error.value_error)
        × (length file ≡ 0 → read_all inet_ntop host file ≡ ok [])
  unfolding read_all
  read_all_total file =
      let known = read_pcap-ok (take 4 file) (drop 4 file) in
      let ng = read_pcapng-ok (drop 4 file) in
      (
        ground (arith, known, ng, length-take 4 file),
        ground (arith, length-take 4 file),
        ground (arith, length-take 4 file),
      )
