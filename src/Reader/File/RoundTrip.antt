-- ===== src/Reader/File/RoundTrip.antt =====
-- pcap_reader.py: what a classic capture file holds is what the reader yields. The writer here is
-- the file format itself (libpcap's), in both byte orders and both timestamp resolutions.
use pcap_decode.Base.{
  ℕ, zero, suc, ◌+◌, ◌/◌, ◌%◌, ◌^◌, ◌≤◌, ◌<◌, ◌≡◌, refl, Bool, true, false, ◌||◌, List, [], ◌∷◌,
  ◌++◌, arith, if◌then◌else◌, length, drop, take, length-append, length-take, All,
  take-append_length, drop-append_length,
}
use pcap_decode.Base.Bytes.{Bytes, Result, ok, Endian, big, little, ◌>>=◌, u32, bytes_beq}
use pcap_decode.Models.{Text, Packet}
use pcap_decode.Reader.Decode.{decode_packet}
use pcap_decode.Reader.File.Total.{unpack_whole}
use pcap_decode.Reader.File.{
  pcap_records, read_pcap, read_all, pcap_time, pcap_magic_micro_le, pcap_magic_micro_be,
  pcap_magic_nano_le, pcap_magic_nano_be,
}

-- A captured frame: seconds and fraction of its time, its length on the wire, its bytes.
pub record Capture : Type 0 where
  pub ts_sec : ℕ
  pub ts_frac : ℕ
  pub origlen : ℕ
  pub frame : Bytes

-- A 32-bit word in front of `rest`.
abbrev word32 : Endian → ℕ → Bytes → Bytes
word32 big n rest = (n / 16777216 % 256) ∷ (n / 65536 % 256) ∷ (n / 256 % 256) ∷ (n % 256) ∷ rest
word32 little n rest = (n % 256) ∷ (n / 256 % 256) ∷ (n / 65536 % 256) ∷ (n / 16777216 % 256) ∷ rest

-- The records of a file, with `tail` behind them.
unfoldable pub write_records : Endian → List Capture → Bytes → Bytes
write_records e [] tail = tail
write_records e (c ∷ cs) tail = word32 e c.ts_sec (
    word32 e c.ts_frac
      (word32 e (length c.frame) (word32 e c.origlen (c.frame ++ write_records e cs tail))))

abbrev magic_of : Endian → Bool → Bytes
magic_of little false = pcap_magic_micro_le
magic_of big false = pcap_magic_micro_be
magic_of little true = pcap_magic_nano_le
magic_of big true = pcap_magic_nano_be

-- Version 2.4, zone, accuracy, snapshot length and link type.
abbrev global_header : Endian → ℕ → ℕ → Bytes → Bytes
global_header e snaplen link rest =
    word32 e (elim e [ big ↦ 0x20004 | little ↦ 0x40002 ])
      (word32 e 0 (word32 e 0 (word32 e snaplen (word32 e link rest))))

-- A capture file: magic, version 2.4, zone, accuracy, snapshot length, link type, records, `tail`.
unfoldable pub write_pcap : Endian → Bool → ℕ → ℕ → List Capture → Bytes → Bytes
write_pcap e nano snaplen link cs tail =
    magic_of e nano ++ global_header e snaplen link (write_records e cs tail)

abbrev IsWord : ℕ → Type 0
IsWord n = n < 2 ^ 32

-- Every length and time of the record fits its field.
abbrev pub FitsRecord : Capture → Type 0
FitsRecord c = IsWord c.ts_sec × IsWord c.ts_frac × IsWord (length c.frame)

u32-word32 : (e : Endian) (n : ℕ) (rest : Bytes) → IsWord n → u32 e (word32 e n rest) 0 ≡ n
u32-word32 big n rest h = omega arith
u32-word32 little n rest h = omega arith

-- The header of a record, read back.
header :
    (e : Endian) (a b l o : ℕ) (rest : Bytes)
    → IsWord a
    → IsWord b
    → IsWord l
    → let file = word32 e a (word32 e b (word32 e l (word32 e o rest))) in
      (length (take 16 file) ≡ 16)
      × (drop 16 file ≡ rest)
      × (u32 e (take 16 file) 0 ≡ a)
      × (u32 e (take 16 file) 4 ≡ b)
      × (u32 e (take 16 file) 8 ≡ l)
header big a b l o rest ha hb hl = (refl, refl, omega arith, omega arith, omega arith)
header little a b l o rest ha hb hl = (refl, refl, omega arith, omega arith, omega arith)

global_header_read :
    (e : Endian) (snaplen link : ℕ) (rest : Bytes)
    → IsWord link
    → let file = global_header e snaplen link rest in
      (length (take 20 file) ≡ 20) × (drop 20 file ≡ rest) × (u32 e (take 20 file) 16 ≡ link)
global_header_read big snaplen link rest h = (refl, refl, omega arith)
global_header_read little snaplen link rest h = (refl, refl, omega arith)

-- How the reader takes the magic bytes apart.
magic_read :
    (e : Endian) (nano : Bool)
    → ((if bytes_beq (magic_of e nano) pcap_magic_micro_le
            || bytes_beq (magic_of e nano) pcap_magic_nano_le
          then little
          else big)
        ≡ e)
      × ((bytes_beq (magic_of e nano) pcap_magic_nano_le
            || bytes_beq (magic_of e nano) pcap_magic_nano_be)
          ≡ nano)
magic_read big false = (refl, refl)
magic_read big true = (refl, refl)
magic_read little false = (refl, refl)
magic_read little true = (refl, refl)

length-write_records :
    (e : Endian) (cs : List Capture) (tail : Bytes) → length cs ≤ length (write_records e cs tail)
unfolding write_records
length-write_records e [] tail = omega arith
length-write_records big (c ∷ cs) tail =
    omega
      (arith, length-append c.frame (write_records big cs tail), length-write_records big cs tail)
length-write_records little (c ∷ cs) tail = omega (
  arith,
  length-append c.frame (write_records little cs tail),
  length-write_records little cs tail,
)

length_write :
    (e : Endian) (snaplen link : ℕ) (cs : List Capture) (tail : Bytes)
    → length cs < suc (length (global_header e snaplen link (write_records e cs tail)))
length_write big snaplen link cs tail = omega (arith, length-write_records big cs tail)
length_write little snaplen link cs tail = omega (arith, length-write_records little cs tail)

module _ (inet_ntop : Bytes → Text) (host : Endian) where
  -- The captured frames decoded one by one, numbered from `frame + 1`.
  unfoldable pub decode_captures : Bool → ℕ → ℕ → List Capture → Result (List Packet)
  decode_captures nano link frame [] = ok []
  decode_captures nano link frame (c ∷ cs) =
      decode_packet inet_ntop host (frame + 1) (pcap_time nano c.ts_sec c.ts_frac) link c.frame
      >>= λ p. decode_captures nano link (frame + 1) cs >>= λ ps. ok (p ∷ ps)

  pcap_records_end :
      (fuel : ℕ) (e : Endian) (nano : Bool) (link frame : ℕ) (tail : Bytes)
      → length tail < 16
      → pcap_records inet_ntop host (suc fuel) e nano link frame tail ≡ ok []
  unfolding pcap_records
  pcap_records_end fuel e nano link frame tail short = ground (arith, length-take 16 tail)

  -- One record of the loop, by the fields of its header.
  pcap_records_step :
      (fuel : ℕ) (e : Endian) (nano : Bool) (link frame : ℕ) (file body rest : Bytes) (sec frac : ℕ)
      → length (take 16 file) ≡ 16
      → drop 16 file ≡ body ++ rest
      → u32 e (take 16 file) 0 ≡ sec
      → u32 e (take 16 file) 4 ≡ frac
      → u32 e (take 16 file) 8 ≡ length body
      → pcap_records inet_ntop host (suc fuel) e nano link frame file ≡ (
          decode_packet inet_ntop host (frame + 1) (pcap_time nano sec frac) link body >>= λ p.
          pcap_records inet_ntop host fuel e nano link (frame + 1) rest >>= λ ps. ok (p ∷ ps))
  unfolding pcap_records
  pcap_records_step fuel e nano link frame file body rest sec frac whole split s f l = ground (
    arith,
    unpack_whole 16 (take 16 file),
    take-append_length body rest,
    drop-append_length body rest,
  )

  pcap_records-write :
      (fuel : ℕ) (e : Endian) (nano : Bool) (link frame : ℕ) (cs : List Capture) (tail : Bytes)
      → All FitsRecord cs
      → length tail < 16
      → length cs < fuel
      → pcap_records inet_ntop host fuel e nano link frame (write_records e cs tail)
        ≡ decode_captures nano link frame cs
  unfolding write_records decode_captures
  pcap_records-write zero e nano link frame cs tail fits short h = absurd (omega arith)
  pcap_records-write (suc fuel) e nano link frame [] tail fits short h =
      pcap_records_end fuel e nano link frame tail short
  pcap_records-write (suc fuel) e nano link frame (c ∷ cs) tail fits short h =
      let rest = write_records e cs tail in
      let (whole, split, s, f, l) =
        header e c.ts_sec c.ts_frac (length c.frame) c.origlen (c.frame ++ rest) fits.0.0 fits.0.1
          fits.0.2 in
      rw
        (
          pcap_records_step fuel e nano link frame (write_records e (c ∷ cs) tail) c.frame rest
              c.ts_sec c.ts_frac whole split s f l,
          pcap_records-write fuel e nano link (frame + 1) cs tail fits.1 short (omega arith),
        )
        refl

  -- The file behind the magic bytes.
  read_pcap_write :
      (e : Endian) (nano : Bool) (snaplen link : ℕ) (cs : List Capture) (tail : Bytes)
      → All FitsRecord cs
      → IsWord link
      → length tail < 16
      → read_pcap inet_ntop host
          (magic_of e nano)
          (global_header e snaplen link (write_records e cs tail))
        ≡ decode_captures nano link 0 cs
  unfolding read_pcap
  read_pcap_write e nano snaplen link cs tail fits word short =
      let (whole, split, l) = global_header_read e snaplen link (write_records e cs tail) word in
      let file = global_header e snaplen link (write_records e cs tail) in
      let (is_e, is_nano) = magic_read e nano in
      ground (
        arith,
        is_e,
        is_nano,
        unpack_whole 20 (take 20 file),
        pcap_records-write (suc (length file)) e nano link 0 cs tail fits short
            (length_write e snaplen link cs tail),
      )

  -- A file of either byte order and either resolution, whose fields fit their widths (`FitsRecord`,
  -- and a link type below 2^32), with less than a record header left over at
  -- its end, yields its frames decoded in order, numbered from 1, at the times that it records.
  pub read_all_write :
      (e : Endian) (nano : Bool) (snaplen link : ℕ) (cs : List Capture) (tail : Bytes)
      → All FitsRecord cs
      → link < 2 ^ 32
      → length tail < 16
      → read_all inet_ntop host (write_pcap e nano snaplen link cs tail)
        ≡ decode_captures nano link 0 cs
  unfolding read_all write_pcap
  read_all_write little false snaplen link cs tail fits word short =
      read_pcap_write little false snaplen link cs tail fits word short
  read_all_write big false snaplen link cs tail fits word short =
      read_pcap_write big false snaplen link cs tail fits word short
  read_all_write little true snaplen link cs tail fits word short =
      read_pcap_write little true snaplen link cs tail fits word short
  read_all_write big true snaplen link cs tail fits word short =
      read_pcap_write big true snaplen link cs tail fits word short
