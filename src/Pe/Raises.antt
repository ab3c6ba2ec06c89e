-- ===== src/Pe/Raises.antt =====
-- pe_parser.py: when `parse_pe` raises.
use pcap_decode.Base.{
  ℕ, zero, suc, ◌+◌, ◌-◌, ◌≤◌, ◌<◌, ◌≡◌, refl, ◌⊎◌, inl, inr, true, false, ◌&&◌, ◌||◌, not, none,
  [], ◌∷◌, arith, ltb, leb, if◌then◌else◌, length, Bool-cases, length-take, length-drop, drop,
}
use pcap_decode.Base.Bytes.{
  Bytes, Error, ok, raise, unpack, slice, u16, u32, little, bytes_beq, is_ok, unpack-slice,
  length-slice, bind-is_ok, if-is_ok,
}
use pcap_decode.Pe.{
  PeInfo, coff_header, optional_header, read_sections, certificate_end, read_body, parse_header,
  parse_pe, header_kind, header_fields, is_header,
}

read_sections-is_ok :
    (n : ℕ) (d : Bytes) (off raw_end : ℕ) → is_ok (read_sections n d off raw_end) ≡ true
unfolding read_sections
read_sections-is_ok zero d off raw_end = refl
read_sections-is_ok (suc n) d off raw_end = elim (Bool-cases (ltb (length d) (off + 40))) [
  | inl over ↦ rw (over, read_sections) refl
  | inr more ↦
      let whole : off + 24 ≤ length d = ground arith in
      rw (more, unpack-slice 16 d (off + 8) (off + 24) whole (omega arith), read_sections)
        (bind-is_ok (read_sections n d (off + 40) _) _ (read_sections-is_ok n d (off + 40) _)
          (λ r. refl))
]

certificate_end-is_ok : (d : Bytes) (dir raw_end : ℕ) → is_ok (certificate_end d dir raw_end) ≡ true
unfolding certificate_end
certificate_end-is_ok d dir raw_end = ground (arith, unpack-slice 8 d dir (dir + 8))

-- Two bytes are enough for the magic number, and 70 for the fields.
header_fields-is_ok :
    (d : Bytes) (opt base : ℕ) (info : PeInfo)
    → base ≤ 32
    → opt + 70 ≤ length d
    → is_ok (header_fields d opt base info) ≡ true
unfolding header_fields
header_fields-is_ok d opt base info b h = ground (
  arith,
  unpack-slice 4 d (opt + 16) (opt + 20),
  unpack-slice (32 - base) d (opt + base) (opt + 32),
  unpack-slice 2 d (opt + 68) (opt + 70),
)

header_kind-is_ok :
    (d : Bytes) (opt magic : ℕ) (info : PeInfo)
    → opt + 70 ≤ length d
    → is_ok (header_kind d opt magic info) ≡ true
unfolding header_kind
header_kind-is_ok d opt magic info h = ground (
  arith,
  header_fields-is_ok d opt 28 (record info { is_64bit = false }),
  header_fields-is_ok d opt 24 (record info { is_64bit = true }),
)

optional_header-is_ok :
    (d : Bytes) (opt size : ℕ) (info : PeInfo)
    → opt + 70 ≤ length d
    → is_ok (optional_header d opt size info) ≡ true
unfolding optional_header
optional_header-is_ok d opt size info h =
    if-is_ok (ltb 0 size && leb (opt + size) (length d)) _ (ok info)
      (λ b.
        rw (unpack-slice 2 d opt (opt + 2) (omega arith) refl)
          (bind-is_ok (header_kind d opt _ info) _ (header_kind-is_ok d opt _ info h) (λ i. refl)))
      (λ b. refl)

read_body-is_ok :
    (d : Bytes) (opt size : ℕ) (info : PeInfo) → is_ok (read_body d opt size info) ≡ true
unfolding read_body
read_body-is_ok d opt size info =
    bind-is_ok (read_sections info.sections_count d (opt + size) (opt + size)) _
      (read_sections-is_ok info.sections_count d (opt + size) (opt + size))
      (λ found.
        bind-is_ok (certificate_end d (opt + (if info.is_64bit then 144 else 128)) found.1) _
          (certificate_end-is_ok d _ found.1) (λ r. refl))

parse_header-is_ok : (d : Bytes) (pe : ℕ) → pe + 94 ≤ length d → is_ok (parse_header d pe) ≡ true
unfolding parse_header
parse_header-is_ok d pe h = rw (unpack-slice 20 d (pe + 4) (pe + 24) (omega arith) (omega arith)) (
    bind-is_ok (optional_header d (pe + 24) _ _) _
      (optional_header-is_ok d (pe + 24) _ _ (omega arith))
      (λ info. read_body-is_ok d (pe + 24) _ info))

-- `e_lfanew`
abbrev pub header_offset : Bytes → ℕ
header_offset d = u32 little (slice d 60 64) 0

-- Data that goes on for 94 bytes at least from the PE header on makes `parse_pe` return.
pub parse_pe-is_ok : (d : Bytes) → header_offset d + 94 ≤ length d → is_ok (parse_pe d) ≡ true
unfolding parse_pe
parse_pe-is_ok d h =
    if-is_ok (ltb (length d) 64 || not (bytes_beq (slice d 0 2) (b'M' ∷ b'Z' ∷ []))) (ok none) _
      (λ b. refl)
      (λ b.
        let long : 64 ≤ length d = ground arith in
        rw (unpack-slice 4 d 60 64 long refl) (
          if-is_ok (is_header d (header_offset d)) (parse_header d (header_offset d)) (ok none)
            (λ c. parse_header-is_ok d (header_offset d) h) (λ c. refl)))

-- The optional header as `parse_pe` finds it.
abbrev pub optional_size : Bytes → ℕ
optional_size d = u16 little (slice d (header_offset d + 4) (header_offset d + 24)) 16

abbrev pub optional_magic : Bytes → ℕ
optional_magic d = u16 little (slice d (header_offset d + 24) (header_offset d + 24 + 2)) 0

header_fields-raise :
    (d : Bytes) (opt base : ℕ) (info : PeInfo)
    → base ≤ 32
    → opt + 68 ≤ length d
    → length d < opt + 70
    → header_fields d opt base info ≡ raise Error.struct_error
unfolding header_fields unpack
header_fields-raise d opt base info b h l = ground (
  arith,
  length-slice d (opt + 16) (opt + 20),
  length-slice d (opt + base) (opt + 32),
  length-take 2 (drop (opt + 68) d),
  length-drop (opt + 68) d,
)

header_kind-raise :
    (d : Bytes) (opt magic : ℕ) (info : PeInfo)
    → (magic ≡ 0x10B) ⊎ (magic ≡ 0x20B)
    → opt + 68 ≤ length d
    → length d < opt + 70
    → header_kind d opt magic info ≡ raise Error.struct_error
unfolding header_kind
header_kind-raise d opt magic info k h l = ground (
  arith,
  header_fields-raise d opt 28 (record info { is_64bit = false }),
  header_fields-raise d opt 24 (record info { is_64bit = true }),
)

optional_header-raise :
    (d : Bytes) (opt size : ℕ) (info : PeInfo)
    → 0 < size
    → opt + size ≤ length d
    → (u16 little (slice d opt (opt + 2)) 0 ≡ 0x10B)
      ⊎ (u16 little (slice d opt (opt + 2)) 0 ≡ 0x20B)
    → opt + 68 ≤ length d
    → length d < opt + 70
    → optional_header d opt size info ≡ raise Error.struct_error
unfolding optional_header
optional_header-raise d opt size info z within k h l =
    let there : (ltb 0 size && leb (opt + size) (length d)) ≡ true = ground arith in
    rw
      (
        there,
        unpack-slice 2 d opt (opt + 2) (omega arith) refl,
        header_kind-raise d opt (u16 little (slice d opt (opt + 2)) 0) info k h l,
        optional_header,
      )
      refl

-- A PE file with a 32-bit or 64-bit optional header that ends one or two bytes before the end of the
-- subsystem field makes `parse_pe` raise: it tests for the 68 bytes before that field, not for the
-- 70 bytes with it.
pub parse_pe-raise :
    (d : Bytes)
    → 64 ≤ length d
    → bytes_beq (slice d 0 2) (b'M' ∷ b'Z' ∷ []) ≡ true
    → is_header d (header_offset d) ≡ true
    → 0 < optional_size d
    → header_offset d + 24 + optional_size d ≤ length d
    → (optional_magic d ≡ 0x10B) ⊎ (optional_magic d ≡ 0x20B)
    → header_offset d + 92 ≤ length d
    → length d < header_offset d + 94
    → parse_pe d ≡ raise Error.struct_error
unfolding parse_pe parse_header
parse_pe-raise d long mz pe z within k h l =
    let start : (ltb (length d) 64 || not (bytes_beq (slice d 0 2) (b'M' ∷ b'Z' ∷ []))) ≡ false =
      ground arith in
    let o = header_offset d in
    rw
      (
        start,
        unpack-slice 4 d 60 64 long refl,
        pe,
        unpack-slice 20 d (o + 4) (o + 24) (omega arith) (omega arith),
        optional_header-raise d (o + 24) (optional_size d) (coff_header (slice d (o + 4) (o + 24)))
            z within k (omega arith) (omega arith),
        parse_pe,
      )
      refl
