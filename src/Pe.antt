-- ===== src/Pe.antt =====
-- pcap_decode/pe_parser.py: the headers of a Windows executable and the size that they announce. The
-- fields of `PeInfo` that `parse_pe` never sets (imports, exports, .NET) are left out.
pub mod Size
pub mod Raises
use pcap_decode.Base.{
  ℕ, zero, suc, ◌+◌, ◌-◌, ◌*◌, min, max, Bool, true, false, ◌&&◌, ◌||◌, not, Option, none, some,
  List, [], ◌∷◌, ◌++◌, leb, ltb, ◌==◌, if◌then◌else◌, length,
}
use pcap_decode.Base.Bytes.{
  Bytes, Result, ok, ◌>>=◌, unpack, slice, u16, u32, u64, little, bytes_beq,
}
use pcap_decode.Models.{Text, text, number_text}

pub record Section : Type 0 where
  pub name : Text
  pub virtual_size : ℕ
  pub virtual_address : ℕ
  pub raw_size : ℕ
  pub raw_offset : ℕ

pub record PeInfo : Type 0 where
  pub is_pe : Bool
  pub is_64bit : Bool
  pub machine : ℕ
  pub machine_name : Text
  pub subsystem : ℕ
  pub subsystem_name : Text
  pub timestamp : ℕ
  pub entry_point : ℕ
  pub image_base : ℕ
  pub sections_count : ℕ
  pub calculated_size : ℕ
  pub sections : List Section
  pub has_overlay : Bool
  pub overlay_size : ℕ

-- `PeInfo()`
abbrev pub new_info : PeInfo
new_info = record {
  is_pe = false;
  is_64bit = false;
  machine = 0;
  machine_name = text "Unknown";
  subsystem = 0;
  subsystem_name = text "Unknown";
  timestamp = 0;
  entry_point = 0;
  image_base = 0;
  sections_count = 0;
  calculated_size = 0;
  sections = [];
  has_overlay = false;
  overlay_size = 0;
}

unfoldable pub machine_name_of : ℕ → Text
machine_name_of machine =
    if machine == 0x014C
    then text "x86 (32-bit)"
    else if machine == 0x8664
    then text "x64 (64-bit AMD64)"
    else if machine == 0xAA64
    then text "ARM64"
    else if machine == 0x01C0
    then text "ARM"
    else text "Unknown"

-- `subsystems.get(info.subsystem, f"Other ({info.subsystem})")`
unfoldable pub subsystem_name_of : ℕ → Text
subsystem_name_of subsystem =
    if subsystem == 1
    then text "Native / Driver"
    else if subsystem == 2
    then text "Windows GUI"
    else if subsystem == 3
    then text "Windows Console / CLI"
    else if subsystem == 7
    then text "POSIX"
    else if subsystem == 9
    then text "Windows CE"
    else if subsystem == 10
    then text "EFI Application"
    else text "Other (" ++ (number_text subsystem ++ text ")")

-- The COFF header `h` of 20 bytes.
unfoldable pub coff_header : Bytes → PeInfo
coff_header h = record new_info {
  is_pe = true;
  machine = u16 little h 0;
  timestamp = u32 little h 4;
  sections_count = u16 little h 2;
  machine_name = machine_name_of (u16 little h 0);
}

-- The fields of the optional header: entry point, image base of `n` bytes at `base`, subsystem.
unfoldable pub header_fields : Bytes → ℕ → ℕ → PeInfo → Result PeInfo
header_fields d opt base info =
    if leb (opt + 68) (length d)
    then (do
      entry ← unpack 4 (slice d (opt + 16) (opt + 20))
      image ← unpack (32 - base) (slice d (opt + base) (opt + 32))
      subsystem ← unpack 2 (slice d (opt + 68) (opt + 70))
      ok (record info {
        entry_point = u32 little entry 0;
        image_base = if base == 28 then u32 little image 0 else u64 little image 0;
        subsystem = u16 little subsystem 0;
      }))
    else ok info

-- The optional header of either kind, or of another.
unfoldable pub header_kind : Bytes → ℕ → ℕ → PeInfo → Result PeInfo
header_kind d opt magic info =
    if magic == 0x10B
    then header_fields d opt 28 (record info { is_64bit = false })
    else if magic == 0x20B
    then header_fields d opt 24 (record info { is_64bit = true })
    else ok info

abbrev pub name_subsystem : PeInfo → PeInfo
name_subsystem info = record info { subsystem_name = subsystem_name_of info.subsystem }

-- The optional header, if it is there and within the data.
unfoldable pub optional_header : Bytes → ℕ → ℕ → PeInfo → Result PeInfo
optional_header d opt size info =
    if ltb 0 size && leb (opt + size) (length d)
    then (do
      magic ← unpack 2 (slice d opt (opt + 2))
      info' ← header_kind d opt (u16 little magic 0) info
      ok (name_subsystem info'))
    else ok info

-- `rstrip(b"\x00")`
unfoldable pub strip_zeros : Bytes → Bytes
strip_zeros [] = []
strip_zeros (c ∷ d) =
    let rest = strip_zeros d in if c == 0 && length rest == 0 then [] else c ∷ rest

-- The section header at `off`, of which `h` holds the numbers.
abbrev pub section_at : Bytes → ℕ → Bytes → Section
section_at d off h = record {
  name = strip_zeros (slice d off (off + 8));
  virtual_size = u32 little h 0;
  virtual_address = u32 little h 4;
  raw_size = u32 little h 8;
  raw_offset = u32 little h 12;
}

-- The `for` loop over the section headers: the sections, and `max_raw_end`.
unfoldable pub read_sections : ℕ → Bytes → ℕ → ℕ → Result (List Section × ℕ)
read_sections zero d off raw_end = ok ([], raw_end)
read_sections (suc n) d off raw_end = elim (ltb (length d) (off + 40)) [
  | true ↦ ok ([], raw_end)
  | false ↦ unpack 16 (slice d (off + 8) (off + 24)) >>= λ h.
      read_sections n d (off + 40) (max raw_end (u32 little h 12 + u32 little h 8)) >>= λ r.
      ok (section_at d off h ∷ r.0, r.1)
]

-- The end of the certificate that the security directory names.
unfoldable pub certificate_end : Bytes → ℕ → ℕ → Result ℕ
certificate_end d dir raw_end =
    if leb (dir + 8) (length d)
    then (do
      h ← unpack 8 (slice d dir (dir + 8))
      ok (
          if ltb 0 (u32 little h 0) && ltb 0 (u32 little h 4)
          then max raw_end (u32 little h 0 + u32 little h 4)
          else raw_end))
    else ok raw_end

-- The size up to `raw_end`, and the overlay behind it.
unfoldable pub with_size : Bytes → ℕ → PeInfo → PeInfo
with_size d raw_end info =
    let size = if ltb 0 raw_end then min (length d) raw_end else length d in
    record info {
      calculated_size = size;
      has_overlay = ltb size (length d);
      overlay_size = length d - size;
    }

-- `parse_pe` behind the optional header, which is at `opt` and has `size` bytes.
unfoldable pub read_body : Bytes → ℕ → ℕ → PeInfo → Result (Option PeInfo)
read_body d opt size info = do
  found ← read_sections info.sections_count d (opt + size) (opt + size)
  raw_end ← certificate_end d (opt + (if info.is_64bit then 144 else 128)) found.1
  ok (some (with_size d raw_end (record info { sections = found.0 })))

-- `parse_pe` for the PE header at `pe`.
unfoldable pub parse_header : Bytes → ℕ → Result (Option PeInfo)
parse_header d pe = do
  h ← unpack 20 (slice d (pe + 4) (pe + 24))
  info ← optional_header d (pe + 24) (u16 little h 16) (coff_header h)
  read_body d (pe + 24) (u16 little h 16) info

-- `data[e_lfanew:e_lfanew + 4] == b"PE\x00\x00"` with the header within the data.
abbrev pub is_header : Bytes → ℕ → Bool
is_header d pe =
    leb (pe + 24) (length d) && bytes_beq (slice d pe (pe + 4)) (b'P' ∷ b'E' ∷ 0 ∷ 0 ∷ [])

-- `parse_pe`
unfoldable pub parse_pe : Bytes → Result (Option PeInfo)
parse_pe d =
    if ltb (length d) 64 || not (bytes_beq (slice d 0 2) (b'M' ∷ b'Z' ∷ [])) then ok none else (do
      h ← unpack 4 (slice d 60 64)
      if is_header d (u32 little h 0) then parse_header d (u32 little h 0) else ok none)
