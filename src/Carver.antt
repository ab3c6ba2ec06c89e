-- ===== src/Carver.antt =====
-- pcap_decode/carver.py: files found in a byte stream by their signatures, and their sizes.
pub mod Sizes
pub mod Sound
pub mod Whole
pub mod Hidden
use Prim.Native.Nat.{bit_xor}
use Prim.Native.String.{String}
use pcap_decode.Base.{
  ℕ, zero, suc, ◌+◌, ◌-◌, ◌*◌, ◌/◌, ◌%◌, min, max, Bool, true, false, ◌&&◌, ◌||◌, not, Option, none,
  some, List, [], ◌∷◌, ◌++◌, map, leb, ltb, ◌==◌, if◌then◌else◌, length, take, drop,
}
use pcap_decode.Base.Bytes.{
  Bytes, Result, ok, ◌>>=◌, at, unpack, slice, byte, u16, u32, u64, Endian, little, big, bytes_beq,
}
use pcap_decode.Base.Search.{starts_with, find_from, rfind, is_infix, find_all, lower}
use pcap_decode.Models.{Text, text, number_text}
use pcap_decode.Pe.{PeInfo, parse_pe}

-- The end of a table of `num` entries of `size` bytes at `off`, if there is one.
abbrev pub table_end : ℕ → ℕ → ℕ → ℕ
table_end off num size = if ltb 0 off then off + num * size else 0

-- `calculate_elf_size` for 32-bit files: the program and section headers.
unfoldable pub elf32_size : Endian → Bytes → Result ℕ
elf32_size e d = do
  h ← unpack 24 (slice d 28 52)
  let end1 = table_end (u32 e h 0) (u16 e h 16) (u16 e h 14)
  let end2 = table_end (u32 e h 4) (u16 e h 20) (u16 e h 18)
  ok (min (length d) (max (max end1 end2) 52))

unfoldable pub elf64_size : Endian → Bytes → Result ℕ
elf64_size e d = do
  h ← unpack 32 (slice d 32 64)
  let end1 = table_end (u64 e h 0) (u16 e h 24) (u16 e h 22)
  let end2 = table_end (u64 e h 8) (u16 e h 28) (u16 e h 26)
  ok (min (length d) (max (max end1 end2) 64))

-- `calculate_elf_size` for a class and a byte order.
unfoldable pub elf_class_size : ℕ → Endian → Bytes → Result ℕ
elf_class_size ei_class e d =
    if ei_class == 1
    then elf32_size e d
    else if ei_class == 2
    then (if ltb (length d) 64 then ok (length d) else elf64_size e d)
    else ok (length d)

-- `calculate_elf_size`
unfoldable pub calculate_elf_size : Bytes → Result ℕ
calculate_elf_size d = if ltb (length d) 52 then ok (length d) else (do
  ei_class ← at d 4
  ei_data ← at d 5
  elf_class_size ei_class (if ei_data == 1 then little else big) d)

-- `calculate_zip_size`: up to the end of the comment of the last directory record.
unfoldable pub calculate_zip_size : Bytes → Result ℕ
calculate_zip_size d = elim (rfind (text "PK" ++ (5 ∷ 6 ∷ [])) d) [
  | none ↦ ok (length d)
  | some pos ↦
      if leb (pos + 22) (length d)
      then (do
        h ← unpack 2 (slice d (pos + 20) (pos + 22))
        ok (min (length d) (pos + 22 + u16 little h 0)))
      else ok (length d)
]

-- The number of line ends, blanks and tabs at the start.
unfoldable pub blanks : Bytes → ℕ
blanks [] = 0
blanks (c ∷ d) =
    let rest = blanks d in if c == 13 || (c == 10 || (c == 32 || c == 9)) then suc rest else 0

-- `calculate_pdf_size`: up to the blanks behind the last end mark.
unfoldable pub calculate_pdf_size : Bytes → ℕ
calculate_pdf_size d = elim (rfind (text "%%EOF") d) [
  | none ↦ length d
  | some pos ↦ pos + 5 + blanks (drop (pos + 5) d)
]

-- What a carver returns for a file that it found.
pub record Carved : Type 0 where
  pub payload : Bytes
  pub filename : Text
  pub extension : Text
  pub magic_type : Text
  pub carve_offset : ℕ
  pub carve_method : Text
  pub xor_key : Option ℕ
  pub pe_info : Option PeInfo

-- `f"{prefix}{idx}.{extension}"`
abbrev pub numbered : Text → ℕ → Text → Text
numbered prefix idx extension = prefix ++ (number_text idx ++ (b'.' ∷ extension))

-- The results of `f` at each position in turn.
unfoldable pub carve_each : (ℕ → Result (List Carved)) → List ℕ → Result (List Carved)
carve_each f [] = ok []
carve_each f (i ∷ is) = do found ← f i; rest ← carve_each f is; ok (found ++ rest)

abbrev pub carved_pe : Bytes → ℕ → PeInfo → Carved
carved_pe pe_bytes idx info = record {
  payload = pe_bytes;
  filename = numbered (text "carved_pe_") idx (text "exe");
  extension = if not (info.subsystem == 1) then text "exe" else text "sys";
  magic_type =
      text "Windows PE Executable ("
      ++ (info.machine_name ++ (text ", " ++ (info.subsystem_name ++ text ")")));
  carve_offset = idx;
  carve_method = text "PE_SIGNATURE";
  xor_key = none;
  pe_info = some info;
}

-- The PE file at `idx` whose headers `parse_pe` found, if it is large enough.
unfoldable pub keep_pe : Bytes → ℕ → Option PeInfo → List Carved
keep_pe candidate idx none = []
keep_pe candidate idx (some info) =
    let pe_bytes = take info.calculated_size candidate in
    if info.is_pe && leb 512 (length pe_bytes) then carved_pe pe_bytes idx info ∷ [] else []

unfoldable pub carve_pe : Bytes → ℕ → Result (List Carved)
carve_pe d idx = parse_pe (drop idx d) >>= λ found. ok (keep_pe (drop idx d) idx found)

-- A file without further details.
abbrev pub plain : Bytes → ℕ → Text → Text → Text → Text → Carved
plain payload idx prefix extension magic_type carve_method = record {
  payload = payload;
  filename = numbered prefix idx extension;
  extension = extension;
  magic_type = magic_type;
  carve_offset = idx;
  carve_method = carve_method;
  xor_key = none;
  pe_info = none;
}

unfoldable pub carve_elf : Bytes → ℕ → Result (List Carved)
carve_elf d idx =
    let candidate = drop idx d in
    if leb 52 (length candidate)
    then (do
      exact_size ← calculate_elf_size candidate
      let elf_bytes = take exact_size candidate
      let item =
          plain elf_bytes idx (text "carved_elf_") (text "elf")
            (text "ELF Executable / Shared Object") (text "ELF_SIGNATURE")
      ok (if leb 52 (length elf_bytes) then item ∷ [] else []))
    else ok []

-- The extension and the kind of an archive, as its bytes name them.
unfoldable pub archive_kind : Bytes → Text × Text
archive_kind zip_bytes =
    if is_infix (text "word/") zip_bytes || is_infix (text "[Content_Types].xml") zip_bytes
    then (text "docx", text "Office OpenXML Document")
    else if is_infix (text "AndroidManifest.xml") zip_bytes
    then (text "apk", text "Android APK")
    else if is_infix (text "META-INF/MANIFEST.MF") zip_bytes
    then (text "jar", text "Java JAR Archive")
    else (text "zip", text "ZIP Archive")

unfoldable pub carve_zip : Bytes → ℕ → Result (List Carved)
carve_zip d idx = do
  exact_size ← calculate_zip_size (drop idx d)
  let zip_bytes = take exact_size (drop idx d)
  let kind = archive_kind zip_bytes
  let item = plain zip_bytes idx (text "carved_archive_") kind.0 kind.1 (text "ZIP_SIGNATURE")
  ok (if leb 30 (length zip_bytes) then item ∷ [] else [])

unfoldable pub carve_pdf : Bytes → ℕ → Result (List Carved)
carve_pdf d idx =
    let pdf_bytes = take (calculate_pdf_size (drop idx d)) (drop idx d) in
    let item =
      plain pdf_bytes idx (text "carved_document_") (text "pdf") (text "PDF Document")
        (text "PDF_SIGNATURE") in
    ok (if leb 32 (length pdf_bytes) then item ∷ [] else [])

-- A file that reaches to the end of the data.
unfoldable pub carve_rest : Text → Text → Text → Text → Bytes → ℕ → Result (List Carved)
carve_rest prefix extension magic_type carve_method d idx =
    ok (plain (drop idx d) idx prefix extension magic_type carve_method ∷ [])

-- A gzip file; a match one byte behind another would be left out.
unfoldable pub carve_gzip : Bytes → ℕ → Result (List Carved)
carve_gzip d idx =
    if ltb 0 idx && bytes_beq (slice d (idx - 1) (idx + 3)) (0x1f ∷ 0x8b ∷ 8 ∷ [])
    then ok []
    else carve_rest (text "carved_gzip_") (text "gz") (text "GZIP Compressed Archive")
        (text "GZIP_SIGNATURE") d idx

-- A signature, and what is done where it stands.
pub record Signature : Type 0 where
  pub magic : Bytes
  pub carve : Bytes → ℕ → Result (List Carved)

abbrev macho : Bytes → Signature
macho magic = record {
  magic = magic;
  carve =
      carve_rest (text "carved_macho_") (text "macho") (text "Mach-O Binary")
        (text "MACHO_SIGNATURE");
}

-- The signatures in the order in which `_carve_signatures` looks for them.
abbrev pub signatures : List Signature
signatures =
    (record { magic = text "MZ"; carve = carve_pe })
    ∷ (record { magic = 0x7f ∷ text "ELF"; carve = carve_elf })
    ∷ macho (0xfe ∷ 0xed ∷ 0xfa ∷ 0xce ∷ [])
    ∷ macho (0xfe ∷ 0xed ∷ 0xfa ∷ 0xcf ∷ [])
    ∷ macho (0xce ∷ 0xfa ∷ 0xed ∷ 0xfe ∷ [])
    ∷ macho (0xcf ∷ 0xfa ∷ 0xed ∷ 0xfe ∷ [])
    ∷ macho (0xca ∷ 0xfe ∷ 0xba ∷ 0xbe ∷ [])
    ∷ (record { magic = text "PK" ++ (3 ∷ 4 ∷ []); carve = carve_zip })
    ∷ (record { magic = text "%PDF-"; carve = carve_pdf })
    ∷ (record {
      magic = 0xd0 ∷ 0xcf ∷ 0x11 ∷ 0xe0 ∷ 0xa1 ∷ 0xb1 ∷ 0x1a ∷ 0xe1 ∷ [];
      carve =
          carve_rest (text "carved_ole_") (text "doc")
            (text "Microsoft Office Legacy / OLE2 Compound Document") (text "OLE2_SIGNATURE");
    })
    ∷ (record {
      magic = text "7z" ++ (0xbc ∷ 0xaf ∷ 0x27 ∷ 0x1c ∷ []);
      carve =
          carve_rest (text "carved_archive_") (text "7z") (text "7-Zip Archive")
            (text "7Z_SIGNATURE");
    })
    ∷ (record {
      magic = text "Rar!" ++ (0x1a ∷ 7 ∷ []);
      carve =
          carve_rest (text "carved_archive_") (text "rar") (text "RAR Archive")
            (text "RAR_SIGNATURE");
    })
    ∷ (record { magic = 0x1f ∷ 0x8b ∷ 8 ∷ []; carve = carve_gzip })
    ∷ []

-- The signatures of a list, one after the other.
unfoldable pub carve_list : List Signature → Bytes → Result (List Carved)
carve_list [] d = ok []
carve_list (s ∷ ss) d = do
  found ← carve_each (s.carve d) (find_all s.magic d)
  rest ← carve_list ss d
  ok (found ++ rest)

-- `_carve_signatures`
unfoldable pub carve_signatures : Bytes → Result (List Carved)
carve_signatures d = carve_list signatures d
