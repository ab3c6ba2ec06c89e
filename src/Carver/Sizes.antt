-- ===== src/Carver/Sizes.antt =====
-- carver.py: the sizes that ELF, ZIP and PDF files are cut to.
use pcap_decode.Base.{
  ℕ, ◌+◌, ◌≤◌, ◌≡◌, refl, inl, inr, Bool, true, false, [], ◌∷◌, ◌++◌, arith, leb, length, drop,
  length-drop, Option-cases,
}
use pcap_decode.Base.Bytes.{
  Bytes, Result, ok, raise, at-ok, unpack-slice, Endian, little, big, byte,
}
use pcap_decode.Base.Search.{rfind, rfind_sound, starts_with-length}
use pcap_decode.Models.{text}
use pcap_decode.Carver.{
  elf32_size, elf64_size, elf_class_size, calculate_elf_size, calculate_zip_size, blanks,
  calculate_pdf_size,
}

-- No exception, and a size within the data.
abbrev pub size_fits : Bytes → Result ℕ → Bool
size_fits d (ok n) = leb n (length d)
size_fits d (raise e) = false

elf32_size-fits : (e : Endian) (d : Bytes) → 52 ≤ length d → size_fits d (elf32_size e d) ≡ true
unfolding elf32_size
elf32_size-fits e d h = rw (unpack-slice 24 d 28 52 h refl) ground arith

elf64_size-fits : (e : Endian) (d : Bytes) → 64 ≤ length d → size_fits d (elf64_size e d) ≡ true
unfolding elf64_size
elf64_size-fits e d h = rw (unpack-slice 32 d 32 64 h refl) ground arith

elf_class_size-fits :
    (ei_class : ℕ) (e : Endian) (d : Bytes)
    → 52 ≤ length d
    → size_fits d (elf_class_size ei_class e d) ≡ true
unfolding elf_class_size
elf_class_size-fits ei_class e d h = ground (arith, elf32_size-fits e d h, elf64_size-fits e d)

-- `calculate_elf_size` raises nothing, and the size is within the data.
calculate_elf_size-fits : (d : Bytes) → size_fits d (calculate_elf_size d) ≡ true
unfolding calculate_elf_size
calculate_elf_size-fits d = ground (
  arith,
  at-ok d 4,
  at-ok d 5,
  elf_class_size-fits (byte d 4) little d,
  elf_class_size-fits (byte d 4) big d,
)

calculate_zip_size-fits : (d : Bytes) → size_fits d (calculate_zip_size d) ≡ true
unfolding calculate_zip_size
calculate_zip_size-fits d = elim (Option-cases (rfind (text "PK" ++ (5 ∷ 6 ∷ [])) d)) [
  | inl e ↦ rw (e, calculate_zip_size) ground arith
  | inr (pos, e) ↦ rw (e, calculate_zip_size) ground (arith, unpack-slice 2 d (pos + 20) (pos + 22))
]

blanks-le : (d : Bytes) → blanks d ≤ length d
unfolding blanks
blanks-le [] = omega arith
blanks-le (c ∷ d) = ground (arith, blanks-le d)

mark_length : length (text "%%EOF") ≡ 5
unfolding text
mark_length = refl

calculate_pdf_size-le : (d : Bytes) → calculate_pdf_size d ≤ length d
unfolding calculate_pdf_size
calculate_pdf_size-le d = elim (Option-cases (rfind (text "%%EOF") d)) [
  | inl e ↦ rw (e, calculate_pdf_size) omega arith
  | inr (pos, e) ↦
      let there =
        starts_with-length (text "%%EOF") (drop pos d) (rfind_sound (text "%%EOF") d pos e) in
      rw (e, calculate_pdf_size)
        (omega (
          arith,
          there,
          mark_length,
          length-drop pos d,
          length-drop (pos + 5) d,
          blanks-le (drop (pos + 5) d),
        ))
]

-- The sizes that `calculate_elf_size`, `calculate_zip_size` and `calculate_pdf_size` give for any
-- data are within it, and none of them raises an exception.
pub sizes_within :
    (d : Bytes)
    → (size_fits d (calculate_elf_size d) ≡ true)
      × ((size_fits d (calculate_zip_size d) ≡ true) × (calculate_pdf_size d ≤ length d))
sizes_within d = (calculate_elf_size-fits d, (calculate_zip_size-fits d, calculate_pdf_size-le d))
