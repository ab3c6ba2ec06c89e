-- ===== src/Tests/Carver.antt =====
-- carver.py on a document, and on an executable under the key 7.
use pcap_decode.Base.{ℕ, zero, suc, ◌≤◌, ◌<◌, ◌≡◌, true, [], ◌∷◌, ◌++◌, arith, length, All}
use pcap_decode.Base.Bytes.{Bytes, IsBytes, Post}
use pcap_decode.Models.{text}
use pcap_decode.Carver.{
  signatures, carve_signatures, calculate_elf_size, calculate_zip_size, calculate_pdf_size,
}
use pcap_decode.Carver.Sizes.{size_fits, sizes_within}
use pcap_decode.Carver.Sound.{IsCarved, carve_signatures-IsCarved}
use pcap_decode.Carver.Whole.{xor_scan, carve_xor_pe}
use pcap_decode.Carver.Hidden.{HiddenIn, carve_xor_pe-HiddenIn, xor_scan_fuel}

-- A document between other bytes.
abbrev document : Bytes
document = 1 ∷ 2 ∷ (text "%PDF-1.4 some text of a document %%EOF" ++ (10 ∷ 1 ∷ 2 ∷ []))

abbrev repeat : ℕ → ℕ → Bytes
repeat b zero = []
repeat b (suc n) = b ∷ repeat b n

repeat-IsBytes : (b n : ℕ) (d : Bytes) → b < 256 → IsBytes d → IsBytes (repeat b n ++ d)
repeat-IsBytes b zero d l h = h
repeat-IsBytes b (suc n) d l h = (l, repeat-IsBytes b n d l h)

-- An executable with no optional header, every byte under the key 7.
abbrev pe_mark : Bytes
pe_mark = 71 ∷ 7 ∷ 7 ∷ 7 ∷ 0x57 ∷ 0x42 ∷ (repeat 7 238 ++ [])

abbrev hidden : Bytes
hidden = 0x4a ∷ 0x5d ∷ (repeat 7 58 ++ pe_mark)

hidden-IsBytes : IsBytes hidden
hidden-IsBytes = (
  omega arith,
  (
    omega arith,
    repeat-IsBytes 7 58 pe_mark (omega arith) (
      omega arith,
      (
        omega arith,
        (
          omega arith,
          (omega arith, (omega arith, (omega arith, repeat-IsBytes 7 238 [] (omega arith) tt))),
        ),
      ),
    ),
  ),
)

sizes_within_example :
    (size_fits document (calculate_elf_size document) ≡ true)
    × ((size_fits document (calculate_zip_size document) ≡ true)
        × (calculate_pdf_size document ≤ length document))
sizes_within_example = sizes_within document

carve_signatures-IsCarved_example :
    Post (All (IsCarved signatures document)) (carve_signatures document)
carve_signatures-IsCarved_example = carve_signatures-IsCarved document

carve_xor_pe-HiddenIn_example : Post (All (HiddenIn hidden)) (carve_xor_pe hidden)
carve_xor_pe-HiddenIn_example = carve_xor_pe-HiddenIn hidden hidden-IsBytes

xor_scan_fuel_example : xor_scan 400 7 hidden 0 ≡ xor_scan 500 7 hidden 0
xor_scan_fuel_example = xor_scan_fuel 400 500 7 hidden 0 (omega arith) (omega arith)
