-- ===== src/Pe/Size.antt =====
-- pe_parser.py: the size that a PE file is cut to.
use pcap_decode.Base.{
  ℕ, zero, suc, ◌+◌, ◌≤◌, ◌<◌, ◌≡◌, ◌↔◌, inl, inr, max, min, Bool, true, ◌&&◌, ◌||◌, not, Option,
  none, some, List, [], ◌∷◌, arith, ltb, leb, if◌then◌else◌, length, All, All-map, Bool-cases,
}
use pcap_decode.Base.Bytes.{
  Bytes, ok, unpack, slice, u16, u32, little, bytes_beq, Post, bind-Post, then-Post, if-Post,
}
use pcap_decode.Pe.{
  Section, PeInfo, coff_header, optional_header, read_sections, certificate_end, with_size,
  read_body, parse_header, parse_pe, is_header,
}

-- The raw data of every section ends at `raw_end` at the latest.
abbrev pub EndBy : ℕ → List Section → Type 0
EndBy raw_end = All (λ s. s.raw_offset + s.raw_size ≤ raw_end)

-- The size and the overlay make up the data, and the size covers what the data has of every section.
pub record IsSized (d : Bytes) (info : PeInfo) : Type 0 where
  pub within : info.calculated_size ≤ length d
  pub overlay : info.calculated_size + info.overlay_size ≡ length d
  pub flagged : (info.has_overlay ≡ true) ↔ (0 < info.overlay_size)
  pub covers :
      All (λ s. min (length d) (s.raw_offset + s.raw_size) ≤ info.calculated_size) info.sections

EndBy-mono : (m n : ℕ) (ss : List Section) → m ≤ n → EndBy m ss → EndBy n ss
EndBy-mono m n ss h e = All-map _ _ ss (λ s f. omega arith) e

-- What the loop over the sections returns, from `raw_end` on.
abbrev Ends : ℕ → List Section × ℕ → Type 0
Ends raw_end r = (raw_end ≤ r.1) × EndBy r.1 r.0

read_sections-EndBy :
    (n : ℕ) (d : Bytes) (off raw_end : ℕ) → Post (Ends raw_end) (read_sections n d off raw_end)
unfolding read_sections
read_sections-EndBy zero d off raw_end = (omega arith, tt)
read_sections-EndBy (suc n) d off raw_end = elim (Bool-cases (ltb (length d) (off + 40))) [
  | inl over ↦ rw (over, read_sections) (omega arith, tt)
  | inr more ↦
      rw (more, read_sections)
        (then-Post (Ends raw_end) (unpack 16 (slice d (off + 8) (off + 24))) _ (λ h.
          let end = max raw_end (u32 little h 12 + u32 little h 8) in
          bind-Post (Ends end) (Ends raw_end) (read_sections n d (off + 40) end) _
            (read_sections-EndBy n d (off + 40) end) (λ r e. (omega arith, (omega arith, e.1)))))
]

max_if : (b : Bool) (m n : ℕ) → m ≤ (if b then max m n else m)
max_if b m n = ground arith

certificate_end-le :
    (d : Bytes) (dir raw_end : ℕ) → Post (λ r. raw_end ≤ r) (certificate_end d dir raw_end)
unfolding certificate_end
certificate_end-le d dir raw_end =
    if-Post (λ r. raw_end ≤ r) (leb (dir + 8) (length d)) _ (ok raw_end)
      (λ b.
        then-Post (λ r. raw_end ≤ r) (unpack 8 (slice d dir (dir + 8))) _
          (λ h. max_if (ltb 0 (u32 little h 0) && ltb 0 (u32 little h 4)) raw_end _))
      (λ b. omega arith)

covers_size :
    (n size : ℕ) (raw_end : ℕ) (ss : List Section)
    → min n raw_end ≤ size
    → EndBy raw_end ss
    → All (λ s. min n (s.raw_offset + s.raw_size) ≤ size) ss
covers_size n size raw_end ss h e = All-map _ _ ss (λ s f. omega arith) e

with_size-IsSized :
    (d : Bytes) (raw_end : ℕ) (info : PeInfo)
    → EndBy raw_end info.sections
    → IsSized d (with_size d raw_end info)
unfolding with_size
with_size-IsSized d raw_end info e =
    let n = length d in
    let size = if ltb 0 raw_end then min n raw_end else n in
    record {
      within = ground arith;
      overlay = ground arith;
      flagged = ground arith;
      covers = covers_size n size raw_end info.sections (ground arith) e;
    }

-- A PE file that was found has its size in order.
abbrev pub FoundSized : Bytes → Option PeInfo → Type 0
FoundSized d none = Unit
FoundSized d (some info) = IsSized d info

read_body-IsSized :
    (d : Bytes) (opt size : ℕ) (info : PeInfo) → Post (FoundSized d) (read_body d opt size info)
unfolding read_body
read_body-IsSized d opt size info =
    bind-Post (Ends (opt + size)) (FoundSized d)
      (read_sections info.sections_count d (opt + size) (opt + size)) _
      (read_sections-EndBy info.sections_count d (opt + size) (opt + size))
      (λ found e.
        bind-Post (λ r. found.1 ≤ r) (FoundSized d)
          (certificate_end d (opt + (if info.is_64bit then 144 else 128)) found.1) _
          (certificate_end-le d _ found.1)
          (λ r le.
            with_size-IsSized d r (record info { sections = found.0 })
              (EndBy-mono _ _ found.0 le e.1)))

parse_header-IsSized : (d : Bytes) (pe : ℕ) → Post (FoundSized d) (parse_header d pe)
unfolding parse_header
parse_header-IsSized d pe =
    then-Post (FoundSized d) (unpack 20 (slice d (pe + 4) (pe + 24))) _ (λ h.
      then-Post (FoundSized d) (optional_header d (pe + 24) (u16 little h 16) (coff_header h)) _
        (λ info. read_body-IsSized d (pe + 24) (u16 little h 16) info))

-- A PE file that `parse_pe` accepts is cut to a size within the data; size and overlay make up the
-- data, `has_overlay` says whether there is one, and what the data has of each section's raw data
-- lies within the size.
pub parse_pe-IsSized : (d : Bytes) → Post (FoundSized d) (parse_pe d)
unfolding parse_pe
parse_pe-IsSized d =
    if-Post (FoundSized d) (ltb (length d) 64 || not (bytes_beq (slice d 0 2) (b'M' ∷ b'Z' ∷ [])))
      (ok none) _ (λ b. tt)
      (λ b. then-Post (FoundSized d) (unpack 4 (slice d 60 64)) _ (λ h.
        if-Post (FoundSized d) (is_header d (u32 little h 0)) (parse_header d (u32 little h 0))
          (ok none) (λ c. parse_header-IsSized d (u32 little h 0)) (λ c. tt)))
