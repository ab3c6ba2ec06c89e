-- ===== src/Carver/Sound.antt =====
-- carver.py: what is carved by signature stands in the data.
use pcap_decode.Base.{
  ℕ, ◌+◌, ◌-◌, ◌≡◌, refl, subst, sym, ◌∙◌, ap, Bool, true, false, ◌||◌, ◌&&◌, Option, none, some,
  List, [], ◌∷◌, arith, leb, ltb, length, take, drop, take-length, All, All-append, All-map,
  if◌then◌else◌,
}
use pcap_decode.Base.Bytes.{
  Bytes, Result, ok, Post, bind-Post, then-Post, if-Post, bytes_beq, slice, take-take,
}
use pcap_decode.Base.Search.{starts_with, find_all, find_all_sound}
use pcap_decode.Models.{Text, text}
use pcap_decode.Pe.{PeInfo, parse_pe}
use pcap_decode.Carver.{
  Carved, Signature, signatures, carve_each, carve_list, carve_signatures, carve_pe, keep_pe,
  carve_elf, carve_zip, carve_pdf, carve_rest, carve_gzip, calculate_elf_size, calculate_zip_size,
  calculate_pdf_size, carved_pe,
}

-- One of the signatures stands at `i`.
abbrev pub is_signed : List Signature → Bytes → ℕ → Bool
is_signed [] d i = false
is_signed (s ∷ ss) d i = starts_with s.magic (drop i d) || is_signed ss d i

-- The payload is what stands in the data at the offset.
abbrev pub IsCut : Bytes → Carved → Type 0
IsCut d c = c.payload ≡ take (length c.payload) (drop c.carve_offset d)

-- What a carver may find at `i`: pieces of the data that start there.
abbrev CutAt : Bytes → ℕ → Carved → Type 0
CutAt d i c = IsCut d c × (c.carve_offset ≡ i)

abbrev CutsAt : (Bytes → ℕ → Result (List Carved)) → Type 0
CutsAt f = (d : Bytes) (i : ℕ) → Post (All (CutAt d i)) (f d i)

cut_at :
    (d : Bytes) (i n : ℕ) (c : Carved)
    → c.payload ≡ take n (drop i d)
    → c.carve_offset ≡ i
    → CutAt d i c
cut_at d i n c e o = (
  e
      ∙ take-take n (drop i d)
      ∙ ap (λ l. take (length l) (drop i d)) (sym e)
      ∙ ap (λ j. take (length c.payload) (drop j d)) (sym o),
  o,
)

one_cut :
    (b : Bool) (d : Bytes) (i n : ℕ) (c : Carved)
    → c.payload ≡ take n (drop i d)
    → c.carve_offset ≡ i
    → All (CutAt d i) (if b then c ∷ [] else [])
one_cut true d i n c e o = (cut_at d i n c e o, tt)
one_cut false d i n c e o = tt

keep_pe-CutAt :
    (d : Bytes) (i : ℕ) (found : Option PeInfo) → All (CutAt d i) (keep_pe (drop i d) i found)
unfolding keep_pe
keep_pe-CutAt d i none = tt
keep_pe-CutAt d i (some info) =
    let n = info.calculated_size in
    one_cut (info.is_pe && leb 512 (length (take n (drop i d)))) d i n
      (carved_pe (take n (drop i d)) i info) refl refl

carve_pe-CutsAt : CutsAt carve_pe
unfolding carve_pe
carve_pe-CutsAt d i =
    then-Post (All (CutAt d i)) (parse_pe (drop i d)) _ (λ found. keep_pe-CutAt d i found)

carve_elf-CutsAt : CutsAt carve_elf
unfolding carve_elf
carve_elf-CutsAt d i =
    if-Post (All (CutAt d i)) (leb 52 (length (drop i d))) _ (ok [])
      (λ b.
        then-Post (All (CutAt d i)) (calculate_elf_size (drop i d)) _
          (λ n. one_cut (leb 52 (length (take n (drop i d)))) d i n _ refl refl))
      (λ b. tt)

carve_zip-CutsAt : CutsAt carve_zip
unfolding carve_zip
carve_zip-CutsAt d i =
    then-Post (All (CutAt d i)) (calculate_zip_size (drop i d)) _
      (λ n. one_cut (leb 30 (length (take n (drop i d)))) d i n _ refl refl)

carve_pdf-CutsAt : CutsAt carve_pdf
unfolding carve_pdf
carve_pdf-CutsAt d i =
    let n = calculate_pdf_size (drop i d) in
    one_cut (leb 32 (length (take n (drop i d)))) d i n _ refl refl

carve_rest-CutsAt : (a b c e : Text) → CutsAt (carve_rest a b c e)
unfolding carve_rest
carve_rest-CutsAt a b c e d i =
    ((sym (take-length (length (drop i d)) (drop i d) (omega arith)), refl), tt)

carve_gzip-CutsAt : CutsAt carve_gzip
unfolding carve_gzip
carve_gzip-CutsAt d i =
    let doubled = ltb 0 i && bytes_beq (slice d (i - 1) (i + 3)) (0x1f ∷ 0x8b ∷ 8 ∷ []) in
    let name = text "carved_gzip_" in
    let kind = text "GZIP Compressed Archive" in
    let carve_method = text "GZIP_SIGNATURE" in
    if-Post (All (CutAt d i)) doubled (ok []) (carve_rest name (text "gz") kind carve_method d i)
      (λ b. tt) (λ b. carve_rest-CutsAt name (text "gz") kind carve_method d i)

-- Every carver of the list keeps to the data.
abbrev AllCut : List Signature → Type 0
AllCut = All (λ s. CutsAt s.carve)

signatures-AllCut : AllCut signatures
signatures-AllCut = (
  carve_pe-CutsAt,
  (
    carve_elf-CutsAt,
    (
      carve_rest-CutsAt _ _ _ _,
      (
        carve_rest-CutsAt _ _ _ _,
        (
          carve_rest-CutsAt _ _ _ _,
          (
            carve_rest-CutsAt _ _ _ _,
            (
              carve_rest-CutsAt _ _ _ _,
              (
                carve_zip-CutsAt,
                (
                  carve_pdf-CutsAt,
                  (
                    carve_rest-CutsAt _ _ _ _,
                    (
                      carve_rest-CutsAt _ _ _ _,
                      (carve_rest-CutsAt _ _ _ _, (carve_gzip-CutsAt, tt)),
                    ),
                  ),
                ),
              ),
            ),
          ),
        ),
      ),
    ),
  ),
)

-- What a result of carving has: it is cut out of the data where a signature stands.
pub record IsCarved (ss : List Signature) (d : Bytes) (c : Carved) : Type 0 where
  pub cut : IsCut d c
  pub signed : is_signed ss d c.carve_offset ≡ true

cuts_carved :
    (s : Signature) (ss : List Signature) (d : Bytes) (i : ℕ) (found : List Carved)
    → starts_with s.magic (drop i d) ≡ true
    → All (CutAt d i) found
    → All (IsCarved (s ∷ ss) d) found
cuts_carved s ss d i found h c =
    All-map _ _ found
      (λ x k. record {
        cut = k.0;
        signed = subst (λ j. is_signed (s ∷ ss) d j ≡ true) (sym k.1) (ground arith);
      })
      c

carve_each-IsCarved :
    (s : Signature) (ss : List Signature) (d : Bytes) (is : List ℕ)
    → CutsAt s.carve
    → All (λ i. starts_with s.magic (drop i d) ≡ true) is
    → Post (All (IsCarved (s ∷ ss) d)) (carve_each (s.carve d) is)
unfolding carve_each
carve_each-IsCarved s ss d [] f h = tt
carve_each-IsCarved s ss d (i ∷ is) f h =
    bind-Post (All (CutAt d i)) (All (IsCarved (s ∷ ss) d)) (s.carve d i) _ (f d i) (λ found c.
      bind-Post (All (IsCarved (s ∷ ss) d)) (All (IsCarved (s ∷ ss) d)) (carve_each (s.carve d) is)
        _ (carve_each-IsCarved s ss d is f h.1)
        (λ rest r.
          All-append (IsCarved (s ∷ ss) d) found rest (cuts_carved s ss d i found h.0 c) r))

carved_more :
    (s : Signature) (ss : List Signature) (d : Bytes) (found : List Carved)
    → All (IsCarved ss d) found
    → All (IsCarved (s ∷ ss) d) found
carved_more s ss d found h =
    All-map _ _ found
      (λ x k. let signed = k.signed in record { cut = k.cut; signed = ground arith }) h

carve_list-IsCarved :
    (ss : List Signature) (d : Bytes) → AllCut ss → Post (All (IsCarved ss d)) (carve_list ss d)
unfolding carve_list
carve_list-IsCarved [] d h = tt
carve_list-IsCarved (s ∷ ss) d h =
    bind-Post (All (IsCarved (s ∷ ss) d)) (All (IsCarved (s ∷ ss) d))
      (carve_each (s.carve d) (find_all s.magic d)) _
      (carve_each-IsCarved s ss d (find_all s.magic d) h.0 (find_all_sound s.magic d))
      (λ found f.
        bind-Post (All (IsCarved ss d)) (All (IsCarved (s ∷ ss) d)) (carve_list ss d) _
          (carve_list-IsCarved ss d h.1)
          (λ rest r. All-append (IsCarved (s ∷ ss) d) found rest f (carved_more s ss d rest r)))

-- Every file that `_carve_signatures` returns stands in the data at the offset that it names, and
-- one of the signatures stands there.
pub carve_signatures-IsCarved :
    (d : Bytes) → Post (All (IsCarved signatures d)) (carve_signatures d)
unfolding carve_signatures
carve_signatures-IsCarved d = carve_list-IsCarved signatures d signatures-AllCut
