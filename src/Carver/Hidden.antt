-- ===== src/Carver/Hidden.antt =====
-- carver.py, `_carve_xor_pe`: what is found under a key, and that the search ends.
use Prim.Native.Nat.{bit_xor}
use pcap_decode.Base.{
  ℕ, zero, suc, ◌+◌, ◌≤◌, ◌<◌, ◌≡◌, refl, sym, ◌∙◌, ap, inl, inr, Bool, true, false, Option, none,
  some, List, [], ◌∷◌, arith, ltb, length, take, drop, All, All-append, Bool-cases, Option-cases,
  if◌then◌else◌,
}
use pcap_decode.Base.Bytes.{
  Bytes, IsBytes, Result, ok, ◌>>=◌, Post, bind-Post, then-Post, if-Post, unpack, slice, u32,
  little, drop-IsBytes, take-IsBytes, take-take,
}
use pcap_decode.Base.Search.{find_from, find_from_sound}
use pcap_decode.Base.Xor.{xor_twice}
use pcap_decode.Models.{text}
use pcap_decode.Pe.{PeInfo, parse_pe}
use pcap_decode.Carver.{Carved}
use pcap_decode.Carver.Whole.{
  unxor, keep_xor, is_hidden, xor_at, xor_scan, xor_keys, carve_xor_pe, xor_carved,
}

-- The payload, put under the key again, is what stands in the data at the offset.
pub record IsHidden (d : Bytes) (key : ℕ) (c : Carved) : Type 0 where
  pub used : c.xor_key ≡ some key
  pub stands : unxor key c.payload ≡ take (length c.payload) (drop c.carve_offset d)

pub unxor_twice : (key : ℕ) (d : Bytes) → key < 256 → IsBytes d → unxor key (unxor key d) ≡ d
unfolding unxor
unxor_twice key [] l h = refl
unxor_twice key (b ∷ d) l h = cc (xor_twice b key h.0 l, unxor_twice key d l h.1)

unxor-take : (key n : ℕ) (d : Bytes) → take n (unxor key d) ≡ unxor key (take n d)
unfolding unxor
unxor-take key zero d = refl
unxor-take key (suc n) [] = refl
unxor-take key (suc n) (b ∷ d) = ap (λ l. bit_xor b key ∷ l) (unxor-take key n d)

length-unxor : (key : ℕ) (d : Bytes) → length (unxor key d) ≡ length d
unfolding unxor
length-unxor key [] = refl
length-unxor key (b ∷ d) = ap suc (length-unxor key d)

carved-IsHidden :
    (d : Bytes) (key idx : ℕ) (info : PeInfo)
    → key < 256
    → IsBytes d
    → IsHidden d key (xor_carved key (unxor key (drop idx d)) idx info)
carved-IsHidden d key idx info l h =
    let n = info.calculated_size in
    let e = drop idx d in
    record {
      used = refl;
      stands =
          ap (unxor key) (unxor-take key n e)
          ∙ unxor_twice key (take n e) l (take-IsBytes n e (drop-IsBytes idx d h))
          ∙ take-take n e
          ∙ ap (λ m. take m e) (sym (ap length (unxor-take key n e) ∙ length-unxor key (take n e)));
    }

-- What `xor_at` finds is hidden under the key.
abbrev MaybeHidden : Bytes → ℕ → Option Carved → Type 0
MaybeHidden d key none = Unit
MaybeHidden d key (some c) = IsHidden d key c

if-MaybeHidden :
    (b : Bool) (d : Bytes) (key : ℕ) (c : Carved)
    → IsHidden d key c
    → MaybeHidden d key (if b then some c else none)
if-MaybeHidden true d key c h = h
if-MaybeHidden false d key c h = tt

keep_xor-MaybeHidden :
    (d : Bytes) (key idx : ℕ) (found : Option PeInfo)
    → key < 256
    → IsBytes d
    → MaybeHidden d key (keep_xor key (unxor key (drop idx d)) idx found)
unfolding keep_xor
keep_xor-MaybeHidden d key idx none l h = tt
keep_xor-MaybeHidden d key idx (some info) l h =
    if-MaybeHidden info.is_pe d key (xor_carved key (unxor key (drop idx d)) idx info)
      (carved-IsHidden d key idx info l h)

xor_at-MaybeHidden :
    (d : Bytes) (key idx : ℕ) → key < 256 → IsBytes d → Post (MaybeHidden d key) (xor_at key d idx)
unfolding xor_at
xor_at-MaybeHidden d key idx l b =
    then-Post (MaybeHidden d key) (unpack 4 (unxor key (slice d (idx + 60) (idx + 64)))) _ (λ h.
      if-Post (MaybeHidden d key) (is_hidden key d idx (u32 little h 0)) _ (ok none)
        (λ e.
          then-Post (MaybeHidden d key) (parse_pe (unxor key (drop idx d))) _
            (λ found. keep_xor-MaybeHidden d key idx found l b))
        (λ e. tt))

-- Some key below 256 is the one of the item.
abbrev pub HiddenIn : Bytes → Carved → Type 0
HiddenIn d c = (key : ℕ) × ((key < 256) × IsHidden d key c)

found-HiddenIn :
    (d : Bytes) (key : ℕ) (found : Option Carved) (rest : Result (List Carved))
    → key < 256
    → MaybeHidden d key found
    → Post (All (HiddenIn d)) rest
    → Post (All (HiddenIn d)) (elim found [ some item ↦ ok (item ∷ []) | none ↦ rest ])
found-HiddenIn d key none rest l h r = r
found-HiddenIn d key (some item) rest l h r = ((key, (l, h)), tt)

xor_scan-HiddenIn :
    (fuel key : ℕ) (d : Bytes) (pos : ℕ)
    → key < 256
    → IsBytes d
    → Post (All (HiddenIn d)) (xor_scan fuel key d pos)
unfolding xor_scan
xor_scan-HiddenIn zero key d pos l h = tt
xor_scan-HiddenIn (suc fuel) key d pos l h =
    elim (Option-cases (find_from (unxor key (text "MZ")) d pos)) [
      | inl e ↦ rw (e, xor_scan) tt
      | inr (idx, e) ↦ elim (Bool-cases (ltb (length d) (idx + 64))) [
        | inl over ↦ rw (e, xor_scan) (rw over tt)
        | inr more ↦
            rw (e, xor_scan)
              (rw more (
                bind-Post (MaybeHidden d key) (All (HiddenIn d)) (xor_at key d idx) _
                  (xor_at-MaybeHidden d key idx l h)
                  (λ found k.
                    found-HiddenIn d key found (xor_scan fuel key d (idx + 1)) l k
                      (xor_scan-HiddenIn fuel key d (idx + 1) l h))))
      ]
    ]

xor_keys-HiddenIn :
    (n key : ℕ) (d : Bytes) → key + n ≤ 256 → IsBytes d → Post (All (HiddenIn d)) (xor_keys n key d)
unfolding xor_keys
xor_keys-HiddenIn zero key d l h = tt
xor_keys-HiddenIn (suc n) key d l h =
    bind-Post (All (HiddenIn d)) (All (HiddenIn d)) (xor_scan (suc (length d)) key d 0) _
      (xor_scan-HiddenIn (suc (length d)) key d 0 (omega arith) h)
      (λ found f.
        bind-Post (All (HiddenIn d)) (All (HiddenIn d)) (xor_keys n (key + 1) d) _
          (xor_keys-HiddenIn n (key + 1) d (omega arith) h)
          (λ rest r. All-append (HiddenIn d) found rest f r))

-- In data of bytes, every file that `_carve_xor_pe` returns names a key below 256, and under that
-- key its payload is what stands in the data at the offset that it names.
pub carve_xor_pe-HiddenIn : (d : Bytes) → IsBytes d → Post (All (HiddenIn d)) (carve_xor_pe d)
unfolding carve_xor_pe
carve_xor_pe-HiddenIn d h =
    if-Post (All (HiddenIn d)) (ltb (length d) 256) (ok []) (xor_keys 255 1 d) (λ b. tt)
      (λ b. xor_keys-HiddenIn 255 1 d (omega arith) h)

same_bind :
    (m : Result (Option Carved)) (r s : Result (List Carved))
    → r ≡ s
    → (m >>= λ found. elim found [ some item ↦ ok (item ∷ []) | none ↦ r ])
      ≡ (m >>= λ found. elim found [ some item ↦ ok (item ∷ []) | none ↦ s ])
same_bind m r s e = ap (λ q. m >>= λ found. elim found [ some item ↦ ok (item ∷ []) | none ↦ q ]) e

-- Behind the data there is nothing to find.
xor_scan_past : (n key : ℕ) (d : Bytes) (pos : ℕ) → length d < pos → xor_scan n key d pos ≡ ok []
unfolding xor_scan
xor_scan_past zero key d pos l = refl
xor_scan_past (suc n) key d pos l = elim (Option-cases (find_from (unxor key (text "MZ")) d pos)) [
  | inl e ↦ rw (e, xor_scan) refl
  | inr (idx, e) ↦
      let behind = (find_from_sound (unxor key (text "MZ")) d pos idx e).0 in
      let over : ltb (length d) (idx + 64) ≡ true = ground arith in rw (e, xor_scan) (rw over refl)
]

-- The search for a key ends: every round starts behind the last match, so with more fuel than there
-- are bytes behind the start, the fuel does not matter.
pub xor_scan_fuel :
    (m n key : ℕ) (d : Bytes) (pos : ℕ)
    → length d < m + pos
    → length d < n + pos
    → xor_scan m key d pos ≡ xor_scan n key d pos
unfolding xor_scan
xor_scan_fuel zero n key d pos l k = sym (xor_scan_past n key d pos (omega arith))
xor_scan_fuel (suc m) zero key d pos l k = xor_scan_past (suc m) key d pos (omega arith)
xor_scan_fuel (suc m) (suc n) key d pos l k =
    elim (Option-cases (find_from (unxor key (text "MZ")) d pos)) [
      | inl e ↦ rw (e, xor_scan) refl
      | inr (idx, e) ↦ elim (Bool-cases (ltb (length d) (idx + 64))) [
        | inl over ↦ rw (e, xor_scan) (rw over refl)
        | inr more ↦
            let behind = (find_from_sound (unxor key (text "MZ")) d pos idx e).0 in
            rw (e, xor_scan)
              (rw more (
                same_bind (xor_at key d idx) (xor_scan m key d (idx + 1))
                  (xor_scan n key d (idx + 1))
                  (xor_scan_fuel m n key d (idx + 1) (omega arith) (omega arith))))
      ]
    ]
