-- ===== src/Http/Parts.antt =====
-- Data cut by a separator, as protocols/http.py reads it: what holds where a part starts.
use mathlib.Core.List.{append_assoc}
use pcap_decode.Base.{
  ℕ, ◌+◌, ◌-◌, ◌<◌, ◌≡◌, refl, sym, ◌∙◌, ap, true, some, ◌++◌, arith, lt→ltb, length, take, drop,
  drop-drop, length-append, take-append_length, drop-append_length, length-drop,
}
use pcap_decode.Base.Int.{pos, ltb_ℤ}
use pcap_decode.Base.Bytes.{Bytes, slice}
use pcap_decode.Base.Search.{find, find_from, find-append}

-- The separator behind the part is the first one.
abbrev pub EndsAt : Bytes → Bytes → Type 0
EndsAt sep part = find sep (part ++ sep) ≡ some (length part)

pub record PartAt (sep part rest d : Bytes) (i : ℕ) : Type 0 where
  pub within : ltb_ℤ (pos i) (pos (length d)) ≡ true
  pub found : find_from sep d i ≡ some (i + length part)
  pub stands : slice d i (i + length part) ≡ part
  pub behind : drop (i + length part + length sep) d ≡ rest

pub part_at :
    (sep part rest d : Bytes) (i : ℕ)
    → 0 < length sep
    → EndsAt sep part
    → drop i d ≡ part ++ (sep ++ rest)
    → PartAt sep part rest d i
unfolding find_from
part_at sep part rest d i z h e =
    let n = length part in
    let k = length sep in
    let size : i + n - i ≡ n = omega arith in
    let whole = ap length e ∙ length-append part (sep ++ rest) in
    let first : find sep (drop i d) ≡ some n =
      ap (find sep) (e ∙ sym (append_assoc part sep rest))
      ∙ find-append sep (part ++ sep) rest n h in
    let over : i + n + k ≡ i + (n + k) = omega arith in
    record {
      within = lt→ltb _ _ (omega (arith, whole, length-append sep rest, length-drop i d));
      found = rw (first, find_from) refl;
      stands = rw size (ap (take n) e ∙ take-append_length part (sep ++ rest));
      behind =
          ap (λ j. drop j d) over
          ∙ sym (drop-drop (n + k) i d)
          ∙ ap (drop (n + k)) e
          ∙ sym (drop-drop k n (part ++ (sep ++ rest)))
          ∙ ap (drop k) (drop-append_length part (sep ++ rest))
          ∙ drop-append_length sep rest;
    }
