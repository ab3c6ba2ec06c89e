-- ===== src/Bacnet/Total.antt =====
-- protocols/bacnet.py: reading tags neither raises nor stands still, and it stays in the data.
use pcap_decode.Base.{
  ℕ, zero, suc, ◌+◌, ◌/◌, ◌%◌, ◌-◌, ◌&&◌, ◌≤◌, ◌<◌, ◌≡◌, ◌⊎◌, refl, inl, inr, Bool, true, false,
  Option, none, some, List, [], ◌∷◌, arith, length, Bool-cases, leb, ltb,
}
use pcap_decode.Base.Bytes.{
  Bytes, Result, ok, raise, at-ok, unpack-slice, byte, length-slice, ◌>>=◌, bit,
}
use pcap_decode.Bacnet.Tags.{
  Tag, long_length, read_length, read_value, read_number, read_tag, iter_tags, take_value,
}

-- A tag read at `offset`: more is behind it, within the data, and the value fits in between.
abbrev pub tag_fits : Bytes → ℕ → Tag → Bool
tag_fits d offset t =
    ltb offset t.next_offset
    && (leb t.next_offset (length d) && ltb (offset + length t.value) t.next_offset)

-- No exception, and the tag that is found fits.
abbrev pub found_fits : Bytes → ℕ → Result (Option Tag) → Bool
found_fits d offset (ok none) = true
found_fits d offset (ok (some t)) = tag_fits d offset t
found_fits d offset (raise e) = false

-- No exception, and the value starts behind `offset`.
abbrev length_found : ℕ → Result (Option (ℕ × ℕ)) → Bool
length_found offset (ok none) = true
length_found offset (ok (some (len, start))) = leb offset start
length_found offset (raise e) = false

long_length-found :
    (d : Bytes) (len offset : ℕ) → length_found offset (long_length d len offset) ≡ true
unfolding long_length
long_length-found d len offset =
    ground (
      arith,
      unpack-slice 2 d (offset + 1) (offset + 3),
      unpack-slice 4 d (offset + 1) (offset + 5),
    )

read_length-found :
    (d : Bytes) (lvt offset : ℕ) → length_found offset (read_length d lvt offset) ≡ true
unfolding read_length
read_length-found d lvt offset =
    ground (arith, at-ok d offset, long_length-found d (byte d offset) offset)

take_value-fits :
    (d : Bytes) (n : ℕ) (ctx : Bool) (lvt start offset : ℕ) (m : Result (Option (ℕ × ℕ)))
    → start < offset
    → length_found offset m ≡ true
    → found_fits d start (m >>= take_value d n ctx lvt) ≡ true
unfolding take_value
take_value-fits d n ctx lvt start offset (ok none) h f = refl
take_value-fits d n ctx lvt start offset (ok (some (len, from))) h f =
    ground (arith, length-slice d from (from + len))
take_value-fits d n ctx lvt start offset (raise e) h f = cc

read_value-fits :
    (d : Bytes) (n : ℕ) (ctx : Bool) (lvt start offset : ℕ)
    → start < offset
    → offset ≤ length d
    → found_fits d start (read_value d n ctx lvt offset) ≡ true
unfolding read_value
read_value-fits d n ctx lvt start offset h b = ground (
  arith,
  take_value-fits d n ctx lvt start offset (read_length d lvt offset) h
      (read_length-found d lvt offset),
)

read_number-fits :
    (d : Bytes) (control offset : ℕ)
    → offset < length d
    → found_fits d offset (read_number d control (offset + 1)) ≡ true
unfolding read_number
read_number-fits d control offset h =
    let ctx = bit control 3 in
    let lvt = control % 8 in
    ground (
      arith,
      at-ok d (offset + 1),
      read_value-fits d (byte d (offset + 1)) ctx lvt offset (offset + 2),
      read_value-fits d (control / 16) ctx lvt offset (offset + 1),
    )

-- `read_tag` raises no exception, and a tag that it finds ends behind its start and within the data.
pub read_tag-fits : (d : Bytes) (offset : ℕ) → found_fits d offset (read_tag d offset) ≡ true
unfolding read_tag
read_tag-fits d offset = ground (arith, at-ok d offset, read_number-fits d (byte d offset) offset)

-- The cases of a result that fits.
ok_of_found :
    (d : Bytes) (offset : ℕ) (m : Result (Option Tag))
    → found_fits d offset m ≡ true
    → (m ≡ ok none) ⊎ ((t : Tag) × (m ≡ ok (some t)) × (tag_fits d offset t ≡ true))
ok_of_found d offset (ok none) h = inl refl
ok_of_found d offset (ok (some t)) h = inr (t, refl, h)
ok_of_found d offset (raise e) h = cc

-- The bytes that tags take at least: a control byte and the value of each.
unfoldable pub tags_size : List Tag → ℕ
tags_size [] = 0
tags_size (t ∷ ts) = 1 + length t.value + tags_size ts

-- No exception, at most `limit` tags, and no more bytes than there are behind `offset`.
abbrev pub tags_fit : Bytes → ℕ → ℕ → Result (List Tag) → Bool
tags_fit d offset limit (ok ts) = leb (length ts) limit && leb (tags_size ts) (length d - offset)
tags_fit d offset limit (raise e) = false

cons-tags_fit :
    (d : Bytes) (offset limit : ℕ) (t : Tag) (m : Result (List Tag))
    → tag_fits d offset t ≡ true
    → tags_fit d t.next_offset limit m ≡ true
    → tags_fit d offset (suc limit) (m >>= λ ts. ok (t ∷ ts)) ≡ true
unfolding tags_size
cons-tags_fit d offset limit t (ok ts) h f = ground arith
cons-tags_fit d offset limit t (raise e) h f = cc

-- `iter_tags` raises no exception; it yields at most `limit` tags, and their control bytes and
-- values are together no longer than the data behind `offset`.
pub iter_tags-fits :
    (d : Bytes) (offset limit : ℕ) → tags_fit d offset limit (iter_tags d offset limit) ≡ true
unfolding iter_tags tags_size
iter_tags-fits d offset zero = ground arith
iter_tags-fits d offset (suc limit) = elim (Bool-cases (leb (length d) offset)) [
  | inl over ↦ rw (over, iter_tags) ground arith
  | inr more ↦ elim (ok_of_found d offset (read_tag d offset) (read_tag-fits d offset)) [
    | inl e ↦ rw (more, e, iter_tags) ground arith
    | inr (t, e, fits) ↦
        let rest = iter_tags d t.next_offset limit in
        ground
          (arith, cons-tags_fit d offset limit t rest fits (iter_tags-fits d t.next_offset limit))
  ]
]
