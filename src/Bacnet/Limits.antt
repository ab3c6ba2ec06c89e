-- ===== src/Bacnet/Limits.antt =====
-- protocols/bacnet.py: what writing the chunks of a file transfer does to its buffer.
use pcap_decode.Base.{
  leb, ℕ, suc, ◌+◌, ◌-◌, ◌≤◌, ◌<◌, ◌≡◌, Bool, true, false, Option, none, some, ◌&&◌, List, [], ◌∷◌,
  ◌++◌, arith, length, take, drop, length-append, length-take, length-drop, length-replicate,
  replicate, min, max,
}
use pcap_decode.Base.Int.{ℤ, pos, negsuc, leb_ℤ, ◌+ℤ◌, ◌-ℤ◌, pos_part}
use pcap_decode.Base.Bytes.{Bytes}
use pcap_decode.Base.Equality.{nat_eq, list_eq, pair_eq, option_eq}
use pcap_decode.Base.Dict.{lookup, insert, erase}
use pcap_decode.Models.{Text, Packet}
use pcap_decode.Bacnet.Tags.{ObjectId, Tag}
use pcap_decode.Bacnet.Files.{
  FileKey, FileBuffers, FileCandidate, no_transfer, read_transfer, find_buffer, file_key,
  flush_file_buffer, position_of, absorb_file_data, FileBuffer, extend_to, assign_slice,
  slice_index, write_chunk, write_chunks, fitting, end_of,
}

-- A chunk that fits keeps its bytes, and the others are cut at the cap.
length-fitting :
    (cap p : ℕ) (c : Bytes) → p ≤ cap → length (fitting cap (pos p) c) ≡ min (length c) (cap - p)
unfolding ◌-ℤ◌
length-fitting cap p c h = ground (arith, length-take (cap - p) c)

slice_index_le : (n : ℕ) (i : ℤ) → slice_index n i ≤ n
slice_index_le n i = ground arith

end_of-pos :
    (cap p : ℕ) (c : Bytes) → end_of cap (pos p) c ≡ pos (p + length (fitting cap (pos p) c))
unfolding ◌+ℤ◌
end_of-pos cap p c = ground arith

pub length-assign_slice :
    (p q : ℤ) (chunk d : Bytes)
    → length (assign_slice p q chunk d)
      ≡ slice_index (length d) p
        + length chunk
        + (length d - max (slice_index (length d) p) (slice_index (length d) q))
unfolding assign_slice
length-assign_slice p q chunk d =
    let start = slice_index (length d) p in
    let stop = max start (slice_index (length d) q) in
    omega (
      arith,
      length-append (take start d) (chunk ++ drop stop d),
      length-append chunk (drop stop d),
      length-take start d,
      length-drop stop d,
      slice_index_le (length d) p,
    )

pub length-extend_to :
    (end : ℤ) (d : Bytes) → length (extend_to end d) ≡ max (length d) (pos_part end)
unfolding extend_to
length-extend_to end d =
    let n = pos_part end - length d in
    omega (arith, length-append d (replicate n 0), length-replicate {A = ℕ} n 0)

-- A chunk at a position that is not negative: the buffer reaches to its end at least.
length-write_chunk :
    (cap p : ℕ) (c : Bytes) (b : FileBuffer)
    → p ≤ cap
    → length (write_chunk cap (pos p) c b).payload
      ≡ max (length b.payload) (p + min (length c) (cap - p))
unfolding write_chunk
length-write_chunk cap p c b h =
    let n = length (fitting cap (pos p) c) in
    rw (end_of-pos cap p c) (
      omega (
        arith,
        length-assign_slice (pos p) (pos (p + n)) (fitting cap (pos p) c)
            (extend_to (pos (p + n)) b.payload),
        length-extend_to (pos (p + n)) b.payload,
        length-fitting cap p c h,
      ))

pub no_room : (cap p : ℕ) → leb_ℤ (pos cap -ℤ pos p) (pos 0) ≡ leb cap p
unfolding ◌-ℤ◌
no_room cap p = ground arith

-- Chunks that start at a position that is not negative leave a buffer within the cap within it.
pub write_chunks_capped :
    (cap : ℕ) (cs : List Bytes) (p : ℕ) (b : FileBuffer)
    → length b.payload ≤ cap
    → length (write_chunks cap cs (pos p) b).payload ≤ cap
unfolding write_chunks
write_chunks_capped cap [] p b h = h
write_chunks_capped cap (c ∷ cs) p b h =
    let n = length (fitting cap (pos p) c) in
    rw (no_room cap p, end_of-pos cap p c)
      (ground (
        arith,
        length-write_chunk cap p c b,
        length-fitting cap p c,
        write_chunks_capped cap cs (p + n) (write_chunk cap (pos p) c b),
      ))

-- Every buffer of a table is within the cap.
abbrev pub Capped : ℕ → FileBuffers → Type 0
Capped cap [] = Unit
Capped cap ((k, b) ∷ bs) = (length b.payload ≤ cap) × Capped cap bs

insert-Capped :
    (cap : ℕ) (k : FileKey) (b : FileBuffer) (bs : FileBuffers)
    → length b.payload ≤ cap
    → Capped cap bs
    → Capped cap (insert k b bs)
unfolding insert
insert-Capped cap k b [] h c = (h, tt)
insert-Capped cap k b ((j, e) ∷ bs) h c = ground (arith, insert-Capped cap k b bs h c.1)

erase-Capped : (cap : ℕ) (k : FileKey) (bs : FileBuffers) → Capped cap bs → Capped cap (erase k bs)
unfolding erase
erase-Capped cap k [] c = tt
erase-Capped cap k ((j, e) ∷ bs) c = ground (arith, erase-Capped cap k bs c.1)

abbrev stored_length : Option FileBuffer → ℕ
stored_length none = 0
stored_length (some b) = length b.payload

lookup-Capped :
    (cap : ℕ) (k : FileKey) (bs : FileBuffers) → Capped cap bs → stored_length (lookup k bs) ≤ cap
unfolding lookup
lookup-Capped cap k [] c = omega arith
lookup-Capped cap k ((j, e) ∷ bs) c = ground (arith, lookup-Capped cap k bs c.1)

find_buffer-Capped :
    (cap : ℕ) (p : Packet) (file_oid : ObjectId) (direction : Text) (bs : FileBuffers)
    → Capped cap bs
    → length (find_buffer p file_oid direction bs).payload ≤ cap
unfolding find_buffer
find_buffer-Capped cap p file_oid direction bs c =
    ground (arith, lookup-Capped cap (file_key direction p file_oid) bs c)

-- Candidates whose data is within the cap.
abbrev pub candidates_capped : ℕ → List FileCandidate → Bool
candidates_capped cap [] = true
candidates_capped cap (c ∷ cs) = leb (length c.payload) cap && candidates_capped cap cs

flush_file_buffer-Capped :
    (cap : ℕ) (k : FileKey) (bs : FileBuffers)
    → Capped cap bs
    → (candidates_capped cap (flush_file_buffer k bs).0 ≡ true)
      × Capped cap (flush_file_buffer k bs).1
unfolding flush_file_buffer
flush_file_buffer-Capped cap k bs c =
    ground (arith, lookup-Capped cap k bs c, erase-Capped cap k bs c)

abbrev is_negative : Option ℤ → Bool
is_negative (some (negsuc n)) = true
is_negative _ = false

write_capped :
    (cap : ℕ) (cs : List Bytes) (start : Option ℤ) (b : FileBuffer)
    → is_negative start ≡ false
    → length b.payload ≤ cap
    → length
        (write_chunks cap cs (elim start [ none ↦ pos (length b.payload) | some q ↦ q ]) b).payload
      ≤ cap
write_capped cap cs none b h small = write_chunks_capped cap cs (length b.payload) b small
write_capped cap cs (some (pos n)) b h small = write_chunks_capped cap cs n b small
write_capped cap cs (some (negsuc n)) b h small = cc

-- A transfer whose start position is not negative keeps every buffer within the cap, and a file
-- that it completes is within the cap as well.
pub absorb_file_data-Capped :
    (cap : ℕ) (tags : List Tag) (p : Packet) (file_oid : ObjectId) (direction : Text)
    (bs : FileBuffers)
    → is_negative (read_transfer tags no_transfer).start_position ≡ false
    → Capped cap bs
    → (candidates_capped cap (absorb_file_data cap tags p file_oid direction bs).0 ≡ true)
      × Capped cap (absorb_file_data cap tags p file_oid direction bs).1
unfolding absorb_file_data
absorb_file_data-Capped cap tags p file_oid direction bs h c =
    let x = read_transfer tags no_transfer in
    let b = find_buffer p file_oid direction bs in
    let k = file_key direction p file_oid in
    let written = write_chunks cap x.chunks (position_of x b) b in
    let small =
      write_capped cap x.chunks x.start_position b h
        (find_buffer-Capped cap p file_oid direction bs c) in
    let c' = insert-Capped cap k written bs small c in
    ground (arith, flush_file_buffer-Capped cap k (insert k written bs) c', c', c)

fitting-negative : (cap i : ℕ) (c : Bytes) → length c ≤ cap → fitting cap (negsuc i) c ≡ c
unfolding ◌-ℤ◌
fitting-negative cap i c h = ground arith

end_of-negative :
    (cap i : ℕ) (c : Bytes)
    → i < length c
    → length c ≤ cap
    → end_of cap (negsuc i) c ≡ pos (length c - suc i)
unfolding ◌+ℤ◌
end_of-negative cap i c h k = rw (fitting-negative cap i c k) ground arith

room-negative : (cap i : ℕ) → leb_ℤ (pos cap -ℤ negsuc i) (pos 0) ≡ false
unfolding ◌-ℤ◌
room-negative cap i = ground arith

-- In a buffer within the cap, a chunk that is no longer than the data of the buffer, and that starts
-- at the negative position `-(i + 1)`, less than its own length before the end of the data, makes
-- the buffer grow by the whole length of the chunk, also where that is more than the cap.
pub write_chunk_negative :
    (cap i : ℕ) (c : Bytes) (b : FileBuffer)
    → i < length c
    → length c ≤ length b.payload
    → length b.payload ≤ cap
    → length (write_chunks cap (c ∷ []) (negsuc i) b).payload ≡ length b.payload + length c
unfolding write_chunks write_chunk
write_chunk_negative cap i c b h k m =
    let end = length c - suc i in
    let small : length c ≤ cap = omega arith in
    rw (room-negative cap i, end_of-negative cap i c h small, fitting-negative cap i c small)
      (omega (
        arith,
        length-assign_slice (negsuc i) (pos end) c (extend_to (pos end) b.payload),
        length-extend_to (pos end) b.payload,
      ))
