-- ===== src/TcpReassembly/Stream.antt =====
-- tcp_reassembly.py: the segments of one stream, and what one round over the waiting segments does.
-- `S` is the stream that the sender wrote, `b` the sequence number of its first byte.
use pcap_decode.Base.{
  ℕ, ◌+◌, ◌-◌, ◌^◌, ◌≤◌, ◌<◌, ◌≡◌, sym, ◌∙◌, ap, ◌⊎◌, inl, inr, true, some, List, [], ◌∷◌, ◌++◌,
  arith, ltb, leb, if◌then◌else◌, length, take, drop, append-take, drop-slice, length-append,
  length-drop,
}
use pcap_decode.Base.Int.{sub_ℕ}
use pcap_decode.Base.Bytes.{Bytes}
use pcap_decode.TcpReassembly.{
  seq_diff, advance, Pending, DirectionalReassembler, expected, append_data, append_past,
  append_from, Pass, process_pending,
}

-- The signed distance of two positions of a stream shorter than 2^31.
pub seq_diff-offsets :
    (b m n : ℕ) → m < 2 ^ 31 → n < 2 ^ 31 → seq_diff (advance b m) (advance b n) ≡ sub_ℕ m n
unfolding seq_diff
seq_diff-offsets b m n hm hn = ground arith

pub advance-inj : (b m n : ℕ) → m < 2 ^ 31 → n < 2 ^ 31 → advance b m ≡ advance b n → m ≡ n
advance-inj b m n hm hn e = omega arith

module _ (S : Bytes) (b : ℕ) where
  -- The bytes `d` with sequence number `seq` are those of the stream at some offset.
  abbrev pub IsSlice : ℕ → Bytes → Type 0
  IsSlice seq d =
      (off : ℕ) × (seq ≡ advance b off)
      × (off + length d ≤ length S)
      × (d ≡ take (length d) (drop off S))

  -- The buffer is the start of the stream, and the next expected byte is the one after it.
  pub record Holds (r : DirectionalReassembler) : Type 0 where
    pub base : r.base_seq ≡ some b
    pub next : r.next_expected_seq ≡ some (advance b (length r.data_buffer))
    pub fits : length r.data_buffer ≤ length S
    pub start : r.data_buffer ≡ take (length r.data_buffer) S

  abbrev pub PendingSlice : Pending → Type 0
  PendingSlice p = IsSlice p.seq p.payload

  -- The segment starts past the first `n` bytes.
  abbrev pub Ahead : ℕ → Pending → Type 0
  Ahead n p = (off : ℕ) × (p.seq ≡ advance b off) × (n < off) × (off < 2 ^ 31)

  -- A segment of `n` bytes at the offset `off` is among the waiting ones.
  abbrev pub Waits : ℕ → ℕ → List Pending → Type 0
  Waits off n [] = ⊥
  Waits off n (p ∷ ps) = ((p.seq ≡ advance b off) × (length p.payload ≡ n)) ⊎ Waits off n ps

  pub Waits-append_left :
      (off n : ℕ) (ps qs : List Pending) → Waits off n ps → Waits off n (ps ++ qs)
  Waits-append_left off n [] qs w = absurd w
  Waits-append_left off n (p ∷ ps) qs (inl e) = inl e
  Waits-append_left off n (p ∷ ps) qs (inr w) = inr (Waits-append_left off n ps qs w)

  pub Waits-append_right :
      (off n : ℕ) (ps qs : List Pending) → Waits off n qs → Waits off n (ps ++ qs)
  Waits-append_right off n [] qs w = w
  Waits-append_right off n (p ∷ ps) qs w = inr (Waits-append_right off n ps qs w)

  pub append_data-Holds :
      (d : Bytes) (seq : ℕ) (p : Pending) (r : DirectionalReassembler)
      → Holds r
      → length r.data_buffer + length d ≤ length S
      → d ≡ take (length d) (drop (length r.data_buffer) S)
      → Holds (append_data d seq p r)
        × (length (append_data d seq p r).data_buffer ≡ length r.data_buffer + length d)
  unfolding append_data
  append_data-Holds d seq p r h room e =
      let long = length-append r.data_buffer d in
      (
        record {
          base = h.base;
          next = rw (h.next, long) (ground arith);
          fits = omega arith;
          start =
              append-take r.data_buffer d S (length r.data_buffer) (length d) h.start e
              ∙ ap (λ k. take k S) (sym long);
        },
        long,
      )

  -- What of a slice lies past the buffer continues the buffer.
  pub append_past-Holds :
      (off : ℕ) (p : Pending) (r : DirectionalReassembler)
      → Holds r
      → off + length p.payload ≤ length S
      → p.payload ≡ take (length p.payload) (drop off S)
      → off ≤ length r.data_buffer
      → length r.data_buffer < off + length p.payload
      → let r' = append_past (length r.data_buffer - off) p r in
        Holds r' × (length r'.data_buffer ≡ off + length p.payload)
  unfolding append_past append_from
  append_past-Holds off p r h room e behind past =
      let k = length r.data_buffer - off in
      let rest = length-drop k p.payload in
      let (held, long) =
        append_data-Holds (drop k p.payload) (advance p.seq k) p r h (omega arith) (
          drop-slice p.payload S off (length r.data_buffer) e behind
          ∙ ap (λ m. take m (drop (length r.data_buffer) S)) (sym rest)) in
      (held, omega arith)

  -- A step of the `for` loop, by the offset of its segment.
  pub process_pending-offset :
      (off n : ℕ) (p : Pending) (s : Pass)
      → expected s.state ≡ advance b n
      → p.seq ≡ advance b off
      → off < 2 ^ 31
      → n < 2 ^ 31
      → process_pending p s ≡ (
          if leb off n
          then if ltb (n - off) (length p.payload)
            then record s { state = append_past (n - off) p s.state; progress = true }
            else s
          else record s { remaining = s.remaining ++ (p ∷ []) })
  unfolding process_pending
  process_pending-offset off n p s e e' ho hn =
      rw (e, e', seq_diff-offsets b off n ho hn) (ground arith)
