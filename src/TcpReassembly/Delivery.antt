-- ===== src/TcpReassembly/Delivery.antt =====
-- tcp_reassembly.py, `DirectionalReassembler` as a whole: the segments of one stream after its SYN,
-- in any order, repeated and overlapping.
use pcap_decode.Base.{
  ℕ, ◌+◌, ◌^◌, ◌≤◌, ◌<◌, ◌≡◌, refl, sym, ◌∙◌, ap, subst, ◌⊎◌, inl, inr, Bool, true, false, some,
  List, [], ◌∷◌, arith, length, take, take-length, All, List-cases,
}
use native.Mathlib.Nat.{le_antisymm}
use native.Mathlib.Decide.{dec_le}
use pcap_decode.Base.Int.{sub_ℕ}
use pcap_decode.Base.Bytes.{Bytes}
use pcap_decode.Models.{get_fin, get_syn, get_rst}
use pcap_decode.TcpReassembly.{
  seq_diff, advance, Pending, DirectionalReassembler, new_reassembler, Arrival, accept, close,
  note_flags, add_segment, add_segment_fuel, get_data,
}
use pcap_decode.TcpReassembly.Stream.{
  advance-inj, seq_diff-offsets, IsSlice, PendingSlice, Ahead, Waits,
}
use pcap_decode.TcpReassembly.Rounds.{Accounted, InStream, IsSettled, KeepsAll}
use pcap_decode.TcpReassembly.Accept.{accept-Delivers}

note_flags_data :
    (a : Arrival) (r : DirectionalReassembler)
    → get_syn a.flags ≡ false
    → note_flags a r ≡ close (get_rst a.flags) r
unfolding note_flags
note_flags_data a r e = ground arith

-- A segment of the stream that carries data is not before its first byte.
add_segment_data :
    (a : Arrival) (r : DirectionalReassembler) (b off x : ℕ) (xs : Bytes)
    → get_syn a.flags ≡ false
    → a.payload ≡ x ∷ xs
    → r.base_seq ≡ some b
    → b < 2 ^ 32
    → a.seq ≡ advance b off
    → off < 2 ^ 31
    → add_segment a r ≡ accept a (close (get_rst a.flags) r)
unfolding add_segment add_segment_fuel
add_segment_data a r b off x xs plain full base hb e ho =
    let far : seq_diff a.seq b ≡ sub_ℕ off 0 =
      rw e
        (ap (seq_diff (advance b off)) (omega arith) ∙ seq_diff-offsets b off 0 ho (omega arith)) in
    ground (arith, note_flags_data a r plain)

add_segment_empty :
    (a : Arrival) (r : DirectionalReassembler)
    → get_syn a.flags ≡ false
    → a.payload ≡ []
    → add_segment a r ≡ close (get_fin a.flags) (close (get_rst a.flags) r)
unfolding add_segment add_segment_fuel
add_segment_empty a r plain empty = ground (arith, note_flags_data a r plain)

-- `add_segment` for one arrival after the other.
unfoldable pub receive : List Arrival → DirectionalReassembler → DirectionalReassembler
receive [] r = r
receive (a ∷ later) r = receive later (add_segment a r)

module _ (S : Bytes) (b : ℕ) where
  -- A segment of the stream without a SYN.
  abbrev pub IsSegment : Arrival → Type 0
  IsSegment a = IsSlice S b a.seq a.payload × (get_syn a.flags ≡ false)

  -- The byte `q` of the stream is in some segment that arrived.
  abbrev pub Covered : ℕ → List Arrival → Type 0
  Covered q [] = ⊥
  Covered q (a ∷ later) =
      ((off : ℕ) × (off < 2 ^ 31)
        × (a.seq ≡ advance b off)
        × (off ≤ q)
        × (q < off + length a.payload))
      ⊎ Covered q later

  Waits-Ahead :
      (off n k : ℕ) (ps : List Pending)
      → off < 2 ^ 31
      → Waits S b off n ps
      → All (Ahead S b k) ps
      → k < off
  Waits-Ahead off n k [] lt w a = absurd w
  Waits-Ahead off n k (p ∷ ps) lt (inl m) a =
      let same : off ≡ a.0.0 = advance-inj b off a.0.0 lt a.0.3 (sym m.0 ∙ a.0.1) in omega arith
  Waits-Ahead off n k (p ∷ ps) lt (inr w) a = Waits-Ahead off n k ps lt w a.1

module _ (S : Bytes) (b : ℕ) (short : length S < 2 ^ 31) (word : b < 2 ^ 32) where
  abbrev Good : DirectionalReassembler → Type 0
  Good r = InStream S b short r × IsSettled S b short r

  close-Good : (c : Bool) (r : DirectionalReassembler) → Good r → Good (close c r)
  close-Good true r ((h, p), s) =
      ((record { base = h.base; next = h.next; fits = h.fits; start = h.start }, p), s)
  close-Good false r g = g

  close-KeepsAll :
      (c : Bool) (r r' : DirectionalReassembler)
      → KeepsAll S b short (close c r) r'
      → KeepsAll S b short r r'
  close-KeepsAll true r r' k = k
  close-KeepsAll false r r' k = k

  -- The data of `a` is in the buffer or waits.
  abbrev IsKept : DirectionalReassembler → Arrival → Type 0
  IsKept r a =
      (off : ℕ)
      → off < 2 ^ 31
      → a.seq ≡ advance b off
      → 0 < length a.payload
      → Accounted S b short off (length a.payload) r r.out_of_order

  add_segment-Good :
      (a : Arrival) (r : DirectionalReassembler)
      → IsSegment S b a
      → Good r
      → Good (add_segment a r) × KeepsAll S b short r (add_segment a r) × IsKept (add_segment a r) a
  add_segment-Good a r (sl, plain) good =
      let r1 = close (get_rst a.flags) r in
      let good1 = close-Good (get_rst a.flags) r good in
      elim (List-cases a.payload) [
        | inl empty ↦
            let r2 = close (get_fin a.flags) r1 in
            rw (add_segment_empty a r plain empty) (
              close-Good (get_fin a.flags) r1 good1,
              close-KeepsAll (get_rst a.flags) r r2
                  (close-KeepsAll (get_fin a.flags) r1 r2 (λ off n lt c. c)),
              λ off lt e some_data. absurd (omega (arith, ap length empty)),
            )
        | inr (x, xs, full) ↦
            let r2 = accept a r1 in
            let held = good.0.0 in
            let off = sl.0 in
            let lt : off < 2 ^ 31 = omega arith in
            let (g, s, k, acc) = accept-Delivers S b short a r1 sl good1.0 good1.1 in
            rw (add_segment_data a r b off x xs plain full held.base word sl.1 lt) (
              (g, s),
              close-KeepsAll (get_rst a.flags) r r2 k,
              λ off' lt' e _.
                  subst (λ m. Accounted S b short m (length a.payload) r2 r2.out_of_order)
                    (advance-inj b off off' lt lt' (sym sl.1 ∙ e)) acc,
            )
      ]

  receive-Good :
      (later : List Arrival) (r : DirectionalReassembler)
      → All (IsSegment S b) later
      → Good r
      → Good (receive later r)
        × KeepsAll S b short r (receive later r)
        × All (IsKept (receive later r)) later
  unfolding receive
  receive-Good [] r a g = (g, λ off n lt c. c, tt)
  receive-Good (a ∷ later) r (seg, segs) g =
      let (g1, k1, kept) = add_segment-Good a r seg g in
      let (g2, k2, rest) = receive-Good later (add_segment a r) segs g1 in
      (
        g2,
        λ off n lt c. k2 off n lt (k1 off n lt c),
        ((λ off lt e full. k2 off (length a.payload) lt (kept off lt e full)), rest),
      )

  -- A covered byte that is next to the buffer would have been appended.
  uncovered_end :
      (later : List Arrival) (r : DirectionalReassembler)
      → Good r
      → All (IsKept r) later
      → Covered S b (length r.data_buffer) later
      → ⊥
  uncovered_end [] r g k c = c
  uncovered_end (a ∷ later) r g k (inl (off, lt, e, lo, hi)) = elim (k.0 off lt e (omega arith)) [
    | inl done ↦ absurd (omega arith)
    | inr w ↦
        let far =
          Waits-Ahead S b off (length a.payload) (length r.data_buffer) r.out_of_order lt w g.1 in
        absurd (omega arith)
  ]
  uncovered_end (a ∷ later) r g k (inr c) = uncovered_end later r g k.1 c

  Covered-start :
      (p : ℕ) (later : List Arrival) (r : DirectionalReassembler)
      → Good r
      → All (IsKept r) later
      → ((q : ℕ) → q < p → Covered S b q later)
      → p ≤ length r.data_buffer
  Covered-start p later r g k c = elim (dec_le p (length r.data_buffer)) [
    | yes h ↦ h
    | no h ↦ absurd (uncovered_end later r g k (c (length r.data_buffer) (omega arith)))
  ]

-- The reassembler after the SYN segment `s`.
abbrev syn_state : ℕ → DirectionalReassembler
syn_state b = record {
  base_seq = some b;
  next_expected_seq = some b;
  data_buffer = [];
  segments = [];
  out_of_order = [];
  is_closed = false;
}

add_segment_syn :
    (s : Arrival)
    → get_syn s.flags ≡ true
    → s.payload ≡ []
    → add_segment s new_reassembler ≡ close (get_rst s.flags) (syn_state (advance s.seq 1))
unfolding add_segment add_segment_fuel note_flags
add_segment_syn s syn empty = ground arith

get_data_settled : (r : DirectionalReassembler) → r.out_of_order ≡ [] → get_data r ≡ r.data_buffer
unfolding get_data
get_data_settled r e = ground arith

module _ (S : Bytes) (s : Arrival) (short : length S < 2 ^ 31)
    (word : advance s.seq 1 < 2 ^ 32) where
  after_syn-Good :
      get_syn s.flags ≡ true
      → s.payload ≡ []
      → Good S (advance s.seq 1) short word (add_segment s new_reassembler)
  after_syn-Good syn empty = rw (add_segment_syn s syn empty) (
      close-Good S (advance s.seq 1) short word (get_rst s.flags) (syn_state (advance s.seq 1)) (
        (
          record { base = refl; next = ap some (omega arith); fits = omega arith; start = refl },
          tt,
        ),
        tt,
      ))

  none_waiting :
      (b n : ℕ) (ps : List Pending)
      → length S ≤ n
      → All (PendingSlice S b) ps
      → All (Ahead S b n) ps
      → ps ≡ []
  none_waiting b n [] le sl a = refl
  none_waiting b n (p ∷ ps) le sl a =
      let same : sl.0.0 ≡ a.0.0 =
        advance-inj b sl.0.0 a.0.0 (omega arith) a.0.3 (sym sl.0.1 ∙ a.0.1) in
      absurd (omega arith)

-- `s` is a SYN without data, and the segments after it carry bytes of the stream `S`, which is
-- shorter than 2^31, in any order, repeated and overlapping. Then the buffer is a start of `S`, and it reaches as far as the bytes
-- that arrived reach without a gap.
pub receive_prefix :
    (S : Bytes) (s : Arrival) (later : List Arrival)
    → length S < 2 ^ 31
    → get_syn s.flags ≡ true
    → s.payload ≡ []
    → All (IsSegment S (advance s.seq 1)) later
    → let r = receive later (add_segment s new_reassembler) in
      (r.data_buffer ≡ take (length r.data_buffer) S)
      × ((p : ℕ)
          → ((q : ℕ) → q < p → Covered S (advance s.seq 1) q later)
          → p ≤ length r.data_buffer)
receive_prefix S s later short syn empty segs =
    let b = advance s.seq 1 in
    let word : b < 2 ^ 32 = omega arith in
    let (g, k, kept) =
      receive-Good S b short word later (add_segment s new_reassembler) segs
        (after_syn-Good S s short word syn empty) in
    let held = g.0.0 in (held.start, λ p c. Covered-start S b short word p later _ g kept c)

-- `s` is a SYN without data, and the segments after it carry bytes of the stream `S`, which is
-- shorter than 2^31, in any order, repeated and overlapping, and every byte of `S` in one of them at
-- least. Then the data of the direction is `S`, and nothing waits.
pub receive_complete :
    (S : Bytes) (s : Arrival) (later : List Arrival)
    → length S < 2 ^ 31
    → get_syn s.flags ≡ true
    → s.payload ≡ []
    → All (IsSegment S (advance s.seq 1)) later
    → ((q : ℕ) → q < length S → Covered S (advance s.seq 1) q later)
    → let r = receive later (add_segment s new_reassembler) in
      (get_data r ≡ S) × (r.out_of_order ≡ [])
receive_complete S s later short syn empty segs all =
    let b = advance s.seq 1 in
    let word : b < 2 ^ 32 = omega arith in
    let r = receive later (add_segment s new_reassembler) in
    let (g, k, kept) =
      receive-Good S b short word later (add_segment s new_reassembler) segs
        (after_syn-Good S s short word syn empty) in
    let held = g.0.0 in
    let reach = Covered-start S b short word (length S) later r g kept all in
    let settled =
      none_waiting S s short word b (length r.data_buffer) r.out_of_order reach g.0.1 g.1 in
    (
      get_data_settled r settled
          ∙ held.start
          ∙ ap (λ n. take n S) (le_antisymm held.fits reach)
          ∙ take-length (length S) S (omega arith),
      settled,
    )
