-- ===== src/TcpReassembly/Accept.antt =====
-- tcp_reassembly.py, `add_segment` once the SYN was seen: one segment of the stream, wherever it
-- starts, keeps the buffer a start of the stream and is itself in the buffer or waiting.
use pcap_decode.Base.{
  ℕ, ◌+◌, ◌-◌, ◌^◌, ◌≤◌, ◌<◌, ◌≡◌, refl, sym, ◌∙◌, ap, subst, inl, inr, Bool, true, false, List, [],
  ◌∷◌, ◌++◌, arith, ltb, leb, ◌==◌, if◌then◌else◌, length, take, drop, All, All-append, Bool-cases,
  ltb→lt, ==_iff,
}
use pcap_decode.Base.Bytes.{Bytes}
use pcap_decode.Models.{get_fin}
use pcap_decode.TcpReassembly.{
  advance, Pending, DirectionalReassembler, Arrival, expected, append_past, append_data,
  process_out_of_order, insert_by_seq, sort_by_seq, accept, skip, append_from, close, pending_of,
}
use pcap_decode.TcpReassembly.Stream.{
  advance-inj, seq_diff-offsets, IsSlice, Holds, PendingSlice, Waits, append_data-Holds,
  append_past-Holds, Waits-append_left, Waits-append_right,
}
use pcap_decode.TcpReassembly.Rounds.{
  Accounted, InStream, IsSettled, KeepsAll, process_out_of_order-InStream,
}

append_data-out_of_order :
    (d : Bytes) (seq : ℕ) (p : Pending) (r : DirectionalReassembler)
    → (append_data d seq p r).out_of_order ≡ r.out_of_order
unfolding append_data
append_data-out_of_order d seq p r = refl

append_past-out_of_order :
    (k : ℕ) (p : Pending) (r : DirectionalReassembler)
    → (append_past k p r).out_of_order ≡ r.out_of_order
unfolding append_past append_from append_data
append_past-out_of_order k p r = refl

All-insert_by_seq {ℓ} :
    (P : Pending → Type ℓ) (p : Pending) (ps : List Pending)
    → P p
    → All P ps
    → All P (insert_by_seq p ps)
unfolding insert_by_seq
All-insert_by_seq P p [] h a = (h, tt)
All-insert_by_seq P p (q ∷ qs) h a = elim (Bool-cases (leb p.seq q.seq)) [
  | inl le ↦ rw le (h, a)
  | inr gt ↦ rw gt (a.0, All-insert_by_seq P p qs h a.1)
]

All-sort_by_seq {ℓ} : (P : Pending → Type ℓ) (ps : List Pending) → All P ps → All P (sort_by_seq ps)
unfolding sort_by_seq
All-sort_by_seq P [] a = tt
All-sort_by_seq P (p ∷ ps) a = All-insert_by_seq P p (sort_by_seq ps) a.0 (All-sort_by_seq P ps a.1)

skip-short : (n : ℕ) → n < 2 ^ 31 → skip n ≡ n
unfolding skip
skip-short n h = ground arith

module _ (S : Bytes) (b : ℕ) where
  Waits-insert_by_seq :
      (off n : ℕ) (p : Pending) (ps : List Pending)
      → Waits S b off n (p ∷ ps)
      → Waits S b off n (insert_by_seq p ps)
  unfolding insert_by_seq
  Waits-insert_by_seq off n p [] w = w
  Waits-insert_by_seq off n p (q ∷ qs) w = elim (Bool-cases (leb p.seq q.seq)) [
    | inl le ↦ rw le w
    | inr gt ↦ rw gt (elim w [
      | inl e ↦ inr (Waits-insert_by_seq off n p qs (inl e))
      | inr (inl e) ↦ inl e
      | inr (inr w') ↦ inr (Waits-insert_by_seq off n p qs (inr w'))
    ])
  ]

  Waits-sort_by_seq :
      (off n : ℕ) (ps : List Pending) → Waits S b off n ps → Waits S b off n (sort_by_seq ps)
  unfolding sort_by_seq
  Waits-sort_by_seq off n [] w = w
  Waits-sort_by_seq off n (p ∷ ps) (inl e) = Waits-insert_by_seq off n p (sort_by_seq ps) (inl e)
  Waits-sort_by_seq off n (p ∷ ps) (inr w) =
      Waits-insert_by_seq off n p (sort_by_seq ps) (inr (Waits-sort_by_seq off n ps w))

  accept-offset :
      (off n : ℕ) (a : Arrival) (r : DirectionalReassembler)
      → expected r ≡ advance b n
      → a.seq ≡ advance b off
      → off < 2 ^ 31
      → n < 2 ^ 31
      → accept a r
        ≡ close (get_fin a.flags) (
            if off == n
            then process_out_of_order (append_data a.payload a.seq (pending_of a) r)
            else if ltb off n
            then (if ltb (n - off) (length a.payload)
                then process_out_of_order (append_past (n - off) (pending_of a) r)
                else r)
            else process_out_of_order
                (record r { out_of_order = sort_by_seq (r.out_of_order ++ (pending_of a ∷ [])) }))
  unfolding accept append_past
  accept-offset off n a r e e' ho hn =
      let short = skip-short (n - off) (omega arith) in
      rw (e, e', seq_diff-offsets b off n ho hn) (ground (arith, advance-inj b off n ho hn, short))

module _ (S : Bytes) (b : ℕ) (short : length S < 2 ^ 31) where
  -- What a segment of `n` bytes at the offset `off` does.
  abbrev pub Delivers : ℕ → ℕ → DirectionalReassembler → DirectionalReassembler → Type 0
  Delivers off n r r' =
      InStream S b short r'
      × IsSettled S b short r'
      × KeepsAll S b short r r'
      × Accounted S b short off n r' r'.out_of_order

  close-Delivers :
      (c : Bool) (off n : ℕ) (r r' : DirectionalReassembler)
      → Delivers off n r r'
      → Delivers off n r (close c r')
  close-Delivers true off n r r' ((h, p), s, k, a) =
      ((record { base = h.base; next = h.next; fits = h.fits; start = h.start }, p), s, k, a)
  close-Delivers false off n r r' d = d

  -- To change the record and then run the loop.
  process-Delivers :
      (off n : ℕ) (r r1 : DirectionalReassembler)
      → off < 2 ^ 31
      → InStream S b short r1
      → KeepsAll S b short r r1
      → Accounted S b short off n r1 r1.out_of_order
      → Delivers off n r (process_out_of_order r1)
  process-Delivers off n r r1 lt h keep acc =
      let (h', settled, keep') = process_out_of_order-InStream S b short r1 h in
      (h', settled, λ m k ml c. keep' m k ml (keep m k ml c), keep' off n lt acc)

  -- The buffer grew and the waiting segments are the same.
  grown :
      (r r1 : DirectionalReassembler)
      → length r.data_buffer ≤ length r1.data_buffer
      → r1.out_of_order ≡ r.out_of_order
      → KeepsAll S b short r r1
  grown r r1 le e off n lt (inl h) = inl (omega arith)
  grown r r1 le e off n lt (inr w) = inr (subst (Waits S b off n) (sym e) w)

  process_grown :
      (off n : ℕ) (r r1 : DirectionalReassembler)
      → off < 2 ^ 31
      → Holds S b r1
      → length r.data_buffer ≤ length r1.data_buffer
      → r1.out_of_order ≡ r.out_of_order
      → All (PendingSlice S b) r.out_of_order
      → off + n ≤ length r1.data_buffer
      → Delivers off n r (process_out_of_order r1)
  process_grown off n r r1 lt h le e waiting done =
      process-Delivers off n r r1 lt (h, subst (All (PendingSlice S b)) (sym e) waiting)
        (grown r r1 le e) (inl done)

  module _ (a : Arrival) (r : DirectionalReassembler) (off : ℕ) where
    module _ (e : a.seq ≡ advance b off) (room : off + length a.payload ≤ length S)
        (d : a.payload ≡ take (length a.payload) (drop off S)) (held : Holds S b r)
        (waiting : All (PendingSlice S b) r.out_of_order) where
      -- The segment starts where the buffer ends.
      accept_next :
          off ≡ length r.data_buffer
          → Delivers off
              (length a.payload)
              r
              (process_out_of_order (append_data a.payload a.seq (pending_of a) r))
      accept_next same =
          let (h, long) =
            append_data-Holds S b a.payload a.seq (pending_of a) r held (omega arith)
              (d ∙ ap (λ k. take (length a.payload) (drop k S)) same) in
          process_grown off (length a.payload) r _ (omega arith) h (omega arith)
            (append_data-out_of_order a.payload a.seq (pending_of a) r) waiting (omega arith)

      -- It starts inside the buffer and ends past it.
      accept_overlap :
          off ≤ length r.data_buffer
          → length r.data_buffer < off + length a.payload
          → Delivers off
              (length a.payload)
              r
              (process_out_of_order (append_past (length r.data_buffer - off) (pending_of a) r))
      accept_overlap behind past =
          let (h, long) = append_past-Holds S b off (pending_of a) r held room d behind past in
          process_grown off (length a.payload) r _ (omega arith) h (omega arith)
            (append_past-out_of_order _ (pending_of a) r) waiting (omega arith)

      -- It starts past the buffer.
      accept_ahead : Delivers off (length a.payload) r (
          process_out_of_order
            (record r { out_of_order = sort_by_seq (r.out_of_order ++ (pending_of a ∷ [])) }))
      accept_ahead =
          process-Delivers off (length a.payload) r _ (omega arith)
            (
              record { base = held.base; next = held.next; fits = held.fits; start = held.start },
              All-sort_by_seq _ _
                  (All-append _ r.out_of_order (pending_of a ∷ []) waiting ((off, e, room, d), tt)),
            )
            (λ m k lt c. elim c [
              | inl done ↦ inl done
              | inr w ↦ inr (
                  Waits-sort_by_seq S b m k _
                    (Waits-append_left S b m k r.out_of_order (pending_of a ∷ []) w))
            ])
            (inr (
              Waits-sort_by_seq S b off (length a.payload) _ (
                Waits-append_right S b off (length a.payload) r.out_of_order (pending_of a ∷ [])
                  (inl (e, refl)))))

  pub accept-Delivers :
      (a : Arrival) (r : DirectionalReassembler) (sl : IsSlice S b a.seq a.payload)
      → InStream S b short r
      → IsSettled S b short r
      → Delivers sl.0 (length a.payload) r (accept a r)
  accept-Delivers a r (off, e, room, d) (held, waiting) settled =
      let n = length r.data_buffer in
      let ho : off < 2 ^ 31 = omega arith in
      let hn : n < 2 ^ 31 = omega (arith, held.fits) in
      let len = length a.payload in
      rw (accept-offset S b off n a r (rw held.next) e ho hn) (
        close-Delivers (get_fin a.flags) off len r _ (elim (Bool-cases (off == n)) [
          | inl here ↦ rw here (accept_next a r off e room d held waiting ((==_iff off n).0 here))
          | inr away ↦ rw away (elim (Bool-cases (ltb off n)) [
            | inl behind ↦ rw behind (elim (Bool-cases (ltb (n - off) len)) [
              | inl past ↦ rw past (
                  accept_overlap a r off e room d held waiting (omega (arith, ltb→lt _ _ behind))
                    (omega (arith, ltb→lt _ _ past)))
              | inr old ↦ rw old ((held, waiting), settled, λ m k ml c. c, inl (ground arith))
            ])
            | inr before ↦ rw before (accept_ahead a r off e room d held waiting)
          ])
        ]))
