-- ===== src/TcpReassembly/Rounds.antt =====
-- tcp_reassembly.py, `_process_out_of_order`: each step of its `for` loop and each round keep the
-- buffer a start of the stream and lose no segment, and the `while` loop ends with every waiting
-- segment past the buffer.
use mathlib.Core.List.{append_assoc, append-nil}
use pcap_decode.Base.{
  ℕ, zero, suc, ◌+◌, ◌-◌, ◌^◌, ◌≤◌, ◌<◌, ◌≡◌, refl, sym, ◌∙◌, ◌⊎◌, inl, inr, true, false, List, [],
  ◌∷◌, ◌++◌, arith, ltb, leb, if◌then◌else◌, length, All, All-append, Bool-cases, List-cases, subst,
  length-append, leb→le, ltb→lt,
}
use pcap_decode.Base.Bytes.{Bytes}
use pcap_decode.TcpReassembly.{
  advance, Pending, DirectionalReassembler, append_past, Pass, process_pending, process_all, round,
  rounds, process_out_of_order,
}
use pcap_decode.TcpReassembly.Stream.{
  advance-inj, Holds, PendingSlice, Ahead, Waits, append_past-Holds, process_pending-offset,
}

-- A bound on the segments that are kept, with one off for progress.
abbrev measure : Pass → ℕ
measure s = length s.remaining + (if s.progress then 1 else 0)

nil_of_length : (ps : List Pending) → length ps ≤ 0 → ps ≡ []
nil_of_length [] h = refl
nil_of_length (p ∷ ps) h = absurd (omega arith)

rounds_stop :
    (fuel : ℕ) (r : DirectionalReassembler) → r.out_of_order ≡ [] → rounds (suc fuel) r ≡ r
unfolding rounds
rounds_stop fuel r e = ground arith

rounds_more :
    (fuel : ℕ) (r : DirectionalReassembler) (p : Pending) (ps : List Pending)
    → r.out_of_order ≡ p ∷ ps
    → rounds (suc fuel) r
      ≡ (if (round r).progress then rounds fuel (round r).state else (round r).state)
unfolding rounds
rounds_more fuel r p ps e = ground arith

module _ (S : Bytes) (b : ℕ) (short : length S < 2 ^ 31) where
  record PassHolds (s : Pass) : Type 0 where
    held : Holds S b s.state
    slices : All (PendingSlice S b) s.remaining
    ahead : s.progress ≡ false → All (Ahead S b (length s.state.data_buffer)) s.remaining

  -- The `n` bytes at `off` are in the buffer, or wait.
  abbrev pub Accounted : ℕ → ℕ → DirectionalReassembler → List Pending → Type 0
  Accounted off n r ps = (off + n ≤ length r.data_buffer) ⊎ Waits S b off n ps

  Waits-middle :
      (off n : ℕ) (qs : List Pending) (p : Pending) (ps : List Pending)
      → Waits S b off n (qs ++ (p ∷ ps))
      → ((p.seq ≡ advance b off) × (length p.payload ≡ n)) ⊎ Waits S b off n (qs ++ ps)
  Waits-middle off n [] p ps w = w
  Waits-middle off n (q ∷ qs) p ps (inl e) = inr (inl e)
  Waits-middle off n (q ∷ qs) p ps (inr w) = elim (Waits-middle off n qs p ps w) [
    | inl e ↦ inl e
    | inr w' ↦ inr (inr w')
  ]

  -- What a step does with the segment `p`.
  abbrev StepOk : Pending → Pass → Pass → Type 0
  StepOk p s s' =
      PassHolds s'
      × (measure s' ≤ measure s + 1)
      × ((off n : ℕ) (ps : List Pending)
          → off < 2 ^ 31
          → Accounted off n s.state (s.remaining ++ (p ∷ ps))
          → Accounted off n s'.state (s'.remaining ++ ps))

  -- A segment that is not kept has all its bytes in the buffer.
  Accounted-drop :
      (at k : ℕ) (p : Pending) (qs ps : List Pending) (r r' : DirectionalReassembler)
      → p.seq ≡ advance b at
      → at < 2 ^ 31
      → length r.data_buffer ≤ length r'.data_buffer
      → at + length p.payload ≤ length r'.data_buffer
      → (off : ℕ) → off < 2 ^ 31
      → Accounted off k r (qs ++ (p ∷ ps))
      → Accounted off k r' (qs ++ ps)
  Accounted-drop at k p qs ps r r' e ha grows done off ho (inl h) = inl (omega arith)
  Accounted-drop at k p qs ps r r' e ha grows done off ho (inr w) =
      elim (Waits-middle off k qs p ps w) [
        | inl m ↦
            let same : off ≡ at = advance-inj b off at ho ha (sym m.0 ∙ e) in inl (omega arith)
        | inr w' ↦ inr w'
      ]

  process_pending-StepOk :
      (p : Pending) (s : Pass) → PendingSlice S b p → PassHolds s → StepOk p s (process_pending p s)
  process_pending-StepOk p s (off, e, room, d) h =
      let n = length s.state.data_buffer in
      let ho : off < 2 ^ 31 = omega arith in
      let held = h.held in
      let hn : n < 2 ^ 31 = omega (arith, held.fits) in
      rw (process_pending-offset S b off n p s (rw held.next) e ho hn)
        (elim (Bool-cases (leb off n)) [
          | inl behind ↦ rw behind (elim (Bool-cases (ltb (n - off) (length p.payload))) [
            | inl past ↦ rw past (
                let (held', long) =
                  append_past-Holds S b off p s.state held room d (leb→le _ _ behind)
                    (omega (arith, ltb→lt _ _ past, leb→le _ _ behind)) in
                (
                  record { held = held'; slices = h.slices; ahead = λ q. cc },
                  omega arith,
                  λ off' k ps lt acc.
                      Accounted-drop off k p s.remaining ps s.state
                        (append_past (n - off) p s.state) e ho
                        (omega (arith, ltb→lt _ _ past, leb→le _ _ behind)) (omega arith) off' lt
                        acc,
                ))
            | inr old ↦ rw old (
              h,
              omega arith,
              λ off' k ps lt acc.
                  Accounted-drop off k p s.remaining ps s.state s.state e ho (omega arith)
                    (ground arith) off' lt acc,
            )
          ])
          | inr before ↦ rw before (
            record {
              held = held;
              slices = All-append _ s.remaining (p ∷ []) h.slices ((off, e, room, d), tt);
              ahead = λ q.
                  All-append _ s.remaining (p ∷ []) (h.ahead q) ((off, e, ground arith, ho), tt);
            },
            omega (arith, length-append s.remaining (p ∷ [])),
            λ off' k ps lt acc. rw append_assoc acc,
          )
        ])

  -- What a whole `for` loop does with the segments `ps`.
  process_all-PassHolds :
      (ps : List Pending) (s : Pass)
      → All (PendingSlice S b) ps
      → PassHolds s
      → PassHolds (process_all ps s)
        × (measure (process_all ps s) ≤ measure s + length ps)
        × ((off n : ℕ)
            → off < 2 ^ 31
            → Accounted off n s.state (s.remaining ++ ps)
            → Accounted off n (process_all ps s).state (process_all ps s).remaining)
  unfolding process_all
  process_all-PassHolds [] s a h = (h, omega arith, λ off n lt acc. rw append-nil at acc)
  process_all-PassHolds (p ∷ ps) s a h =
      let (h1, m1, keep1) = process_pending-StepOk p s a.0 h in
      let (h2, m2, keep2) = process_all-PassHolds ps (process_pending p s) a.1 h1 in
      (h2, omega arith, λ off n lt acc. keep2 off n lt (keep1 off n ps lt acc))

  -- The buffer is a start of the stream, and only segments of the stream wait.
  abbrev pub InStream : DirectionalReassembler → Type 0
  InStream r = Holds S b r × All (PendingSlice S b) r.out_of_order

  -- No waiting segment starts inside the buffer or directly after it.
  abbrev pub IsSettled : DirectionalReassembler → Type 0
  IsSettled r = All (Ahead S b (length r.data_buffer)) r.out_of_order

  abbrev pub KeepsAll : DirectionalReassembler → DirectionalReassembler → Type 0
  KeepsAll r r' =
      (off n : ℕ)
      → off < 2 ^ 31
      → Accounted off n r r.out_of_order
      → Accounted off n r' r'.out_of_order

  set_pending-Holds :
      (r : DirectionalReassembler) (ps : List Pending)
      → Holds S b r
      → Holds S b (record r { out_of_order = ps })
  set_pending-Holds r ps h = record { base = h.base; next = h.next; fits = h.fits; start = h.start }

  round-InStream :
      (r : DirectionalReassembler)
      → InStream r
      → let s = round r in
        InStream s.state
        × (s.progress ≡ true → length s.state.out_of_order < length r.out_of_order)
        × (s.progress ≡ false → IsSettled s.state)
        × KeepsAll r s.state
  unfolding round
  round-InStream r (h, a) =
      let (h', m, keep) =
        process_all-PassHolds r.out_of_order
          (record { state = r; remaining = []; progress = false }) a
          (record { held = h; slices = tt; ahead = λ q. tt }) in
      ((set_pending-Holds _ _ h'.held, h'.slices), λ q. ground (arith, m), h'.ahead, keep)

  IsSettled-nil : (r : DirectionalReassembler) → r.out_of_order ≡ [] → IsSettled r
  IsSettled-nil r e = subst (All (Ahead S b (length r.data_buffer))) (sym e) tt

  -- With as much fuel as segments wait, the loop ends settled.
  rounds-InStream :
      (fuel : ℕ) (r : DirectionalReassembler)
      → length r.out_of_order ≤ fuel
      → InStream r
      → InStream (rounds fuel r) × IsSettled (rounds fuel r) × KeepsAll r (rounds fuel r)
  unfolding rounds
  rounds-InStream zero r le h =
      (h, IsSettled-nil r (nil_of_length r.out_of_order le), λ off n lt acc. acc)
  rounds-InStream (suc fuel) r le h = elim (List-cases r.out_of_order) [
    | inl e ↦ rw (rounds_stop fuel r e) (h, IsSettled-nil r e, λ off n lt acc. acc)
    | inr (p, ps, e) ↦
        let (h1, shrinks, stops, keep1) = round-InStream r h in
        rw (rounds_more fuel r p ps e) (elim (Bool-cases (round r).progress) [
          | inl on ↦
              let (h2, settled, keep2) =
                rounds-InStream fuel (round r).state (omega (arith, shrinks on)) h1 in
              rw on (h2, settled, λ off n lt acc. keep2 off n lt (keep1 off n lt acc))
          | inr off ↦ rw off (h1, stops off, keep1)
        ])
  ]

  pub process_out_of_order-InStream :
      (r : DirectionalReassembler)
      → InStream r
      → let r' = process_out_of_order r in InStream r' × IsSettled r' × KeepsAll r r'
  unfolding process_out_of_order
  process_out_of_order-InStream r h = rounds-InStream (length r.out_of_order) r (omega arith) h
