-- ===== src/TcpReassembly/Early.antt =====
-- tcp_reassembly.py, the branch of `add_segment` for data before `base_seq`, where the method calls
-- itself: how deep the calls go, and what it does to data that arrives with the SYN or after a gap.
-- The fuel of `add_segment_fuel` is the depth of calls that the interpreter allows.
use mathlib.Core.List.{reverse, reverse-cons, append_assoc, append-nil}
use mathlib.Core.Option.{map}
use pcap_decode.Base.{
  ℕ, zero, suc, ◌+◌, ◌-◌, ◌^◌, ◌<◌, min, ◌≡◌, ◌≢◌, refl, sym, ◌∙◌, ap, inl, inr, true, false,
  Option, none, some, [], ◌∷◌, ◌++◌, arith, length, drop, take-length, length-drop, List-cases,
  Option-cases, leb, ◌≤◌, if◌then◌else◌,
}
use pcap_decode.Base.Int.{pos, negsuc, pos_part, ltb_ℤ}
use pcap_decode.Base.Bytes.{Bytes}
use pcap_decode.Models.{get_syn, get_rst}
use pcap_decode.TcpReassembly.{
  seq_diff, advance, DirectionalReassembler, new_reassembler, Arrival, note_flags, add_segment,
  add_segment_fuel, prepend, accept,
}

-- The rest of a segment whose first `n` bytes were prepended.
abbrev rest_of : ℕ → Arrival → Arrival
rest_of n a = record a { seq = advance a.seq n; payload = drop n a.payload }

-- The variables of the branch: the base, and the number of bytes before it.
abbrev base_or_zero : DirectionalReassembler → ℕ
base_or_zero r = elim r.base_seq [ none ↦ 0 | some b ↦ b ]

abbrev early_bytes : Arrival → DirectionalReassembler → ℕ
early_bytes a r = min (pos_part (seq_diff (base_or_zero r) a.seq)) (length a.payload)

advance-ahead : (seq n : ℕ) → n < 2 ^ 31 → ltb_ℤ (seq_diff (advance seq n) seq) (pos 0) ≡ false
unfolding seq_diff
advance-ahead seq n h = ground arith

seq_diff-bound : (x y : ℕ) → pos_part (seq_diff x y) < 2 ^ 31
unfolding seq_diff
seq_diff-bound x y = ground arith

-- What is left of a segment without SYN starts at the new base, so that it is accepted.
rest-accept :
    (fuel n : ℕ) (a : Arrival) (r : DirectionalReassembler)
    → n < length a.payload
    → n < 2 ^ 31
    → get_syn a.flags ≡ false
    → add_segment_fuel (suc fuel) (rest_of n a) (prepend n a r)
      ≡ some (accept (rest_of n a) (note_flags (rest_of n a) (prepend n a r)))
unfolding add_segment_fuel note_flags prepend
rest-accept fuel n a r h k plain = ground (arith, length-drop n a.payload, advance-ahead a.seq n k)

-- Without SYN, two levels of calls are as good as more.
plain_depths :
    (f g : ℕ) (a : Arrival) (r : DirectionalReassembler)
    → get_syn a.flags ≡ false
    → add_segment_fuel (suc (suc f)) a r ≡ add_segment_fuel (suc (suc g)) a r
unfolding add_segment_fuel
plain_depths f g a r plain =
    let r1 = note_flags a r in
    let n = early_bytes a r1 in
    let short = seq_diff-bound (base_or_zero r1) a.seq in
    ground (arith, short, rest-accept f n a r1, rest-accept g n a r1)

plain-is_some :
    (f : ℕ) (a : Arrival) (r : DirectionalReassembler)
    → get_syn a.flags ≡ false
    → add_segment_fuel (suc (suc f)) a r ≢ none
unfolding add_segment_fuel
plain-is_some f a r plain =
    let r1 = note_flags a r in
    let n = early_bytes a r1 in
    let short = seq_diff-bound (base_or_zero r1) a.seq in
    ground (arith, short, rest-accept f n a r1)

empty_depths :
    (f g : ℕ) (a : Arrival) (r : DirectionalReassembler)
    → a.payload ≡ []
    → add_segment_fuel (suc f) a r ≡ add_segment_fuel (suc g) a r
unfolding add_segment_fuel
empty_depths f g a r e = ground arith

enough_depths :
    (depth : ℕ) (a : Arrival) (r : DirectionalReassembler)
    → get_syn a.flags ≡ false
    → 2 ≤ depth
    → add_segment_fuel depth a r ≡ add_segment_fuel (suc (length a.payload)) a r
enough_depths zero a r plain h = absurd (omega arith)
enough_depths (suc zero) a r plain h = absurd (omega arith)
enough_depths (suc (suc f)) a r plain h = elim (List-cases a.payload) [
  | inl e ↦ empty_depths (suc f) (length a.payload) a r e
  | inr (x, xs, e) ↦
      plain_depths f (length xs) a r plain ∙ ap (λ d. add_segment_fuel (suc (length d)) a r) (sym e)
]

-- Without the SYN flag `add_segment` calls itself once at most: a depth of two calls is enough for a
-- result, in every state and whatever the length of the data, and that result is `add_segment`.
pub add_segment_depth :
    (depth : ℕ) (a : Arrival) (r : DirectionalReassembler)
    → get_syn a.flags ≡ false
    → 2 ≤ depth
    → add_segment_fuel depth a r ≡ some (add_segment a r)
unfolding add_segment
add_segment_depth (suc zero) a r plain h = absurd (omega arith)
add_segment_depth zero a r plain h = absurd (omega arith)
add_segment_depth (suc (suc f)) a r plain h =
    let same = enough_depths (suc (suc f)) a r plain h in
    elim (Option-cases (add_segment_fuel (suc (length a.payload)) a r)) [
      | inl out ↦ absurd (plain-is_some f a r plain (same ∙ out))
      | inr (r', e) ↦ rw (e, add_segment) (same ∙ e)
    ]

seq_diff-next : (seq : ℕ) → seq < 2 ^ 32 → seq_diff seq (advance seq 1) ≡ negsuc 0
unfolding seq_diff
seq_diff-next seq h = ground arith

seq_diff-previous : (seq : ℕ) → seq < 2 ^ 32 → seq_diff (advance seq 1) seq ≡ pos 1
unfolding seq_diff
seq_diff-previous seq h = ground arith

seq_diff-forward : (seq n : ℕ) → seq < 2 ^ 32 → n < 2 ^ 31 → seq_diff (advance seq n) seq ≡ pos n
unfolding seq_diff
seq_diff-forward seq n h k = ground arith

seq_diff-backward :
    (seq n : ℕ) → seq < 2 ^ 32 → n < 2 ^ 31 → 0 < n → seq_diff seq (advance seq n) ≡ negsuc (n - 1)
unfolding seq_diff
seq_diff-backward seq n h k pos_n = ground arith

note_flags_syn :
    (a : Arrival) (r : DirectionalReassembler)
    → get_syn a.flags ≡ true
    → ((note_flags a r).base_seq ≡ some (advance a.seq 1))
      × ((note_flags a r).data_buffer ≡ r.data_buffer)
unfolding note_flags
note_flags_syn a r syn = ground arith

-- One call on a SYN segment with data: the last byte, and a byte with more behind it.
syn_last :
    (fuel : ℕ) (a : Arrival) (r : DirectionalReassembler) (x : ℕ)
    → a.seq < 2 ^ 32
    → get_syn a.flags ≡ true
    → a.payload ≡ x ∷ []
    → add_segment_fuel (suc fuel) a r ≡ some (prepend 1 a (note_flags a r))
unfolding add_segment_fuel
syn_last fuel a r x word syn full =
    ground (arith, note_flags_syn a r syn, seq_diff-next a.seq word, seq_diff-previous a.seq word)

syn_more :
    (fuel : ℕ) (a : Arrival) (r : DirectionalReassembler) (x y : ℕ) (d : Bytes)
    → a.seq < 2 ^ 32
    → get_syn a.flags ≡ true
    → a.payload ≡ x ∷ (y ∷ d)
    → add_segment_fuel (suc fuel) a r
      ≡ add_segment_fuel fuel (rest_of 1 a) (prepend 1 a (note_flags a r))
unfolding add_segment_fuel
syn_more fuel a r x y d word syn full =
    ground (arith, note_flags_syn a r syn, seq_diff-next a.seq word, seq_diff-previous a.seq word)

syn_empty :
    (fuel : ℕ) (a : Arrival) (r : DirectionalReassembler)
    → get_syn a.flags ≡ true
    → a.payload ≡ []
    → add_segment_fuel (suc fuel) a r ≡ some (note_flags a r)
unfolding add_segment_fuel
syn_empty fuel a r syn empty = ground arith

prepend_one :
    (a : Arrival) (r : DirectionalReassembler) (x : ℕ) (xs : Bytes)
    → a.payload ≡ x ∷ xs
    → (prepend 1 a r).data_buffer ≡ x ∷ r.data_buffer
unfolding prepend
prepend_one a r x xs full = rw full

-- The buffer that calls on data `d` with SYN leave in front of `buf`, within a depth.
abbrev reversed_within : ℕ → Bytes → Bytes → Option Bytes
reversed_within depth d buf = if leb (length d) depth then some (reverse d ++ buf) else none

reversed_within-cons :
    (fuel x y : ℕ) (d buf : Bytes)
    → reversed_within fuel (y ∷ d) (x ∷ buf) ≡ reversed_within (suc fuel) (x ∷ (y ∷ d)) buf
reversed_within-cons fuel x y d buf =
    rw (reverse-cons x (y ∷ d), append_assoc (reverse (y ∷ d)) (x ∷ []) buf) (ground arith)

no_depth :
    (a : Arrival) (r : DirectionalReassembler) (y : ℕ) (d buf : Bytes)
    → map (λ s. s.data_buffer) (add_segment_fuel 0 a r) ≡ reversed_within 0 (y ∷ d) buf
unfolding add_segment_fuel
no_depth a r y d buf = ground arith

first_byte-buffer :
    (a : Arrival) (r : DirectionalReassembler) (x : ℕ) (d : Bytes)
    → a.payload ≡ x ∷ d
    → get_syn a.flags ≡ true
    → (prepend 1 a (note_flags a r)).data_buffer ≡ x ∷ r.data_buffer
first_byte-buffer a r x d e syn =
    prepend_one a (note_flags a r) x d e ∙ ap (λ l. x ∷ l) (note_flags_syn a r syn).1

syn_data :
    (fuel : ℕ) (a : Arrival) (r : DirectionalReassembler) (d : Bytes)
    → a.payload ≡ d
    → a.seq < 2 ^ 32
    → get_syn a.flags ≡ true
    → map (λ s. s.data_buffer) (add_segment_fuel (suc fuel) a r)
      ≡ reversed_within (suc fuel) d r.data_buffer
syn_data fuel a r [] e word syn =
    rw (syn_empty fuel a r syn e) (ap some (note_flags_syn a r syn).1 ∙ ground arith)
syn_data fuel a r (x ∷ []) e word syn =
    rw (syn_last fuel a r x word syn e) (ap some (first_byte-buffer a r x [] e syn) ∙ ground arith)
syn_data zero a r (x ∷ (y ∷ d)) e word syn =
    rw (syn_more 0 a r x y d word syn e)
      (no_depth _ _ y d (x ∷ r.data_buffer) ∙ reversed_within-cons 0 x y d r.data_buffer)
syn_data (suc fuel) a r (x ∷ (y ∷ d)) e word syn = rw (syn_more (suc fuel) a r x y d word syn e) (
    syn_data fuel (rest_of 1 a) (prepend 1 a (note_flags a r)) (y ∷ d) (ap (drop 1) e) (omega arith)
      syn
    ∙ ap (reversed_within (suc fuel) (y ∷ d)) (first_byte-buffer a r x (y ∷ d) e syn)
    ∙ reversed_within-cons (suc fuel) x y d r.data_buffer)

-- The first segment of a direction, with a sequence number below 2^32, that carries data together with
-- its SYN takes a call of `add_segment` for each byte: a depth of as many calls as there are bytes,
-- and of one at least, leaves the data in the buffer in reverse order, and a smaller depth, of one
-- at least, leaves no result.
pub add_segment_syn_data :
    (depth : ℕ) (a : Arrival)
    → 0 < depth
    → a.seq < 2 ^ 32
    → get_syn a.flags ≡ true
    → map (λ r. r.data_buffer) (add_segment_fuel depth a new_reassembler)
      ≡ (if leb (length a.payload) depth then some (reverse a.payload) else none)
add_segment_syn_data zero a h word syn = absurd (omega arith)
add_segment_syn_data (suc fuel) a h word syn =
    syn_data fuel a new_reassembler a.payload refl word syn
    ∙ ap (λ d. if leb (length a.payload) (suc fuel) then some d else none)
        (append-nil (reverse a.payload))

early_whole :
    (a : Arrival) (r : DirectionalReassembler) (base gap x : ℕ) (xs : Bytes)
    → r.base_seq ≡ some base
    → a.payload ≡ x ∷ xs
    → seq_diff base a.seq ≡ pos (length a.payload + gap)
    → seq_diff a.seq base ≡ negsuc (length a.payload + gap - 1)
    → 0 < gap
    → get_syn a.flags ≡ false
    → get_rst a.flags ≡ false
    → add_segment a r ≡ prepend (length a.payload) a r
unfolding add_segment add_segment_fuel note_flags
early_whole a r base gap x xs e e' forward backward open_gap plain no_rst = ground arith

-- A segment with data and without SYN and RST that ends `gap` bytes before `base_seq`, less than
-- 2^31 from it in all, is joined to the buffer as if the `gap` bytes between them did not exist; the
-- FIN flag of such a segment is lost.
pub add_segment_gap :
    (a : Arrival) (r : DirectionalReassembler) (base gap : ℕ)
    → r.base_seq ≡ some base
    → base ≡ advance a.seq (length a.payload + gap)
    → a.seq < 2 ^ 32
    → 0 < length a.payload
    → 0 < gap
    → length a.payload + gap < 2 ^ 31
    → get_syn a.flags ≡ false
    → get_rst a.flags ≡ false
    → let r' = add_segment a r in
      (r'.data_buffer ≡ a.payload ++ r.data_buffer)
      × (r'.base_seq ≡ some a.seq)
      × (r'.is_closed ≡ r.is_closed)
unfolding prepend
add_segment_gap a r base gap e d word full open_gap short plain no_rst =
    let forward : seq_diff base a.seq ≡ pos (length a.payload + gap) =
      rw d (seq_diff-forward a.seq (length a.payload + gap) word short) in
    let backward : seq_diff a.seq base ≡ negsuc (length a.payload + gap - 1) =
      rw d (seq_diff-backward a.seq (length a.payload + gap) word short (omega arith)) in
    elim (List-cases a.payload) [
      | inl none_left ↦ absurd (omega (arith, ap length none_left))
      | inr (x, xs, e') ↦
          let early = early_whole a r base gap x xs e e' forward backward open_gap plain no_rst in
          (
            ap (λ s. s.data_buffer) early
                ∙ ap (λ t. t ++ r.data_buffer)
                    (take-length (length a.payload) a.payload (omega arith)),
            ap (λ s. s.base_seq) early,
            ap (λ s. s.is_closed) early,
          )
    ]
