-- ===== src/Dns/Safety.antt =====
-- protocols/dns.py: the walk through a name ends, and no packet makes the decoder raise.
use pcap_decode.Base.{
  ℕ, zero, suc, ◌+◌, ◌-◌, ◌*◌, ◌/◌, ◌≤◌, ◌<◌, ◌≡◌, refl, ap, inl, inr, Bool, true, ◌||◌, not,
  Option, List, [], arith, ltb, leb, ◌==◌, length, Bool-cases,
}
use pcap_decode.Base.Bytes.{
  Bytes, ok, unpack, slice, byte, u16, big, unpack-slice, is_ok, bind-is_ok, if-is_ok,
}
use pcap_decode.Models.{Packet}
use pcap_decode.Dns.{
  Walk, is_visited, jump, read_label, walk_name, parse_dns_name, Suspicious, read_questions,
  read_answers, message_of, handles, process_packet,
}

-- What the jumps that are left may cost.
abbrev budget : ℕ → ℕ → ℕ
budget zero n = 0
budget (suc jumps) n = n + budget jumps n

walk_name-is_ok :
    (fuel : ℕ) (d : Bytes) (jumps : ℕ) (w : Walk)
    → budget jumps (length d + 1) + (length d - w.offset) < fuel
    → is_ok (walk_name fuel d jumps w) ≡ true
unfolding walk_name
walk_name-is_ok zero d jumps w l = absurd (omega arith)
walk_name-is_ok (suc fuel) d zero w l = refl
walk_name-is_ok (suc fuel) d (suc jumps) w l =
    let n = byte d w.offset in
    elim (Bool-cases (leb (length d) w.offset || is_visited w.offset w.visited_offsets)) [
      | inl stop ↦ rw (stop, walk_name) refl
      | inr go ↦ elim (Bool-cases (n == 0)) [
        | inl root ↦ rw (go, walk_name) (rw root refl)
        | inr label ↦
            let inside : w.offset < length d = ground arith in
            elim (Bool-cases (n / 64 == 3)) [
              | inl pointer ↦ elim (Bool-cases (leb (length d) (w.offset + 1))) [
                | inl cut ↦ rw (go, walk_name) (rw label (rw pointer (rw cut refl)))
                | inr whole ↦
                    rw (go, walk_name)
                      (rw label (
                        rw pointer
                          (rw whole (walk_name-is_ok fuel d jumps (jump d w) (omega arith)))))
              ]
              | inr plain ↦ elim (Bool-cases (ltb (length d) (w.offset + 1 + n))) [
                | inl cut ↦ rw (go, walk_name) (rw label (rw plain (rw cut refl)))
                | inr whole ↦
                    rw (go, walk_name)
                      (rw label (
                        rw plain (
                          rw whole
                            (walk_name-is_ok fuel d (suc jumps) (read_label d n w) (omega arith)))))
              ]
            ]
      ]
    ]

parse_dns_name-is_ok : (d : Bytes) (offset : ℕ) → is_ok (parse_dns_name d offset) ≡ true
unfolding parse_dns_name
parse_dns_name-is_ok d offset =
    bind-is_ok (walk_name (11 * (length d + 1) + 1) d 10 _) _
      (walk_name-is_ok (11 * (length d + 1) + 1) d 10 _ (omega arith)) (λ w. refl)

module _ (b64decode : Bytes → Option Bytes) (is_dense : Bytes → Bool) where
  read_questions-is_ok :
      (n : ℕ) (d : Bytes) (offset : ℕ) (p : Packet) (found : List Suspicious)
      → is_ok (read_questions b64decode is_dense n d offset p found) ≡ true
  unfolding read_questions
  read_questions-is_ok zero d offset p found = refl
  read_questions-is_ok (suc n) d offset p found = elim (Bool-cases (leb (length d) offset)) [
    | inl over ↦ rw (over, read_questions) refl
    | inr more ↦
        rw (more, read_questions)
          (bind-is_ok (parse_dns_name d offset) _ (parse_dns_name-is_ok d offset) (λ name.
            elim (Bool-cases (leb (name.1 + 4) (length d))) [
              | inr short ↦ rw short (read_questions-is_ok n d name.1 p found)
              | inl long ↦
                  let whole : name.1 + 4 ≤ length d = ground arith in
                  rw (long, unpack-slice 4 d name.1 (name.1 + 4) whole (omega arith))
                    (read_questions-is_ok n d (name.1 + 4) p _)
            ]))
  ]

  read_answers-is_ok :
      (n : ℕ) (d : Bytes) (offset : ℕ) (p : Packet)
      → is_ok (read_answers b64decode is_dense n d offset p) ≡ true
  unfolding read_answers
  read_answers-is_ok zero d offset p = refl
  read_answers-is_ok (suc n) d offset p = elim (Bool-cases (leb (length d) offset)) [
    | inl over ↦ rw (over, read_answers) refl
    | inr more ↦
        rw (more, read_answers)
          (bind-is_ok (parse_dns_name d offset) _ (parse_dns_name-is_ok d offset) (λ name.
            elim (Bool-cases (ltb (length d) (name.1 + 10))) [
              | inl short ↦ rw short refl
              | inr long ↦
                  let whole : name.1 + 10 ≤ length d = ground arith in
                  rw long (
                    bind-is_ok (unpack 10 (slice d name.1 (name.1 + 10))) _
                      (ap is_ok (unpack-slice 10 d name.1 (name.1 + 10) whole (omega arith)))
                      (λ h. elim (Bool-cases (ltb (length d) (name.1 + 10 + u16 big h 8))) [
                        | inl cut ↦ rw cut refl
                        | inr fits ↦ rw fits (
                            bind-is_ok
                              (read_answers b64decode is_dense n d (name.1 + 10 + u16 big h 8) p) _
                              (read_answers-is_ok n d (name.1 + 10 + u16 big h 8) p) (λ rest. refl))
                      ]))
            ]))
  ]

-- No packet makes the DNS decoder raise an exception, and the walk through its names ends.
pub process_packet_total :
    (b64decode : Bytes → Option Bytes) (is_dense : Bytes → Bool) (p : Packet)
    (found : List Suspicious)
    → is_ok (process_packet b64decode is_dense p found) ≡ true
unfolding process_packet
process_packet_total b64decode is_dense p found =
    let d = message_of p in
    if-is_ok (not (handles p) || (length p.payload == 0 || ltb (length d) 12)) (ok ([], found)) _
      (λ b. refl)
      (λ b.
        let long : 12 ≤ length d = ground arith in
        rw (unpack-slice 12 d 0 12 long refl) (
          bind-is_ok (read_questions b64decode is_dense _ d 12 p found) _
            (read_questions-is_ok b64decode is_dense _ d 12 p found)
            (λ asked.
              bind-is_ok (read_answers b64decode is_dense _ d asked.0 p) _
                (read_answers-is_ok b64decode is_dense _ d asked.0 p) (λ objects. refl))))
