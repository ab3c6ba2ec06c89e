-- ===== src/Http/Ends.antt =====
-- protocols/http.py: the two loops end, unless a length is negative.
use pcap_decode.Base.{
  ℕ, zero, suc, ◌+◌, ◌≤◌, ◌<◌, ◌≡◌, refl, sym, ◌∙◌, ap, ◌⊎◌, inl, inr, Bool, true, false, Option,
  none, some, List, [], ◌∷◌, arith, ltb, leb, ltb→lt, leb→le, length, drop, length-drop, Bool-cases,
  Option-cases,
}
use pcap_decode.Base.Int.{ℤ, pos, negsuc, +ℤ-pos, ltb_ℤ}
use pcap_decode.Base.Bytes.{Bytes, Result, ◌>>=◌, slice, is_ok, bind-is_ok}
use pcap_decode.Base.Search.{find_from, find_from_sound, starts_with-length}
use pcap_decode.Models.{Text}
use pcap_decode.Http.{
  crlf, blank_line, chunk_size, chunk_at, dechunk_from, dechunk_http_body, parse_http_headers,
  content_length, messages_from, parse_http_messages, is_empty, is_valid, body_at, earlier,
  earliest, next_message, next_methods, body_until, Headers, is_chunked,
}
use pcap_decode.Http.Chunks.{dechunk_step, chunk_at-pos}

abbrev pub is_negative : Option ℤ → Bool
is_negative (some (negsuc n)) = true
is_negative _ = false

-- A piece of the data, read as a chunk line, has a negative size.
abbrev pub NegativeChunk : Bytes → Type 0
NegativeChunk d = (i : ℕ) × ((j : ℕ) × (is_negative (chunk_size (slice d i j)) ≡ true))

-- A piece of the data, read as header lines, has a negative content length.
abbrev pub NegativeLength : Bytes → Type 0
NegativeLength d =
    (i : ℕ) × ((j : ℕ) × (is_negative (content_length (parse_http_headers (slice d i j)).1) ≡ true))

chunk_at-over :
    (d : Bytes) (start n : ℕ)
    → length d < start + n
    → chunk_at d start (pos n) ≡ (drop start d, none)
unfolding chunk_at
chunk_at-over d start n h =
    let over : ltb (length d + 0) (start + n + 0) ≡ true = ground arith in
    rw (+ℤ-pos start n) (rw over refl)

-- The rest of a loop, put behind what a round found.
or_more :
    {A B E : Type 0} (m : Result A) (f : A → Result B)
    → ((a : A) → is_ok (f a) ≡ true)
    → (is_ok m ≡ true) ⊎ E
    → (is_ok (m >>= f) ≡ true) ⊎ E
or_more m f k (inl h) = inl (bind-is_ok m f h k)
or_more m f k (inr e) = inr e

dechunk_ends :
    (fuel : ℕ) (d : Bytes) (i : ℕ)
    → 0 < fuel
    → length d < fuel + i
    → (is_ok (dechunk_from fuel d (pos i)) ≡ true) ⊎ NegativeChunk d
unfolding dechunk_from
dechunk_ends zero d i z l = absurd (omega arith)
dechunk_ends (suc fuel) d i z l = elim (Bool-cases (ltb_ℤ (pos i) (pos (length d)))) [
  | inr past ↦ inl (rw (past, dechunk_from) refl)
  | inl more ↦ elim (Option-cases (find_from crlf d i)) [
    | inl e ↦ inl (rw (more, dechunk_from) (rw e refl))
    | inr (end, e) ↦
        let behind = (find_from_sound crlf d i end e).0 in
        elim (Option-cases (chunk_size (slice d i end))) [
          | inl s ↦ inl (rw (more, dechunk_from) (rw e (rw s refl)))
          | inr (pos zero, s) ↦ inl (rw (more, dechunk_from) (rw e (rw s refl)))
          | inr (pos (suc k), s) ↦ elim (Bool-cases (leb (end + 2 + suc k) (length d))) [
            | inl fits ↦
                let c = chunk_at-pos d (end + 2) (suc k) (omega (arith, leb→le _ _ fits)) in
                let next = end + 2 + suc k + 2 in
                rw (dechunk_step fuel d (pos i) end (pos (suc k)) (pos next) _ more e s refl c) (
                  or_more (dechunk_from fuel d (pos next)) _ (λ rest. refl)
                    (dechunk_ends fuel d next (omega (arith, ltb→lt (i + 0) (length d + 0) more))
                      (omega (arith, behind, ltb→lt (i + 0) (length d + 0) more))))
            | inr over ↦
                let c = chunk_at-over d (end + 2) (suc k) (ground arith) in
                inl (rw (more, dechunk_from) (rw e (rw s (rw (ap (λ q. q.1) c) refl))))
          ]
          | inr (negsuc k, s) ↦ inr (i, (end, ap is_negative s))
        ]
  ]
]

-- The next position is behind `start`.
abbrev is_forward : ℕ → Option ℤ → Bool
is_forward start none = true
is_forward start (some (pos j)) = leb start j
is_forward start (some (negsuc j)) = false

abbrev is_behind : ℕ → Option ℕ → Bool
is_behind start none = true
is_behind start (some j) = leb start j

find_from-forward : (sig d : Bytes) (start : ℕ) → is_behind start (find_from sig d start) ≡ true
find_from-forward sig d start = elim (Option-cases (find_from sig d start)) [
  | inl e ↦ rw e refl
  | inr (j, e) ↦ let h = (find_from_sound sig d start j e).0 in rw e ground arith
]

earlier-forward :
    (start : ℕ) (p q : Option ℕ)
    → is_behind start p ≡ true
    → is_behind start q ≡ true
    → is_behind start (earlier p q) ≡ true
earlier-forward start none q h k = k
earlier-forward start (some n) none h k = h
earlier-forward start (some n) (some p) h k = ground arith

earliest-forward :
    (ms : List Text) (d : Bytes) (start : ℕ) (next : Option ℕ)
    → is_behind start next ≡ true
    → is_behind start (earliest ms d start next) ≡ true
unfolding earliest
earliest-forward [] d start next h = h
earliest-forward (m ∷ ms) d start next h =
    earliest-forward ms d start (earlier next (find_from m d start))
      (earlier-forward start next (find_from m d start) h (find_from-forward m d start))

next_message-forward :
    (r : Bool) (d : Bytes) (start : ℕ) → is_behind start (next_message r d start) ≡ true
unfolding next_message
next_message-forward true d start = earliest-forward next_methods d start none refl
next_message-forward false d start = find_from-forward _ d start

body_until-forward :
    (d : Bytes) (start k : ℕ) (found : Option ℕ)
    → is_behind start found ≡ true
    → is_forward start (body_until d start k found).1 ≡ true
body_until-forward d start k none h = refl
body_until-forward d start k (some i) h = ground arith

body_at-forward :
    (r : Bool) (d : Bytes) (headers : Headers) (start : ℕ)
    → start ≤ length d
    → (is_negative (content_length headers) ≡ true)
      ⊎ (is_forward start (body_at r d headers start).1 ≡ true)
unfolding body_at
body_at-forward r d headers start h = elim (Option-cases (content_length headers)) [
  | inl e ↦ elim (Bool-cases (is_chunked headers)) [
    | inl c ↦ inr (
        rw (e, body_at)
          (rw c (body_until-forward d start 5 _ (find_from-forward (b'0' ∷ blank_line) d start))))
    | inr c ↦
        inr
          (rw (e, body_at) (rw c (body_until-forward d start 0 _ (next_message-forward r d start))))
  ]
  | inr (pos n, e) ↦ inr (rw (e, body_at) (rw (+ℤ-pos start n) ground arith))
  | inr (negsuc n, e) ↦ inl (rw e refl)
]

messages_end :
    (fuel : ℕ) (r : Bool) (d : Bytes) (i : ℕ)
    → 0 < fuel
    → length d < fuel + i
    → (is_ok (messages_from fuel r d (pos i)) ≡ true) ⊎ NegativeLength d
unfolding messages_from
messages_end zero r d i z l = absurd (omega arith)
messages_end (suc fuel) r d i z l = elim (Bool-cases (ltb_ℤ (pos i) (pos (length d)))) [
  | inr past ↦ inl (rw (past, messages_from) refl)
  | inl more ↦ elim (Option-cases (find_from blank_line d i)) [
    | inl e ↦ inl (rw (more, messages_from) (rw e refl))
    | inr (end, e) ↦
        let found = find_from_sound blank_line d i end e in
        let room : end + 4 ≤ length d =
          omega (arith, starts_with-length blank_line (drop end d) found.1, length-drop end d) in
        let head = parse_http_headers (slice d i end) in
        let inside : i < length d = omega (arith, ltb→lt (i + 0) (length d + 0) more) in
        elim (Bool-cases (is_empty head.0)) [
          | inl empty ↦ inl (rw (more, messages_from) (rw e (rw empty refl)))
          | inr full ↦ elim (Bool-cases (is_valid r head.0)) [
            | inr other ↦
                rw (more, messages_from)
                  (rw e (
                    rw full (
                      rw other (
                        messages_end fuel r d (end + 4) (omega (arith, found.0))
                          (omega (arith, found.0))))))
            | inl valid ↦ elim (body_at-forward r d head.1 (end + 4) room) [
              | inl n ↦ inr (i, (end, n))
              | inr forward ↦ elim (Option-cases (body_at r d head.1 (end + 4)).1) [
                | inl b ↦ inl (rw (more, messages_from) (rw e (rw full (rw valid (rw b refl)))))
                | inr (pos next, b) ↦
                    let onward : end + 4 ≤ next =
                      leb→le _ _ (sym (ap (is_forward (end + 4)) b) ∙ forward) in
                    rw (more, messages_from)
                      (rw e (
                        rw full (
                          rw valid (
                            rw b (
                              or_more (messages_from fuel r d (pos next)) _ (λ rest. refl)
                                (messages_end fuel r d next (omega (arith, found.0, onward))
                                  (omega (arith, found.0, onward))))))))
                | inr (negsuc next, b) ↦
                    absurd (ground (arith, sym (ap (is_forward (end + 4)) b) ∙ forward))
              ]
            ]
          ]
        ]
  ]
]

-- With one more fuel than the data has bytes, the loop of `dechunk_http_body` ends unless a piece of
-- the data reads as a chunk line with a negative size, and the loop of `_parse_http_messages` ends
-- unless a piece of it reads as header lines with a negative content length.
pub loops_end :
    (r : Bool) (d : Bytes)
    → ((is_ok (dechunk_http_body (suc (length d)) d) ≡ true) ⊎ NegativeChunk d)
      × ((is_ok (parse_http_messages (suc (length d)) r d) ≡ true) ⊎ NegativeLength d)
unfolding dechunk_http_body parse_http_messages
loops_end r d = (
  dechunk_ends (suc (length d)) d 0 (omega arith) (omega arith),
  messages_end (suc (length d)) r d 0 (omega arith) (omega arith),
)
