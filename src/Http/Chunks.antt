-- ===== src/Http/Chunks.antt =====
-- protocols/http.py, `dechunk_http_body`: chunked bodies, and a chunk of negative size.
use pcap_decode.Base.{
  ℕ, zero, suc, ◌+◌, ◌-◌, ◌≤◌, ◌<◌, ◌≡◌, refl, sym, ◌∙◌, ap, Bool, true, false, some, List, [], ◌∷◌,
  ◌++◌, arith, ltb, length, take, drop, All, drop-drop, length-append, take-append_length,
  drop-append_length, length-drop,
}
use pcap_decode.Base.Int.{ℤ, pos, negsuc, ◌+ℤ◌, +ℤ-pos, ltb_ℤ}
use pcap_decode.Base.Bytes.{Bytes, Error, ok, raise, ◌>>=◌}
use pcap_decode.Base.Search.{find_from}
use pcap_decode.Base.Strings.{bound_at, slice_between}
use pcap_decode.Http.Parts.{EndsAt, part_at}
use pcap_decode.Http.{crlf, chunk_size, chunk_at, dechunk_from, dechunk_http_body}

abbrev pub is_zero : ℤ → Bool
is_zero (pos zero) = true
is_zero _ = false

pub positive : (n : ℕ) → 0 < n → is_zero (pos n) ≡ false
positive zero h = absurd (omega arith)
positive (suc n) h = refl

-- A round of the loop.
pub dechunk_step :
    (fuel : ℕ) (d : Bytes) (idx : ℤ) (end : ℕ) (n next : ℤ) (piece : Bytes)
    → ltb_ℤ idx (pos (length d)) ≡ true
    → find_from crlf d (bound_at (length d) idx) ≡ some end
    → chunk_size (slice_between d idx (pos end)) ≡ some n
    → is_zero n ≡ false
    → chunk_at d (end + 2) n ≡ (piece, some next)
    → dechunk_from (suc fuel) d idx ≡ (dechunk_from fuel d next >>= λ rest. ok (piece ++ rest))
unfolding dechunk_from
dechunk_step fuel d idx end (pos zero) next piece l f s z c = cc
dechunk_step fuel d idx end (pos (suc n)) next piece l f s z c =
    rw (l, dechunk_from)
      (rw f (
        rw s (
          rw (ap (λ q. q.1) c)
            (ap (λ q. dechunk_from fuel d next >>= λ rest. ok (q.0 ++ rest)) c))))
dechunk_step fuel d idx end (negsuc n) next piece l f s z c =
    rw (l, dechunk_from)
      (rw f (
        rw s (
          rw (ap (λ q. q.1) c)
            (ap (λ q. dechunk_from fuel d next >>= λ rest. ok (q.0 ++ rest)) c))))

pub chunk_at-pos :
    (d : Bytes) (start n : ℕ)
    → start + n ≤ length d
    → chunk_at d start (pos n) ≡ (take n (drop start d), some (pos (start + n + 2)))
unfolding chunk_at
chunk_at-pos d start n h =
    let size : start + n - start ≡ n = omega arith in
    let fits : ltb (length d + 0) (start + n + 0) ≡ false = ground arith in
    rw (+ℤ-pos start n) (rw fits (rw size (rw (+ℤ-pos (start + n) 2) refl)))

back_over : (s : ℕ) → pos s +ℤ negsuc (s + 1) ≡ negsuc 1
unfolding ◌+ℤ◌
back_over s = ground arith

back_start : negsuc 1 +ℤ pos 2 ≡ pos 0
unfolding ◌+ℤ◌
back_start = refl

-- A negative size that leads back to the start of the data.
chunk_at-back :
    (d : Bytes) (start k : ℕ)
    → k ≡ start + 1
    → chunk_at d start (negsuc k) ≡ (slice_between d (pos start) (negsuc 1), some (pos 0))
unfolding chunk_at
chunk_at-back d start k h =
    let fits : ltb (length d + 2) 0 ≡ false = ground arith in
    rw h (rw (back_over start) (rw fits (rw back_start refl)))

-- A line of its own.
abbrev pub IsLine : Bytes → Type 0
IsLine = EndsAt crlf

-- A chunk as it is sent: its line, and its body.
pub record Chunk : Type 0 where
  pub line : Bytes
  pub body : Bytes

pub record IsChunk (c : Chunk) : Type 0 where
  pub alone : IsLine c.line
  pub sized : chunk_size c.line ≡ some (pos (length c.body))
  pub filled : 0 < length c.body

-- The chunks, then what follows them.
abbrev pub encode : List Chunk → Bytes → Bytes
encode [] rest = rest
encode (c ∷ cs) rest = c.line ++ (crlf ++ (c.body ++ (crlf ++ encode cs rest)))

abbrev pub bodies : List Chunk → Bytes
bodies [] = []
bodies (c ∷ cs) = c.body ++ bodies cs

-- The loop at the start of the chunks.
encoded_from :
    (fuel : ℕ) (cs : List Chunk) (last tail d : Bytes) (i : ℕ)
    → All IsChunk cs
    → IsLine last
    → chunk_size last ≡ some (pos 0)
    → drop i d ≡ encode cs (last ++ (crlf ++ tail))
    → length cs < fuel
    → dechunk_from fuel d (pos i) ≡ ok (bodies cs)
unfolding dechunk_from
encoded_from zero cs last tail d i c h z e l = absurd (omega arith)
encoded_from (suc fuel) [] last tail d i c h z e l =
    let at_last = part_at crlf last tail d i (omega arith) h e in
    rw (at_last.within, dechunk_from)
      (rw at_last.found (rw (ap chunk_size at_last.stands ∙ z) refl))
encoded_from (suc fuel) (k ∷ cs) last tail d i (c, more) h z e l =
    let n = length k.body in
    let rest = encode cs (last ++ (crlf ++ tail)) in
    let start = i + length k.line + 2 in
    let at_chunk = part_at crlf k.line (k.body ++ (crlf ++ rest)) d i (omega arith) c.alone e in
    let fits : start + n ≤ length d = omega (
      arith,
      length-drop start d,
      ap length at_chunk.behind ∙ length-append k.body (crlf ++ rest),
      c.filled,
    ) in
    let body : take n (drop start d) ≡ k.body =
      ap (take n) at_chunk.behind ∙ take-append_length k.body (crlf ++ rest) in
    let after : drop (start + n + 2) d ≡ rest =
      sym (drop-drop 2 (start + n) d)
      ∙ ap (drop 2) (
          sym (drop-drop n start d)
          ∙ ap (drop n) at_chunk.behind
          ∙ drop-append_length k.body (crlf ++ rest)) in
    dechunk_step fuel d (pos i) (i + length k.line) (pos n) (pos (start + n + 2)) k.body
      at_chunk.within at_chunk.found (ap chunk_size at_chunk.stands ∙ c.sized) (positive n c.filled)
      (chunk_at-pos d start n fits ∙ ap (λ b. (b, some (pos (start + n + 2)))) body)
    ∙ rw (encoded_from fuel cs last tail d (start + n + 2) more h z after (omega arith)) refl

-- The encoding of chunks that have a body each, closed by a line of size 0, is decoded to the bodies
-- one after the other: with fuel for each chunk and one more, whatever follows.
pub dechunk-encode :
    (fuel : ℕ) (cs : List Chunk) (last tail : Bytes)
    → All IsChunk cs
    → IsLine last
    → chunk_size last ≡ some (pos 0)
    → length cs < fuel
    → dechunk_http_body fuel (encode cs (last ++ (crlf ++ tail))) ≡ ok (bodies cs)
unfolding dechunk_http_body
dechunk-encode fuel cs last tail c h z l =
    encoded_from fuel cs last tail (encode cs (last ++ (crlf ++ tail))) 0 c h z refl l

-- A chunk whose line gives the negated length of the line and of two line ends as its size makes the
-- loop start over for ever, whatever follows.
pub dechunk_stuck :
    (fuel : ℕ) (line tail : Bytes)
    → IsLine line
    → chunk_size line ≡ some (negsuc (length line + 3))
    → dechunk_http_body fuel (line ++ (crlf ++ tail)) ≡ raise Error.no_fuel
unfolding dechunk_http_body dechunk_from
dechunk_stuck zero line tail h s = refl
dechunk_stuck (suc fuel) line tail h s =
    let d = line ++ (crlf ++ tail) in
    let at_line = part_at crlf line tail d 0 (omega arith) h refl in
    let end = 0 + length line in
    dechunk_step fuel d (pos 0) end (negsuc (length line + 3)) (pos 0) _ at_line.within
      at_line.found (ap chunk_size at_line.stands ∙ s) refl
      (chunk_at-back d (end + 2) (length line + 3) (omega arith))
    ∙ rw (dechunk_stuck fuel line tail h s) refl
