-- ===== src/Http/Framing.antt =====
-- protocols/http.py, `_parse_http_messages`: messages with a content length, also a negative one.
use pcap_decode.Base.{
  ℕ, zero, suc, ◌+◌, ◌-◌, ◌≤◌, ◌<◌, ◌≡◌, refl, subst, sym, ◌∙◌, ap, Bool, true, false, some, List,
  [], ◌∷◌, ◌++◌, map, arith, length, take, drop, All, drop-drop, length-append, take-append_length,
  drop-append_length, length-drop,
}
use pcap_decode.Base.Int.{ℤ, pos, negsuc, ◌+ℤ◌, +ℤ-pos, ltb_ℤ}
use pcap_decode.Base.Bytes.{Bytes, Error, ok, raise, ◌>>=◌}
use pcap_decode.Base.Search.{find_from}
use pcap_decode.Base.Strings.{bound_at, slice_between, min_ℤ}
use pcap_decode.Http.Parts.{EndsAt, part_at}
use pcap_decode.Http.{
  blank_line, Headers, Message, parse_http_headers, is_empty, is_valid, content_length, body_at,
  messages_from, parse_http_messages,
}

abbrev pub message_with : Bytes → Bytes → Message
message_with head body = record {
  first_line = (parse_http_headers head).0;
  headers = (parse_http_headers head).1;
  body = body;
}

-- A round of the loop that finds a message behind the lines `head` and goes on.
abbrev Step : ℕ → Bool → Bytes → ℤ → ℕ → Bytes → ℤ → Bytes → Type 0
Step fuel r d offset end body next head =
    is_empty (parse_http_headers head).0 ≡ false
    → is_valid r (parse_http_headers head).0 ≡ true
    → body_at r d (parse_http_headers head).1 (end + 4) ≡ (body, some next)
    → messages_from (suc fuel) r d offset
      ≡ (messages_from fuel r d next >>= λ rest. ok (message_with head body ∷ rest))

Step-found :
    (fuel : ℕ) (r : Bool) (d : Bytes) (offset : ℤ) (end : ℕ) (body : Bytes) (next : ℤ)
    → ltb_ℤ offset (pos (length d)) ≡ true
    → find_from blank_line d (bound_at (length d) offset) ≡ some end
    → Step fuel r d offset end body next (slice_between d offset (pos end))
unfolding messages_from
Step-found fuel r d offset end body next l f e v b =
    rw (l, messages_from)
      (rw f (
        rw e (
          rw v (
            rw (ap (λ q. q.1) b) (
              ap
                (λ q. messages_from fuel r d next >>= λ rest.
                  ok (message_with (slice_between d offset (pos end)) q.0 ∷ rest))
                b)))))

pub messages-Step :
    (fuel : ℕ) (r : Bool) (d : Bytes) (offset : ℤ) (end : ℕ) (body : Bytes) (next : ℤ)
    (head : Bytes)
    → ltb_ℤ offset (pos (length d)) ≡ true
    → find_from blank_line d (bound_at (length d) offset) ≡ some end
    → slice_between d offset (pos end) ≡ head
    → Step fuel r d offset end body next head
messages-Step fuel r d offset end body next head l f p =
    subst (Step fuel r d offset end body next) p (Step-found fuel r d offset end body next l f)

-- A content length within the data.
body_at-pos :
    (r : Bool) (d : Bytes) (headers : Headers) (start n : ℕ)
    → content_length headers ≡ some (pos n)
    → start + n ≤ length d
    → body_at r d headers start ≡ (take n (drop start d), some (pos (start + n)))
unfolding body_at
body_at-pos r d headers start n c h =
    let size : start + n - start ≡ n = omega arith in
    let fits : min_ℤ (length d) (pos (start + n)) ≡ pos (start + n) = ground arith in
    rw (c, body_at) (rw (+ℤ-pos start n) (rw fits (rw size refl)))

back_one : (k : ℕ) → pos (k + 1) +ℤ negsuc k ≡ pos 0
unfolding ◌+ℤ◌
back_one k = ground arith

-- A negative one that leads back to the start of the data.
body_at-back :
    (r : Bool) (d : Bytes) (headers : Headers) (start k : ℕ)
    → content_length headers ≡ some (negsuc k)
    → start ≡ k + 1
    → body_at r d headers start ≡ ([], some (pos 0))
unfolding body_at
body_at-back r d headers start k c h =
    let nowhere : min_ℤ (length d) (pos 0) ≡ pos 0 = ground arith in
    let none_left : 0 - (k + 1) ≡ 0 = omega arith in
    rw (c, body_at) (rw h (rw (back_one k) (rw nowhere (rw none_left refl))))

-- A message as it is sent: its header lines, and its body.
pub record Sent : Type 0 where
  pub head : Bytes
  pub body : Bytes

-- The lines end with the first empty line, and what they say of the message.
pub record IsHead (r : Bool) (head : Bytes) (n : ℤ) : Type 0 where
  pub alone : EndsAt blank_line head
  pub full : is_empty (parse_http_headers head).0 ≡ false
  pub valid : is_valid r (parse_http_headers head).0 ≡ true
  pub sized : content_length (parse_http_headers head).1 ≡ some n

abbrev pub IsSent : Bool → Sent → Type 0
IsSent r m = IsHead r m.head (pos (length m.body))

abbrev pub encode_messages : List Sent → Bytes
encode_messages [] = []
encode_messages (m ∷ ms) = m.head ++ (blank_line ++ (m.body ++ encode_messages ms))

abbrev pub message_of : Sent → Message
message_of m = message_with m.head m.body

-- The loop at the start of the messages.
sent_from :
    (fuel : ℕ) (r : Bool) (ms : List Sent) (d : Bytes) (i : ℕ)
    → All (IsSent r) ms
    → drop i d ≡ encode_messages ms
    → length ms < fuel
    → messages_from fuel r d (pos i) ≡ ok (map message_of ms)
unfolding messages_from
sent_from zero r ms d i h e l = absurd (omega arith)
sent_from (suc fuel) r [] d i h e l =
    let over : ltb_ℤ (pos i) (pos (length d)) ≡ false =
      ground (arith, ap length e, length-drop i d) in
    rw (over, messages_from) refl
sent_from (suc fuel) r (m ∷ ms) d i (s, more) e l =
    let n = length m.body in
    let rest = encode_messages ms in
    let start = i + length m.head + 4 in
    let here = part_at blank_line m.head (m.body ++ rest) d i (omega arith) s.alone e in
    let fits : start + n ≤ length d = omega (
      arith,
      length-drop i d,
      ap length e ∙ length-append m.head (blank_line ++ (m.body ++ rest)),
      length-append m.body rest,
    ) in
    let body : take n (drop start d) ≡ m.body =
      ap (take n) here.behind ∙ take-append_length m.body rest in
    let after : drop (start + n) d ≡ rest =
      sym (drop-drop n start d) ∙ ap (drop n) here.behind ∙ drop-append_length m.body rest in
    messages-Step fuel r d (pos i) (i + length m.head) m.body (pos (start + n)) m.head here.within
      here.found here.stands s.full s.valid
      (body_at-pos r d _ start n s.sized fits ∙ ap (λ b. (b, some (pos (start + n)))) body)
    ∙ rw (sent_from fuel r ms d (start + n) more after (omega arith)) refl

-- Messages with a content length each, one behind the other, are found with their header lines and
-- their bodies: with fuel for each message and one more.
pub messages-encode :
    (fuel : ℕ) (r : Bool) (ms : List Sent)
    → All (IsSent r) ms
    → length ms < fuel
    → parse_http_messages fuel r (encode_messages ms) ≡ ok (map message_of ms)
unfolding parse_http_messages
messages-encode fuel r ms h l = sent_from fuel r ms (encode_messages ms) 0 h refl l

-- A message whose content length is the negated length of its header lines and of the empty line makes
-- the loop start over for ever, whatever follows.
pub messages_stuck :
    (fuel : ℕ) (r : Bool) (head tail : Bytes)
    → IsHead r head (negsuc (length head + 3))
    → parse_http_messages fuel r (head ++ (blank_line ++ tail)) ≡ raise Error.no_fuel
unfolding parse_http_messages messages_from
messages_stuck zero r head tail h = refl
messages_stuck (suc fuel) r head tail h =
    let d = head ++ (blank_line ++ tail) in
    let here = part_at blank_line head tail d 0 (omega arith) h.alone refl in
    let end = 0 + length head in
    messages-Step fuel r d (pos 0) end [] (pos 0) head here.within here.found here.stands h.full
      h.valid (body_at-back r d _ (end + 4) (length head + 3) h.sized (omega arith))
    ∙ rw (messages_stuck fuel r head tail h) refl
