-- ===== src/Smb/Frames.antt =====
-- protocols/smb.py, `_parse_netbios_messages`: it returns, and it finds the messages that were sent.
use pcap_decode.Base.{
  ℕ, zero, suc, ◌+◌, ◌-◌, ◌/◌, ◌%◌, ◌≤◌, ◌<◌, ◌≡◌, refl, sym, ◌∙◌, ap, inl, inr, true, false, ◌||◌,
  List, [], ◌∷◌, ◌++◌, map, arith, leb, ltb, ◌==◌, length, take, drop, All, Bool-cases, drop-drop,
  length-append, length-drop, take-append_length, drop-append_length,
}
use pcap_decode.Base.Bytes.{Bytes, ok, ◌>>=◌, slice, byte, is_ok, bind-is_ok}
use pcap_decode.Smb.{message_length, netbios_from, parse_netbios_messages}

-- A message with its NetBIOS type.
pub record Frame : Type 0 where
  pub kind : ℕ
  pub body : Bytes

-- The length fits in three bytes and is not 0.
pub record IsFrame (f : Frame) : Type 0 where
  pub full : 0 < length f.body
  pub short : length f.body < 16777216

abbrev pub encode_frames : List Frame → Bytes
encode_frames [] = []
encode_frames (f ∷ fs) =
    f.kind
    ∷ length f.body / 65536
    ∷ length f.body / 256 % 256
    ∷ length f.body % 256
    ∷ (f.body ++ encode_frames fs)

byte-drop : (d : Bytes) (i k : ℕ) → byte d (i + k) ≡ byte (drop i d) k
byte-drop [] zero k = refl
byte-drop [] (suc i) k = refl
byte-drop (x ∷ d) zero k = let e : 0 + k ≡ k = omega arith in rw e refl
byte-drop (x ∷ d) (suc i) k =
    let e : suc i + k ≡ suc (i + k) = omega arith in rw e (byte-drop d i k)

-- The length that stands in front of a message.
message_length-frame :
    (d : Bytes) (i kind n : ℕ) (rest : Bytes)
    → n < 16777216
    → drop i d ≡ kind ∷ n / 65536 ∷ n / 256 % 256 ∷ n % 256 ∷ rest
    → message_length d i ≡ n
message_length-frame d i kind n rest h e = omega (
  arith,
  byte-drop d i 1 ∙ ap (λ l. byte l 1) e,
  byte-drop d i 2 ∙ ap (λ l. byte l 2) e,
  byte-drop d i 3 ∙ ap (λ l. byte l 3) e,
)

frames_from :
    (fuel : ℕ) (fs : List Frame) (d : Bytes) (i : ℕ)
    → All IsFrame fs
    → drop i d ≡ encode_frames fs
    → length fs < fuel
    → netbios_from fuel d i ≡ ok (map (λ f. f.body) fs)
unfolding netbios_from
frames_from zero fs d i h e l = absurd (omega arith)
frames_from (suc fuel) [] d i h e l =
    let over : leb (i + 4) (length d) ≡ false = ground (arith, ap length e, length-drop i d) in
    rw (over, netbios_from) refl
frames_from (suc fuel) (f ∷ fs) d i (h, hs) e l =
    let n = length f.body in
    let rest = encode_frames fs in
    let size = message_length-frame d i f.kind n (f.body ++ rest) h.short e in
    let behind : drop (i + 4) d ≡ f.body ++ rest = sym (drop-drop 4 i d) ∙ ap (drop 4) e in
    let whole = ap length behind ∙ length-append f.body rest in
    let fits : i + 4 + n ≤ length d = omega (arith, whole, length-drop (i + 4) d, h.full) in
    let more : leb (i + 4) (length d) ≡ true = ground arith in
    let good : (n == 0 || ltb (length d) (i + 4 + n)) ≡ false = ground (arith, h.full) in
    let exact : i + 4 + n - (i + 4) ≡ n = omega arith in
    let over : i + (4 + n) ≡ i + 4 + n = omega arith in
    let body : slice d (i + 4) (i + 4 + n) ≡ f.body =
      rw exact (ap (take n) behind ∙ take-append_length f.body rest) in
    let after : drop (i + (4 + n)) d ≡ rest =
      ap (λ j. drop j d) over
      ∙ sym (drop-drop n (i + 4) d)
      ∙ ap (drop n) behind
      ∙ drop-append_length f.body rest in
    let bad : (message_length d i == 0 || ltb (length d) (i + 4 + message_length d i)) ≡ false =
      ap (λ m. m == 0 || ltb (length d) (i + 4 + m)) size ∙ good in
    let found : (netbios_from fuel d (i + (4 + n)) >>= λ rest.
    ok (slice d (i + 4) (i + 4 + n) ∷ rest))
        ≡ ok (map (λ f. f.body) (f ∷ fs)) =
      rw (frames_from fuel fs d (i + (4 + n)) hs after (omega arith))
        (ap (λ b. ok (b ∷ map (λ f. f.body) fs)) body) in
    rw (more, netbios_from)
      (rw bad (
        ap
          (λ m.
            netbios_from fuel d (i + (4 + m)) >>= λ rest. ok (slice d (i + 4) (i + 4 + m) ∷ rest))
          size
        ∙ found))

length-encode_frames : (fs : List Frame) → length fs ≤ length (encode_frames fs)
length-encode_frames [] = omega arith
length-encode_frames (f ∷ fs) =
    omega (arith, length-encode_frames fs, length-append f.body (encode_frames fs))

-- The messages that were sent are found.
pub netbios-encode_frames :
    (fs : List Frame)
    → All IsFrame fs
    → parse_netbios_messages (encode_frames fs) ≡ ok (map (λ f. f.body) fs)
unfolding parse_netbios_messages
netbios-encode_frames fs h =
    frames_from (suc (length (encode_frames fs))) fs (encode_frames fs) 0 h refl
      (omega (arith, length-encode_frames fs))

netbios_ends :
    (fuel : ℕ) (d : Bytes) (i : ℕ)
    → 0 < fuel
    → length d < fuel + i
    → is_ok (netbios_from fuel d i) ≡ true
unfolding netbios_from
netbios_ends zero d i z l = absurd (omega arith)
netbios_ends (suc fuel) d i z l = elim (Bool-cases (leb (i + 4) (length d))) [
  | inr over ↦ rw (over, netbios_from) refl
  | inl more ↦
      let n = message_length d i in
      elim (Bool-cases (n == 0 || ltb (length d) (i + 4 + n))) [
        | inl bad ↦ rw (more, netbios_from) (rw bad refl)
        | inr good ↦
            rw (more, netbios_from)
              (rw good (
                bind-is_ok (netbios_from fuel d (i + (4 + n))) _
                  (netbios_ends fuel d (i + (4 + n)) (ground arith) (ground arith)) (λ rest. refl)))
      ]
]

pub parse_netbios_messages-is_ok : (d : Bytes) → is_ok (parse_netbios_messages d) ≡ true
unfolding parse_netbios_messages
parse_netbios_messages-is_ok d = netbios_ends (suc (length d)) d 0 (omega arith) (omega arith)
