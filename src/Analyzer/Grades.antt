-- ===== src/Analyzer/Grades.antt =====
-- analyzer.py, `analyze_payload`: when it returns, and how it grades a file.
use pcap_decode.Base.{
  ℕ, ◌+◌, ◌≤◌, ◌≡◌, refl, sym, ◌∙◌, inl, inr, Bool, true, false, arith, Bool-cases, leb, length,
  ◌==◌, [], ◌∷◌, if◌then◌else◌,
}
use pcap_decode.Base.Bytes.{
  Bytes, Result, ok, raise, ◌>>=◌, is_ok, bind-is_ok, Post, then-Post, slice, bytes_beq,
}
use pcap_decode.Base.Search.{starts_with}
use pcap_decode.Models.{Text, text}
use pcap_decode.Pe.{parse_pe}
use pcap_decode.Engine.{ThreatLevel, critical, high, medium, low, info, ExtractedFile}
use pcap_decode.Analyzer.{FileType, detect_file_type, mz_type}
use pcap_decode.Analyzer.Indicators.{Libraries, Item, Verdict, judge}
use pcap_decode.Analyzer.Payload.{analyze_payload, extracted_file, level_of, payload_info}

not_mz :
    (d : Bytes)
    → starts_with (text "MZ") d ≡ false
    → bytes_beq (slice d 0 2) (b'M' ∷ b'Z' ∷ []) ≡ false
unfolding starts_with text
not_mz [] h = refl
not_mz (x ∷ []) h = ground arith
not_mz (x ∷ (y ∷ d)) h = ground arith

other-is_ok : (d : Bytes) → starts_with (text "MZ") d ≡ false → is_ok (parse_pe d) ≡ true
unfolding parse_pe
other-is_ok d h = ground (arith, not_mz d h)

empty-is_ok : (d : Bytes) → (length d == 0) ≡ true → is_ok (parse_pe d) ≡ true
unfolding parse_pe
empty-is_ok d h = ground arith

is_ok-then : {A B : Type 0} (m : Result A) (f : A → B) → is_ok (m >>= λ a. ok (f a)) ≡ is_ok m
is_ok-then (ok a) f = refl
is_ok-then (raise e) f = refl

detect_file_type-ok :
    (is_utf8 : Bytes → Bool) (d : Bytes) → is_ok (detect_file_type is_utf8 d) ≡ is_ok (parse_pe d)
unfolding detect_file_type
detect_file_type-ok is_utf8 d = elim (Bool-cases (length d == 0)) [
  | inl empty ↦ rw (empty, detect_file_type) (sym (empty-is_ok d empty))
  | inr full ↦ elim (Bool-cases (starts_with (text "MZ") d)) [
    | inl mz ↦ rw (full, detect_file_type) (rw mz (is_ok-then (parse_pe d) mz_type))
    | inr other ↦ rw (full, detect_file_type) (rw other (sym (other-is_ok d other)))
  ]
]

payload_info-is_ok :
    (item : Item) (magic_type : Text)
    → is_ok (parse_pe item.raw_data) ≡ true
    → is_ok (payload_info item magic_type) ≡ true
unfolding payload_info
payload_info-is_ok item magic_type h = let pe = item.metadata.pe_info in ground arith

bind-fails :
    {A B : Type 0} (m : Result A) (f : A → Result B) → is_ok m ≡ false → is_ok (m >>= f) ≡ false
bind-fails (ok a) f h = cc
bind-fails (raise e) f h = refl

pub analyze_payload-ok :
    (lib : Libraries) (item : Item)
    → is_ok (analyze_payload lib item) ≡ is_ok (parse_pe item.raw_data)
unfolding analyze_payload
analyze_payload-ok lib item =
    let detected = detect_file_type-ok lib.is_utf8 item.raw_data in
    elim (Bool-cases (is_ok (parse_pe item.raw_data))) [
      | inl fine ↦
          bind-is_ok (detect_file_type lib.is_utf8 item.raw_data) _ (detected ∙ fine) (λ file_type.
            bind-is_ok (payload_info item file_type.0) _ (payload_info-is_ok item file_type.0 fine)
              (λ pe. refl))
          ∙ sym fine
      | inr raised ↦
          bind-fails (detect_file_type lib.is_utf8 item.raw_data) _ (detected ∙ raised) ∙ sym raised
    ]

-- The levels in order.
abbrev pub rank : ThreatLevel → ℕ
rank info = 0
rank low = 1
rank medium = 2
rank high = 3
rank critical = 4

abbrev reaches : ℕ → ℕ → ℕ
reaches score threshold = if leb threshold score then 1 else 0

-- How many of the thresholds 10, 25, 45 and 70 a score reaches.
abbrev pub thresholds : ℕ → ℕ
thresholds score = reaches score 10 + (reaches score 25 + (reaches score 45 + reaches score 70))

level_of-rank : (score : ℕ) → rank (level_of score) ≡ thresholds score
unfolding level_of
level_of-rank score = ground arith

-- The file holds the data and its hash, and its level goes with its score.
pub record IsGraded (lib : Libraries) (item : Item) (f : ExtractedFile) : Type 0 where
  pub data_is : f.payload ≡ item.raw_data
  pub size_is : f.size ≡ length item.raw_data
  pub hash_is : f.sha256 ≡ lib.sha256 item.raw_data
  pub score_le : f.threat_score ≤ 100
  pub level_is : rank f.threat_level ≡ thresholds f.threat_score

extracted_file-IsGraded :
    (lib : Libraries) (item : Item) (file_type : FileType) (v : Verdict)
    → IsGraded lib item (extracted_file lib item file_type v)
unfolding extracted_file
extracted_file-IsGraded lib item file_type v = record {
  data_is = refl;
  size_is = refl;
  hash_is = refl;
  score_le = omega arith;
  level_is = level_of-rank _;
}

-- `analyze_payload` returns exactly when `parse_pe` returns for the data. The file then holds the data,
-- its length and its hash, the score is at most 100, and the level is the number of the thresholds
-- 10, 25, 45 and 70 that the score reaches.
pub analyze_payload-IsGraded :
    (lib : Libraries) (item : Item)
    → (is_ok (analyze_payload lib item) ≡ is_ok (parse_pe item.raw_data))
      × Post (IsGraded lib item) (analyze_payload lib item)
unfolding analyze_payload
analyze_payload-IsGraded lib item = (
  analyze_payload-ok lib item,
  then-Post (IsGraded lib item) (detect_file_type lib.is_utf8 item.raw_data) _ (λ file_type.
      then-Post (IsGraded lib item) (payload_info item file_type.0) _
        (λ pe. extracted_file-IsGraded lib item file_type (judge lib item file_type pe))),
)
