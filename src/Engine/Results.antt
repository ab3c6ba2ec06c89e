-- ===== src/Engine/Results.antt =====
-- engine.py: what `_analyze_and_deduplicate` and `_compute_threat_summary` promise.
use pcap_decode.Base.{
  Option, Bool, true, not, ltb, leb, ◌&&◌, ◌||◌, ℕ, ◌+◌, ◌≡◌, refl, ◌∙◌, ap, List, [], ◌∷◌, arith,
  length,
}
use pcap_decode.Base.Equality.{list_eq, nat_eq}
use pcap_decode.Base.Dict.{lookup}
use pcap_decode.Base.Bytes.{Bytes, Result, ok, raise, ◌>>=◌, is_ok, Post, bind-Post}
use pcap_decode.Models.{Text}
use pcap_decode.Engine.{
  ThreatLevel, ExtractedFile, Summary, values, sort_files, absorb_candidates,
  analyze_and_deduplicate, count_level, count_levels, compute_threat_summary,
}
use pcap_decode.Pe.{parse_pe}
use pcap_decode.Analyzer.Indicators.{Libraries, Item}
use pcap_decode.Analyzer.Payload.{analyze_payload}
use pcap_decode.Analyzer.Grades.{analyze_payload-ok}
use pcap_decode.Engine.Order.{IsRanked, sort_files-IsRanked, scores, scores-sort_files}
use pcap_decode.Engine.Unique.{
  best_score, to_list, all_analyzed, absorb_candidates-Absorbed, absorb_candidates-ok,
  scores-values, values-IsDistinct,
}

is_ok-then : {A B : Type 0} (m : Result A) (f : A → B) → is_ok (m >>= λ a. ok (f a)) ≡ is_ok m
is_ok-then (ok a) f = refl
is_ok-then (raise e) f = refl

-- The results, ranked, with the best score of the candidates for every hash.
abbrev pub IsBest : {C : Type 0} → (Text → List C → Option ℕ) → List C → List ExtractedFile → Type 0
IsBest best cs results = IsRanked results × ((h : Text) → scores h results ≡ to_list (best h cs))

analyze_and_deduplicate-IsBest :
    {C : Type 0} (payload : C → Bytes) (analyze : C → Result ExtractedFile) (min_payload_size : ℕ)
    (cs : List C)
    → Post
        (IsBest (best_score payload analyze min_payload_size) cs)
        (analyze_and_deduplicate payload analyze min_payload_size cs)
unfolding analyze_and_deduplicate lookup
analyze_and_deduplicate-IsBest payload analyze min_payload_size cs =
    bind-Post _ _ (absorb_candidates payload analyze min_payload_size cs []) _
      (absorb_candidates-Absorbed payload analyze min_payload_size cs []
        (record { keyed = tt; single = tt }))
      (λ seen (t, best). (
        sort_files-IsRanked (values seen),
        λ h.
            scores-sort_files h (values seen) (values-IsDistinct seen t.keyed t.single)
            ∙ scores-values h seen t.keyed t.single
            ∙ ap to_list (best h),
      ))

analyze_and_deduplicate-ok :
    {C : Type 0} (payload : C → Bytes) (analyze : C → Result ExtractedFile) (min_payload_size : ℕ)
    (cs : List C)
    → is_ok (analyze_and_deduplicate payload analyze min_payload_size cs)
      ≡ all_analyzed payload analyze min_payload_size cs
unfolding analyze_and_deduplicate
analyze_and_deduplicate-ok payload analyze min_payload_size cs =
    is_ok-then (absorb_candidates payload analyze min_payload_size cs [])
      (λ seen. sort_files (values seen))
    ∙ absorb_candidates-ok payload analyze min_payload_size cs []

-- `parse_pe` returns for every item that has data and is large enough.
unfoldable pub all_parsed : ℕ → List Item → Bool
all_parsed min_payload_size [] = true
all_parsed min_payload_size (item ∷ items) =
    let n = length item.raw_data in
    (not (ltb 0 n && leb min_payload_size n) || is_ok (parse_pe item.raw_data))
    && all_parsed min_payload_size items

all_analyzed-all_parsed :
    (lib : Libraries) (min_payload_size : ℕ) (items : List Item)
    → all_analyzed (λ i. i.raw_data) (analyze_payload lib) min_payload_size items
      ≡ all_parsed min_payload_size items
unfolding all_analyzed all_parsed
all_analyzed-all_parsed lib min_payload_size [] = refl
all_analyzed-all_parsed lib min_payload_size (item ∷ items) =
    rw (analyze_payload-ok lib item, all_analyzed-all_parsed lib min_payload_size items) refl

-- `_analyze_and_deduplicate` with `analyze_payload` returns exactly when `parse_pe` raises for no
-- candidate that is large enough. The results are then ranked by score, then by size. For every hash
-- there is one file if a candidate that is large enough has it, and none otherwise, and the score of
-- the file is the highest one that the analysis gives to these candidates.
pub analyze_and_deduplicate-best_score :
    (lib : Libraries) (min_payload_size : ℕ) (raw_candidates : List Item)
    → (is_ok (
          analyze_and_deduplicate
            (λ i. i.raw_data)
            (analyze_payload lib)
            min_payload_size
            raw_candidates)
        ≡ all_parsed min_payload_size raw_candidates)
      × Post
          (IsBest
            (best_score (λ i. i.raw_data) (analyze_payload lib) min_payload_size)
            raw_candidates)
          (analyze_and_deduplicate
            (λ i. i.raw_data)
            (analyze_payload lib)
            min_payload_size
            raw_candidates)
analyze_and_deduplicate-best_score lib min_payload_size items = (
  analyze_and_deduplicate-ok (λ i. i.raw_data) (analyze_payload lib) min_payload_size items
      ∙ all_analyzed-all_parsed lib min_payload_size items,
  analyze_and_deduplicate-IsBest (λ i. i.raw_data) (analyze_payload lib) min_payload_size items,
)

abbrev sum_levels : Summary → ℕ
sum_levels s = s.critical_files + s.high_files + s.medium_files + s.low_files + s.info_files

count_level-sum : (l : ThreatLevel) (s : Summary) → sum_levels (count_level l s) ≡ sum_levels s + 1
unfolding count_level
count_level-sum ThreatLevel.info s = omega arith
count_level-sum ThreatLevel.low s = omega arith
count_level-sum ThreatLevel.medium s = omega arith
count_level-sum ThreatLevel.high s = omega arith
count_level-sum ThreatLevel.critical s = omega arith

count_levels-sum :
    (fs : List ExtractedFile) (s : Summary)
    → sum_levels (count_levels fs s) ≡ sum_levels s + length fs
unfolding count_levels
count_levels-sum [] s = omega arith
count_levels-sum (f ∷ fs) s =
    omega
      (arith, count_levels-sum fs (count_level f.threat_level s), count_level-sum f.threat_level s)

-- Every file is counted under one level.
pub compute_threat_summary-sum :
    (files : List ExtractedFile) → sum_levels (compute_threat_summary files) ≡ length files
unfolding compute_threat_summary
compute_threat_summary-sum files = omega (arith, count_levels-sum files _)
