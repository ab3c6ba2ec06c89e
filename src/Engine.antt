-- ===== src/Engine.antt =====
-- pcap_decode/engine.py, `_analyze_and_deduplicate` and `_compute_threat_summary`: one file for each
-- content, the most suspicious first. What the analysis says of a candidate, or raises, is a parameter.
pub mod Order
pub mod Unique
pub mod Results
pub mod Run
pub mod Claims
use pcap_decode.Base.{
  ℕ, zero, suc, ◌+◌, ◌-◌, ◌≡◌, Bool, true, false, ◌&&◌, ◌||◌, not, Option, none, some, List, [],
  ◌∷◌, ◌++◌, leb, ltb, ◌==◌, if◌then◌else◌, length, drop,
}
use pcap_decode.Base.Equality.{Eq, list_eq, nat_eq}
use pcap_decode.Base.Dict.{Dict, lookup, insert}
use pcap_decode.Base.Bytes.{Bytes, bytes_beq, Result, ok, ◌>>=◌}
use pcap_decode.Models.{Text, text, FlowKey}

pub data ThreatLevel : Type 0 where
  info low medium high critical : ThreatLevel

-- The fields of an `ExtractedFile` without the entropy and the metadata.
pub record ExtractedFile : Type 0 where
  pub file_id : Text
  pub filename : Text
  pub payload : Bytes
  pub size : ℕ
  pub md5 : Text
  pub sha1 : Text
  pub sha256 : Text
  pub source_protocol : Text
  pub flow : Option FlowKey
  pub timestamp : ℕ
  pub magic_type : Text
  pub extension : Text
  pub threat_indicators : List Text
  pub threat_score : ℕ
  pub threat_level : ThreatLevel

abbrev pub has_text : Text → List Text → Bool
has_text t [] = false
has_text t (u ∷ us) = bytes_beq t u || has_text t us

-- The indicators of the one list, and those of the other that are not there yet.
unfoldable pub add_indicators : List Text → List Text → List Text
add_indicators known [] = known
add_indicators known (ind ∷ inds) =
    add_indicators (if has_text ind known then known else known ++ (ind ∷ [])) inds

-- `name.endswith(extension)`
abbrev pub ends_with : Text → Text → Bool
ends_with name extension =
    leb (length extension) (length name)
    && bytes_beq (drop (length name - length extension) name) extension

-- The higher score, with its level.
unfoldable pub raise_score : ExtractedFile → ExtractedFile → ExtractedFile
raise_score existing analyzed =
    if ltb existing.threat_score analyzed.threat_score
    then record existing {
      threat_score = analyzed.threat_score;
      threat_level = analyzed.threat_level;
    }
    else existing

-- The name and type of the new file, if they tell more.
unfoldable pub rename_file : ExtractedFile → ExtractedFile → ExtractedFile
rename_file existing analyzed =
    if not (ends_with existing.filename analyzed.extension)
      && not (bytes_beq analyzed.extension (text "bin"))
    then record existing {
      filename = analyzed.filename;
      extension = analyzed.extension;
      magic_type = analyzed.magic_type;
    }
    else existing

-- What a second file with the same content adds to the first one.
unfoldable pub merge : ExtractedFile → ExtractedFile → ExtractedFile
merge existing analyzed =
    let scored = raise_score existing analyzed in
    let listed : ExtractedFile = record scored {
      threat_indicators = add_indicators existing.threat_indicators analyzed.threat_indicators;
    } in
    rename_file listed analyzed

abbrev pub Seen : Type 0
Seen = Dict Text ExtractedFile

-- The order of `results`: by score, then by size.
abbrev pub is_before : ExtractedFile → ExtractedFile → Bool
is_before f g =
    ltb g.threat_score f.threat_score || (f.threat_score == g.threat_score && leb g.size f.size)

-- `results.sort(..., reverse=True)`, which keeps the order of equal files.
unfoldable pub insert_file : ExtractedFile → List ExtractedFile → List ExtractedFile
insert_file f [] = f ∷ []
insert_file f (g ∷ gs) =
    let rest = insert_file f gs in if is_before f g then f ∷ g ∷ gs else g ∷ rest

unfoldable pub sort_files : List ExtractedFile → List ExtractedFile
sort_files [] = []
sort_files (f ∷ fs) = insert_file f (sort_files fs)

-- `list(seen_hashes.values())`
unfoldable pub values : Seen → List ExtractedFile
values [] = []
values ((h, f) ∷ seen) = f ∷ values seen

-- The file of a hash, together with another one of it.
abbrev pub with_seen : Option ExtractedFile → ExtractedFile → ExtractedFile
with_seen none analyzed = analyzed
with_seen (some existing) analyzed = merge existing analyzed

-- What the analysis of a candidate adds to the table.
abbrev pub add_file : Seen → ExtractedFile → Seen
add_file seen analyzed =
    insert analyzed.sha256 (with_seen (lookup analyzed.sha256 seen) analyzed) seen

module _ {C : Type 0} (payload : C → Bytes) (analyze : C → Result ExtractedFile)
    (min_payload_size : ℕ) where
  -- Candidates with too little data are left out.
  abbrev pub is_candidate : C → Bool
  is_candidate c = ltb 0 (length (payload c)) && leb min_payload_size (length (payload c))

  unfoldable pub absorb_candidate : C → Seen → Result Seen
  absorb_candidate c seen =
      if is_candidate c then (analyze c >>= λ analyzed. ok (add_file seen analyzed)) else ok seen

  unfoldable pub absorb_candidates : List C → Seen → Result Seen
  absorb_candidates [] seen = ok seen
  absorb_candidates (c ∷ cs) seen = absorb_candidate c seen >>= absorb_candidates cs

  -- `_analyze_and_deduplicate`
  unfoldable pub analyze_and_deduplicate : List C → Result (List ExtractedFile)
  analyze_and_deduplicate raw_candidates =
      absorb_candidates raw_candidates [] >>= λ seen. ok (sort_files (values seen))

-- The counters of `_compute_threat_summary`.
pub record Summary : Type 0 where
  pub critical_files : ℕ
  pub high_files : ℕ
  pub medium_files : ℕ
  pub low_files : ℕ
  pub info_files : ℕ
  pub total_files : ℕ

unfoldable pub count_level : ThreatLevel → Summary → Summary
count_level ThreatLevel.info s = record s { info_files = s.info_files + 1 }
count_level ThreatLevel.low s = record s { low_files = s.low_files + 1 }
count_level ThreatLevel.medium s = record s { medium_files = s.medium_files + 1 }
count_level ThreatLevel.high s = record s { high_files = s.high_files + 1 }
count_level ThreatLevel.critical s = record s { critical_files = s.critical_files + 1 }

unfoldable pub count_levels : List ExtractedFile → Summary → Summary
count_levels [] s = s
count_levels (f ∷ fs) s = count_levels fs (count_level f.threat_level s)

-- `_compute_threat_summary`
unfoldable pub compute_threat_summary : List ExtractedFile → Summary
compute_threat_summary files = count_levels files (record {
  critical_files = 0;
  high_files = 0;
  medium_files = 0;
  low_files = 0;
  info_files = 0;
  total_files = length files;
})
