-- ===== src/Tests/Engine.antt =====
-- engine.py and analyzer.py on three candidates, two of them with the same content.
use pcap_decode.Base.{◌≡◌, true, false, none, List, [], ◌∷◌}
use pcap_decode.Base.Bytes.{Bytes, is_ok, Post}
use pcap_decode.Models.{text}
use pcap_decode.Pe.{parse_pe}
use pcap_decode.Engine.{analyze_and_deduplicate}
use pcap_decode.Engine.Unique.{best_score}
use pcap_decode.Engine.Results.{IsBest, all_parsed, analyze_and_deduplicate-best_score}
use pcap_decode.Analyzer.Indicators.{Libraries, Item}
use pcap_decode.Analyzer.Payload.{analyze_payload}
use pcap_decode.Analyzer.Grades.{IsGraded, analyze_payload-IsGraded}

-- Hashes that are the content itself, and no matches of regular expressions.
abbrev lib : Libraries
lib = record {
  md5 = λ d. d;
  sha1 = λ d. d;
  sha256 = λ d. d;
  is_dense = λ d. false;
  is_repetitive = λ d. false;
  entropy_text = λ d. [];
  is_utf8 = λ d. true;
  re_search = λ pattern d. false;
  find_urls = λ d. [];
}

abbrev item : Bytes → Item
item d = record {
  raw_data = d;
  source_proto = text "HTTP";
  flow = none;
  timestamp = 5;
  filename = text "file.bin";
  metadata = record { xor_key = none; carve_method = []; pe_info = none };
}

abbrev items : List Item
items = item (text "%PDF-1.4 /JS") ∷ item (text "plain text") ∷ item (text "%PDF-1.4 /JS") ∷ []

analyze_payload-IsGraded_example :
    (is_ok (analyze_payload lib (item (text "MZ and no more")))
      ≡ is_ok (parse_pe (item (text "MZ and no more")).raw_data))
    × Post
        (IsGraded lib (item (text "MZ and no more")))
        (analyze_payload lib (item (text "MZ and no more")))
analyze_payload-IsGraded_example = analyze_payload-IsGraded lib (item (text "MZ and no more"))

analyze_and_deduplicate-best_score_example :
    (is_ok (analyze_and_deduplicate (λ i. i.raw_data) (analyze_payload lib) 4 items)
      ≡ all_parsed 4 items)
    × Post
        (IsBest (best_score (λ i. i.raw_data) (analyze_payload lib) 4) items)
        (analyze_and_deduplicate (λ i. i.raw_data) (analyze_payload lib) 4 items)
analyze_and_deduplicate-best_score_example = analyze_and_deduplicate-best_score lib 4 items
