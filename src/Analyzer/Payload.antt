-- ===== src/Analyzer/Payload.antt =====
-- pcap_decode/analyzer.py, `MalwareAnalyzer.analyze_payload`: the file that the analysis returns.
use pcap_decode.Base.{ℕ, min, ◌||◌, Option, none, some, ◌++◌, ltb, leb, if◌then◌else◌, length, take}
use pcap_decode.Base.Bytes.{Result, ok, ◌>>=◌}
use pcap_decode.Base.Search.{starts_with, is_infix}
use pcap_decode.Models.{Text, text}
use pcap_decode.Pe.{PeInfo, parse_pe}
use pcap_decode.Engine.{ThreatLevel, critical, high, medium, low, info, ExtractedFile}
use pcap_decode.Analyzer.{FileType, detect_file_type}
use pcap_decode.Analyzer.Indicators.{Libraries, Item, Verdict, judge}

unfoldable pub level_of : ℕ → ThreatLevel
level_of score =
    if leb 70 score
    then critical
    else if leb 45 score
    then high
    else if leb 25 score
    then medium
    else if leb 10 score
    then low
    else info

-- `clean_filename`
unfoldable pub clean_filename : Text → Text → Text → Text
clean_filename hash extension filename =
    let unnamed = text "extracted_" ++ (take 12 hash ++ (text "." ++ extension)) in
    let name = if ltb 0 (length filename) then filename else unnamed in
    if is_infix (text ".") name then name else name ++ (text "." ++ extension)

-- `pe_info`, for a file that may be an executable.
unfoldable pub payload_info : Item → Text → Result (Option PeInfo)
payload_info item magic_type =
    if is_infix (text "PE Executable") magic_type || starts_with (text "MZ") item.raw_data
    then elim item.metadata.pe_info [ none ↦ parse_pe item.raw_data | some pe ↦ ok (some pe) ]
    else ok none

-- The file that is returned.
unfoldable pub extracted_file : Libraries → Item → FileType → Verdict → ExtractedFile
extracted_file lib item (magic_type, extension) v =
    let hash = lib.sha256 item.raw_data in
    let score = min 100 v.score in
    record {
      file_id = take 16 hash;
      filename = clean_filename hash extension item.filename;
      payload = item.raw_data;
      size = length item.raw_data;
      md5 = lib.md5 item.raw_data;
      sha1 = lib.sha1 item.raw_data;
      sha256 = hash;
      source_protocol = item.source_proto;
      flow = item.flow;
      timestamp = item.timestamp;
      magic_type = magic_type;
      extension = extension;
      threat_indicators = v.indicators;
      threat_score = score;
      threat_level = level_of score;
    }

-- `analyze_payload`
unfoldable pub analyze_payload : Libraries → Item → Result ExtractedFile
analyze_payload lib item = do
  file_type ← detect_file_type lib.is_utf8 item.raw_data
  pe ← payload_info item file_type.0
  ok (extracted_file lib item file_type (judge lib item file_type pe))
