-- ===== src/Analyzer/Indicators.antt =====
-- pcap_decode/analyzer.py, `MalwareAnalyzer.analyze_payload`: the indicators that are found in a file,
-- and its score. Hashes, the entropy and regular expressions are parameters (`Libraries`).
use pcap_decode.Base.{
  ℕ, ◌+◌, ◌*◌, Bool, true, false, ◌&&◌, ◌||◌, Option, none, some, List, [], ◌∷◌, ◌++◌, ltb,
  if◌then◌else◌, length, take, replicate,
}
use pcap_decode.Base.Bytes.{Bytes}
use pcap_decode.Base.Search.{is_infix}
use pcap_decode.Base.Strings.{is_space_char, strip, lower_text}
use pcap_decode.Models.{Text, text, number_text, FlowKey}
use pcap_decode.Pe.{PeInfo, Section}
use pcap_decode.Engine.{has_text, add_indicators}
use pcap_decode.Analyzer.{FileType}

-- What the analysis calls: the hashes, the tests on the entropy and its text, the UTF-8 decoder,
-- `re.search`, and the URLs that `re.findall` gives.
pub record Libraries : Type 0 where
  pub md5 : Bytes → Text
  pub sha1 : Bytes → Text
  pub sha256 : Bytes → Text
  pub is_dense : Bytes → Bool
  pub is_repetitive : Bytes → Bool
  pub entropy_text : Bytes → Text
  pub is_utf8 : Bytes → Bool
  pub re_search : Text → Bytes → Bool
  pub find_urls : Bytes → List Text

-- What the analysis reads of the metadata. The key of the XOR may be missing or `None`.
pub record Metadata : Type 0 where
  pub xor_key : Option (Option ℕ)
  pub carve_method : Text
  pub pe_info : Option PeInfo

-- The arguments of `analyze_payload`.
pub record Item : Type 0 where
  pub raw_data : Bytes
  pub source_proto : Text
  pub flow : Option FlowKey
  pub timestamp : ℕ
  pub filename : Text
  pub metadata : Metadata

-- `threat_indicators` and `threat_score`.
pub record Verdict : Type 0 where
  pub indicators : List Text
  pub score : ℕ

unfoldable pub add_indicator : Text → ℕ → Verdict → Verdict
add_indicator indicator points v = record {
  indicators = v.indicators ++ (indicator ∷ []);
  score = v.score + points;
}

abbrev pub add_if : Bool → Text → ℕ → Verdict → Verdict
add_if b indicator points v = if b then add_indicator indicator points v else v

-- `", ".join(words)`
unfoldable pub join_words : List Text → Text
join_words [] = []
join_words (word ∷ []) = word
join_words (word ∷ (next ∷ words)) = word ++ (text ", " ++ join_words (next ∷ words))

-- The words for which a test holds.
unfoldable pub found_words : (Bytes → Bool) → List (Bytes × Text) → List Text
found_words test [] = []
found_words test ((sign, word) ∷ words) =
    let rest = found_words test words in if test sign then word ∷ rest else rest

-- An indicator for a list of findings, with points for each of them.
unfoldable pub add_findings : Text → ℕ → List Text → List Text → Verdict → Verdict
add_findings title points shown [] v = v
add_findings title points shown (word ∷ words) v =
    add_indicator (title ++ join_words shown) (points * length (word ∷ words)) v

abbrev pub is_given : Option (Option ℕ) → Bool
is_given (some (some key)) = true
is_given _ = false

-- `{meta.get('xor_key', 'unknown')}`
abbrev pub key_text : Option (Option ℕ) → Text
key_text none = text "unknown"
key_text (some none) = text "None"
key_text (some (some key)) = number_text key

unfoldable pub judge_key : Metadata → Verdict → Verdict
judge_key meta =
    add_if (is_given meta.xor_key || is_infix (text "XOR_DEOBFUSCATION") meta.carve_method)
      (text "Deobfuscated payload using XOR key " ++ key_text meta.xor_key) 40

unfoldable pub judge_entropy : Libraries → Bytes → Verdict → Verdict
judge_entropy lib d v =
    if lib.is_dense d && ltb 1024 (length d)
    then add_indicator
        (text "High entropy ("
          ++ (lib.entropy_text d ++ text "/8.0) - likely packed, encrypted, or compressed payload"))
        20 v
    else if lib.is_repetitive d && ltb 256 (length d)
    then add_indicator
        (text "Extremely low entropy ("
          ++ (lib.entropy_text d ++ text "/8.0) - repetitive payload or NOP sled"))
        10 v
    else v

abbrev pub suspicious_sections : List Text
suspicious_sections =
    text "upx0"
    ∷ text "upx1"
    ∷ text "upx2"
    ∷ text ".vmp0"
    ∷ text ".vmp1"
    ∷ text "themida"
    ∷ text ".aspack"
    ∷ text ".ndata"
    ∷ text ".packer"
    ∷ text ".mpress"
    ∷ []

unfoldable pub judge_sections : List Section → Verdict → Verdict
judge_sections [] v = v
judge_sections (sec ∷ secs) v =
    let judged =
      add_if (has_text (strip is_space_char (lower_text sec.name)) suspicious_sections)
        (text "Known packer/protector section detected: " ++ sec.name) 30 v in
    judge_sections secs judged

abbrev pub suspicious_apis : List (Bytes × Text)
suspicious_apis =
    (text "VirtualAlloc", text "VirtualAlloc (Memory Allocation for Shellcode/Payload)")
    ∷ (text "VirtualProtect", text "VirtualProtect (Memory Permission Modification)")
    ∷ (text "WriteProcessMemory", text "WriteProcessMemory (Process Injection)")
    ∷ (text "CreateRemoteThread", text "CreateRemoteThread (Remote Thread Injection)")
    ∷ (text "NtQueueApcThread", text "NtQueueApcThread (Early Bird / APC Injection)")
    ∷ (text "SetThreadContext", text "SetThreadContext (Thread Hijacking)")
    ∷ (text "NtUnmapViewOfSection", text "NtUnmapViewOfSection (Process Hollowing)")
    ∷ (text "IsDebuggerPresent", text "IsDebuggerPresent (Anti-Debugging)")
    ∷ (text "CheckRemoteDebuggerPresent", text "CheckRemoteDebuggerPresent (Anti-Debugging)")
    ∷ (text "URLDownloadToFile", text "URLDownloadToFile (Malware Downloader)")
    ∷ (text "InternetOpen", text "InternetOpen (WinINet C2 Communication)")
    ∷ (text "HttpSendRequest", text "HttpSendRequest (HTTP C2 Beaconing)")
    ∷ (text "AdjustTokenPrivileges", text "AdjustTokenPrivileges (Privilege Escalation)")
    ∷ (text "CryptEncrypt", text "CryptEncrypt (Encryption / Ransomware)")
    ∷ []

-- The PE file that was found, if it is one.
unfoldable pub judge_pe : Bytes → Option PeInfo → Verdict → Verdict
judge_pe d none v = v
judge_pe d (some pe) v =
    if pe.is_pe
    then (let apis = found_words (λ api. is_infix api d) suspicious_apis in
        let executable =
          text "Executable binary transfer: "
          ++ (pe.machine_name ++ (text " (" ++ (pe.subsystem_name ++ text ")"))) in
        add_findings
          (text "Suspicious API references (" ++ (number_text (length apis) ++ text "): ")) 10
          (take 5 apis) apis (judge_sections pe.sections (add_indicator executable 15 v)))
    else v

-- Words that stand for themselves.
unfoldable pub as_words : List Text → List (Bytes × Text)
as_words [] = []
as_words (word ∷ words) = (word, word) ∷ as_words words

abbrev pub pdf_tags : List Text
pdf_tags =
    text "/JavaScript"
    ∷ text "/JS"
    ∷ text "/Launch"
    ∷ text "/EmbeddedFiles"
    ∷ text "/OpenAction"
    ∷ text "/AcroForm"
    ∷ []

abbrev pub macro_keywords : List Text
macro_keywords =
    text "AutoOpen"
    ∷ text "Workbook_Open"
    ∷ text "Document_Open"
    ∷ text "VBA"
    ∷ text "ExecuteExcel4Macro"
    ∷ text "Shell"
    ∷ text "WScript"
    ∷ []

unfoldable pub judge_document : Text → Bytes → Verdict → Verdict
judge_document magic_type d v =
    let tags = found_words (λ tag. is_infix tag d) (as_words pdf_tags) in
    let words = found_words (λ word. is_infix word d) (as_words macro_keywords) in
    let pdf =
      if is_infix (text "PDF") magic_type
      then add_findings (text "Suspicious PDF active elements: ") 15 tags tags v
      else v in
    if is_infix (text "Office") magic_type || is_infix (text "OLE2") magic_type
    then add_findings (text "Suspicious Office macro/automation keywords: ") 20 words words pdf
    else pdf

abbrev pub script_patterns : List (Text × Text)
script_patterns =
    (text "(?i)downloadstring|downloaddata|downloadfile", text "WebClient Download Execution")
    ∷ (text "(?i)invoke-expression|iex\\b", text "Invoke-Expression (In-Memory Execution)")
    ∷ (text "(?i)-encodedcommand|-enc\\b", text "PowerShell Encoded Command")
    ∷ (text "(?i)bypass\\s+-noprofile", text "PowerShell Execution Policy Bypass")
    ∷ (text "(?i)invoke-mimikatz", text "Mimikatz Credential Dumping")
    ∷ (text "(?i)frombase64string", text "Base64 Decoding Routine")
    ∷ (text "(?i)wscript\\.shell", text "WSH Shell Execution")
    ∷ (text "(?i)cmd\\.exe\\s+/c|powershell\\.exe", text "Command Interpreter Spawn")
    ∷ (
      text "(?i)curl\\s+.*\\s+\\|\\s+(?:bash|sh)|wget\\s+.*\\s+\\|\\s+(?:bash|sh)",
      text "Remote Script Piping (curl | sh)",
    )
    ∷ (
      text "(?i)nc\\s+-[e|c]|ncat\\s+-e|/bin/sh\\s+-i|/bin/bash\\s+-i",
      text "Reverse Shell Command",
    )
    ∷ []

abbrev pub script_extensions : List Text
script_extensions = text "ps1" ∷ text "sh" ∷ text "bat" ∷ text "vbs" ∷ text "py" ∷ text "txt" ∷ []

unfoldable pub judge_script : Libraries → Text → Bytes → Verdict → Verdict
judge_script lib extension d v =
    let alerts = found_words (λ pattern. lib.re_search pattern d) script_patterns in
    if has_text extension script_extensions
    then add_findings (text "Script threat indicators: ") 25 alerts alerts v
    else v

unfoldable pub judge_padding : Bytes → Verdict → Verdict
judge_padding d =
    add_if (is_infix (replicate 32 0x90) d || is_infix (replicate 32 0xcc) d)
      (text "Detected potential NOP sled or INT3 padding (>=32 consecutive bytes)") 20

-- The URLs without repetitions; ten points for all of them together.
unfoldable pub judge_urls : List Text → Verdict → Verdict
judge_urls urls v =
    add_if (ltb 0 (length urls))
      (text "Embedded URLs found ("
        ++ (number_text (length urls) ++ (text "): " ++ join_words (take 3 urls))))
      10 v

-- All the tests, in order.
unfoldable pub judge : Libraries → Item → FileType → Option PeInfo → Verdict
judge lib item (magic_type, extension) pe =
    let d = item.raw_data in
    judge_urls (add_indicators [] (lib.find_urls d)) (
      judge_padding d (
        judge_script lib extension d (
          judge_document magic_type d (
            judge_pe d pe (
              judge_entropy lib d
                (judge_key item.metadata (record { indicators = []; score = 0 })))))))
