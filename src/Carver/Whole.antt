-- ===== src/Carver/Whole.antt =====
-- pcap_decode/carver.py, `_carve_xor_pe`, `_carve_scripts` and `carve_all`: executables hidden by a
-- one-byte XOR, scripts, and all carvers together. `re.search` is the parameter `re_search`: the
-- start of the first match of a pattern, if there is one.
use Prim.Native.Nat.{bit_xor}
use pcap_decode.Base.{
  ℕ, zero, suc, ◌+◌, ◌-◌, ◌/◌, ◌%◌, Bool, true, false, ◌&&◌, ◌||◌, Option, none, some, List, [],
  ◌∷◌, ◌++◌, leb, ltb, if◌then◌else◌, length, take, drop,
}
use pcap_decode.Base.Bytes.{Bytes, Result, ok, ◌>>=◌, unpack, slice, u32, little, bytes_beq}
use pcap_decode.Base.Search.{starts_with, find_from, is_infix, lower}
use pcap_decode.Base.Strings.{hex_digit}
use pcap_decode.Models.{Text, text, number_text}
use pcap_decode.Pe.{PeInfo, parse_pe}
use pcap_decode.Carver.{Carved, carve_signatures}

-- `hex(n)` of a byte.
abbrev pub hex_text : ℕ → Text
hex_text n =
    text "0x"
    ++ (if ltb n 16 then hex_digit n ∷ [] else hex_digit (n / 16) ∷ hex_digit (n % 16) ∷ [])

-- `bytes([b ^ key for b in d])`
unfoldable pub unxor : ℕ → Bytes → Bytes
unxor key [] = []
unxor key (b ∷ d) = bit_xor b key ∷ unxor key d

abbrev pub xor_carved : ℕ → Bytes → ℕ → PeInfo → Carved
xor_carved key unxord idx info = record {
  payload = take info.calculated_size unxord;
  filename =
      text "deobfuscated_xor_" ++ (hex_text key ++ (b'_' ∷ (number_text idx ++ text ".exe")));
  extension = text "exe";
  magic_type =
      text "Deobfuscated XOR (Key: "
      ++ (hex_text key ++ (text ") Windows PE Executable (" ++ (info.machine_name ++ text ")")));
  carve_offset = idx;
  carve_method = text "XOR_DEOBFUSCATION_KEY_" ++ hex_text key;
  xor_key = some key;
  pe_info = some info;
}

-- The file at `idx` whose headers `parse_pe` found.
unfoldable pub keep_xor : ℕ → Bytes → ℕ → Option PeInfo → Option Carved
keep_xor key unxord idx none = none
keep_xor key unxord idx (some info) =
    if info.is_pe then some (xor_carved key unxord idx info) else none

-- The PE signature stands at `e_lfanew` behind `idx`, under the key.
unfoldable pub is_hidden : ℕ → Bytes → ℕ → ℕ → Bool
is_hidden key d idx e_lfanew =
    leb (e_lfanew + 24) (length d - idx)
    && bytes_beq (unxor key (slice d (idx + e_lfanew) (idx + e_lfanew + 4)))
        (b'P' ∷ b'E' ∷ 0 ∷ 0 ∷ [])

-- The body of the `while` loop at a match `idx`.
unfoldable pub xor_at : ℕ → Bytes → ℕ → Result (Option Carved)
xor_at key d idx = do
  h ← unpack 4 (unxor key (slice d (idx + 60) (idx + 64)))
  if is_hidden key d idx (u32 little h 0)
      then (do
        found ← parse_pe (unxor key (drop idx d))
        ok (keep_xor key (unxor key (drop idx d)) idx found))
      else ok none

-- The `while` loop for a key: every round starts behind the last match.
unfoldable pub xor_scan : ℕ → ℕ → Bytes → ℕ → Result (List Carved)
xor_scan zero key d pos = ok []
xor_scan (suc fuel) key d pos = elim (find_from (unxor key (text "MZ")) d pos) [
  | none ↦ ok []
  | some idx ↦ elim (ltb (length d) (idx + 64)) [
    | true ↦ ok []
    | false ↦ xor_at key d idx >>= λ found. elim found [
      | some item ↦ ok (item ∷ [])
      | none ↦ xor_scan fuel key d (idx + 1)
    ]
  ]
]

-- The keys from `key` on, `n` of them.
unfoldable pub xor_keys : ℕ → ℕ → Bytes → Result (List Carved)
xor_keys zero key d = ok []
xor_keys (suc n) key d = do
  found ← xor_scan (suc (length d)) key d 0
  rest ← xor_keys n (key + 1) d
  ok (found ++ rest)

-- `_carve_xor_pe`
unfoldable pub carve_xor_pe : Bytes → Result (List Carved)
carve_xor_pe d = if ltb (length d) 256 then ok [] else xor_keys 255 1 d

abbrev pub script : Bytes → Text → Text → Text → ℕ → Text → Carved
script d filename extension magic_type offset carve_method = record {
  payload = d;
  filename = filename;
  extension = extension;
  magic_type = magic_type;
  carve_offset = offset;
  carve_method = carve_method;
  xor_key = none;
  pe_info = none;
}

abbrev pub ps_patterns : List Text
ps_patterns =
    text
      "(?i)powershell(?:\\.exe)?\\s+.*(?:-enc|-e|-encodedcommand|-nop|-w\\s+hidden|downloadstring|iex|invoke-expression)"
    ∷ text "(?i)(?:New-Object\\s+Net\\.WebClient)\\.(?:DownloadString|DownloadFile|DownloadData)"
    ∷ text "(?i)\\[System\\.Reflection\\.Assembly\\]::Load"
    ∷ text "(?i)\\[System\\.Convert\\]::FromBase64String"
    ∷ text "(?i)Invoke-Mimikatz|Invoke-ReflectivePEInjection|Invoke-Shellcode"
    ∷ []

module _ (re_search : Text → Bytes → Option ℕ) where
  -- The first pattern with a match.
  unfoldable pub first_match : List Text → Bytes → Option ℕ
  first_match [] d = none
  first_match (pattern_text ∷ ps) d = elim (re_search pattern_text d) [
    | none ↦ first_match ps d
    | some start ↦ some start
  ]

  unfoldable pub powershell_script : Bytes → List Carved
  powershell_script d = elim (first_match ps_patterns d) [
    | none ↦ []
    | some start ↦
        script d (text "carved_malicious_script.ps1") (text "ps1")
          (text "PowerShell Malicious Script / Payload") start (text "POWERSHELL_PATTERN")
        ∷ []
  ]

  -- `_carve_scripts`
  unfoldable pub carve_scripts : Bytes → List Carved
  carve_scripts d =
      if ltb (length d) 32
      then []
      else powershell_script d
        ++ ((if starts_with (text "#!/bin/sh") d
                || (starts_with (text "#!/bin/bash") d
                    || starts_with (text "#!/usr/bin/env bash") d)
              then script d (text "carved_shell_script.sh") (text "sh") (text "Unix Shell Script") 0
                  (text "SHEBANG_PATTERN")
                ∷ []
              else [])
            ++ (if starts_with (text "@echo off") (lower d)
                  || is_infix (text "setlocal enabledelayedexpansion") (lower d)
                then script d (text "carved_batch_script.bat") (text "bat")
                    (text "Windows Batch Script") 0 (text "BATCH_PATTERN")
                  ∷ []
                else []))

  -- `carve_all`
  unfoldable pub carve_all : Bytes → Result (List Carved)
  carve_all d = if ltb (length d) 16 then ok [] else (do
    direct ← carve_signatures d
    hidden ← carve_xor_pe d
    ok (direct ++ (hidden ++ carve_scripts d)))
