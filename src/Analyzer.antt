-- ===== src/Analyzer.antt =====
-- pcap_decode/analyzer.py, `detect_file_type`: the kind and the extension of a file by its first bytes
-- and the words in it. `is_utf8` says whether `decode("utf-8")` succeeds.
pub mod Indicators
pub mod Payload
pub mod Grades
use pcap_decode.Base.{
  Bool, false, ◌&&◌, ◌||◌, Option, none, some, List, [], ◌∷◌, ◌++◌, leb, ◌==◌, if◌then◌else◌,
  length, take,
}
use pcap_decode.Base.Bytes.{Bytes, Result, ok, ◌>>=◌, slice}
use pcap_decode.Base.Search.{starts_with, is_infix, lower}
use pcap_decode.Models.{Text, text}
use pcap_decode.Pe.{PeInfo, parse_pe}

abbrev pub FileType : Type 0
FileType = Text × Text

-- One of the prefixes, or one of the words.
unfoldable pub any_start : List Bytes → Bytes → Bool
any_start [] d = false
any_start (sig ∷ sigs) d = starts_with sig d || any_start sigs d

unfoldable pub any_within : List Bytes → Bytes → Bool
any_within [] d = false
any_within (word ∷ words) d = is_infix word d || any_within words d

-- The type for which the first test holds, or else another one.
unfoldable pub first_type : List (Bool × FileType) → FileType → FileType
first_type [] other = other
first_type ((test, file_type) ∷ tests) other =
    let later = first_type tests other in if test then file_type else later

unfoldable pub mz_type : Option PeInfo → FileType
mz_type none = (text "DOS/MZ Executable Header", text "exe")
mz_type (some info) =
    if info.is_pe
    then (
      text "Windows PE Executable ("
          ++ (info.machine_name ++ (text ", " ++ (info.subsystem_name ++ text ")"))),
      if info.subsystem == 1 then text "sys" else text "exe",
    )
    else (text "DOS/MZ Executable Header", text "exe")

-- A class file has one of five versions behind its signature.
unfoldable pub class_type : Bytes → FileType
class_type d =
    if leb 8 (length d)
      && any_start
          ((0 ∷ 0 ∷ 0 ∷ 0x30 ∷ [])
            ∷ (0 ∷ 0 ∷ 0 ∷ 0x31 ∷ [])
            ∷ (0 ∷ 0 ∷ 0 ∷ 0x32 ∷ [])
            ∷ (0 ∷ 0 ∷ 0 ∷ 0x33 ∷ [])
            ∷ (0 ∷ 0 ∷ 0 ∷ 0x34 ∷ [])
            ∷ [])
          (slice d 4 8)
    then (text "Java Class File", text "class")
    else (text "Mach-O Fat Binary / Java Class", text "bin")

unfoldable pub zip_type : Bytes → FileType
zip_type d =
    first_type
      ((
        any_within (text "word/" ∷ text "[Content_Types].xml" ∷ []) d,
        (text "Microsoft Office OpenXML Document (Word/Excel)", text "docx"),
      )
        ∷ (is_infix (text "xl/") d, (text "Microsoft Excel OpenXML Workbook", text "xlsx"))
        ∷ (is_infix (text "ppt/") d, (text "Microsoft PowerPoint Presentation", text "pptx"))
        ∷ (is_infix (text "AndroidManifest.xml") d, (text "Android APK Package", text "apk"))
        ∷ (is_infix (text "META-INF/MANIFEST.MF") d, (text "Java JAR Archive", text "jar"))
        ∷ [])
      (text "ZIP Archive", text "zip")

-- The scripts and texts, by the lower case of their first 1024 bytes.
unfoldable pub text_type : Bool → Bytes → FileType
text_type is_text p =
    first_type
      ((
        any_start (text "#!/bin/sh" ∷ text "#!/bin/bash" ∷ text "#!/usr/bin/env bash" ∷ []) p,
        (text "Unix Shell Script", text "sh"),
      )
        ∷ (
          any_start (text "#!/usr/bin/env python" ∷ text "#!/usr/bin/python" ∷ []) p,
          (text "Python Script", text "py"),
        )
        ∷ (
          starts_with (text "@echo off") p || is_infix (text "setlocal") p,
          (text "Windows Batch Script", text "bat"),
        )
        ∷ (
          any_within
              (text "powershell"
                ∷ text "invoke-expression"
                ∷ text "downloadstring"
                ∷ text "new-object net.webclient"
                ∷ [])
              p,
          (text "PowerShell Script", text "ps1"),
        )
        ∷ (
          any_within (text "wscript.shell" ∷ text "createobject(" ∷ []) p,
          (text "VBScript / WSH Script", text "vbs"),
        )
        ∷ (
          any_within (text "<!doctype html" ∷ text "<html" ∷ []) p,
          (text "HTML Document", text "html"),
        )
        ∷ (is_infix (text "<?xml") p, (text "XML Document", text "xml"))
        ∷ (is_text, (text "Plain Text / Script", text "txt"))
        ∷ [])
      (text "Generic Binary Data", text "bin")

-- Behind the executables: archives, documents, and then texts.
unfoldable pub data_type : Bool → Bytes → FileType
data_type is_text d =
    first_type
      ((starts_with (0x7f ∷ text "ELF") d, (text "Linux ELF Executable", text "elf"))
        ∷ (
          any_start
              ((0xfe ∷ 0xed ∷ 0xfa ∷ 0xce ∷ [])
                ∷ (0xfe ∷ 0xed ∷ 0xfa ∷ 0xcf ∷ [])
                ∷ (0xce ∷ 0xfa ∷ 0xed ∷ 0xfe ∷ [])
                ∷ (0xcf ∷ 0xfa ∷ 0xed ∷ 0xfe ∷ [])
                ∷ [])
              d,
          (text "macOS Mach-O Binary", text "macho"),
        )
        ∷ (starts_with (0xca ∷ 0xfe ∷ 0xba ∷ 0xbe ∷ []) d, class_type d)
        ∷ (starts_with (text "PK" ++ (3 ∷ 4 ∷ [])) d, zip_type d)
        ∷ (starts_with (text "%PDF-") d, (text "PDF Document", text "pdf"))
        ∷ (starts_with (text "{\\rtf") d, (text "Rich Text Format (RTF) Document", text "rtf"))
        ∷ (
          starts_with (0xd0 ∷ 0xcf ∷ 0x11 ∷ 0xe0 ∷ 0xa1 ∷ 0xb1 ∷ 0x1a ∷ 0xe1 ∷ []) d,
          (text "Microsoft Office Compound Document (OLE2 / Legacy DOC/XLS)", text "doc"),
        )
        ∷ (
          starts_with (text "7z" ++ (0xbc ∷ 0xaf ∷ 0x27 ∷ 0x1c ∷ [])) d,
          (text "7-Zip Archive", text "7z"),
        )
        ∷ (starts_with (text "Rar!" ++ (0x1a ∷ 7 ∷ [])) d, (text "RAR Archive", text "rar"))
        ∷ (starts_with (0x1f ∷ 0x8b ∷ 8 ∷ []) d, (text "GZIP Compressed Archive", text "gz"))
        ∷ (starts_with (text "BZh") d, (text "BZIP2 Compressed Archive", text "bz2"))
        ∷ (
          starts_with (0xfd ∷ (text "7zXZ" ++ (0 ∷ []))) d,
          (text "XZ Compressed Archive", text "xz"),
        )
        ∷ (starts_with (0 ∷ text "asm") d, (text "WebAssembly Binary (WASM)", text "wasm"))
        ∷ [])
      (text_type is_text (lower (take 1024 d)))

-- `detect_file_type`
unfoldable pub detect_file_type : (Bytes → Bool) → Bytes → Result FileType
detect_file_type is_utf8 d =
    if length d == 0
    then ok (text "Empty File", text "bin")
    else if starts_with (text "MZ") d
    then (parse_pe d >>= λ found. ok (mz_type found))
    else ok (data_type (is_utf8 d) d)
