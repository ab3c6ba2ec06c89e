-- ===== src/Tests/Pe.antt =====
-- pe_parser.py on small executables.
use pcap_decode.Base.{ℕ, zero, suc, ◌-◌, ◌≡◌, refl, inl, true, [], ◌∷◌, ◌++◌, arith}
use pcap_decode.Base.Bytes.{Bytes, Error, raise, Post, is_ok}
use pcap_decode.Pe.{parse_pe, is_header}
use pcap_decode.Pe.Size.{FoundSized, parse_pe-IsSized}
use pcap_decode.Pe.Raises.{parse_pe-is_ok, parse_pe-raise}

abbrev pub zeros : ℕ → Bytes
zeros zero = []
zeros (suc n) = 0 ∷ zeros n

-- A 32-bit file of `88 + n` bytes whose optional header has 4 bytes.
abbrev pub executable : ℕ → Bytes
executable n =
    b'M'
    ∷ b'Z'
    ∷ (zeros 58
        ++ (64
            ∷ 0
            ∷ 0
            ∷ 0
            ∷ b'P'
            ∷ b'E'
            ∷ 0
            ∷ 0
            ∷ (zeros 16 ++ (4 ∷ 0 ∷ 0 ∷ 0 ∷ 0x0b ∷ 1 ∷ zeros (n - 2)))))

parse_pe-IsSized_example : Post (FoundSized (executable 80)) (parse_pe (executable 80))
parse_pe-IsSized_example = parse_pe-IsSized (executable 80)

parse_pe-is_ok_example : is_ok (parse_pe (executable 80)) ≡ true
parse_pe-is_ok_example = parse_pe-is_ok (executable 80) (omega arith)

parse_pe-raise_example : parse_pe (executable 68) ≡ raise Error.struct_error
unfolding is_header
parse_pe-raise_example =
    parse_pe-raise (executable 68) (omega arith) refl refl (omega arith) (omega arith) (inl refl)
      (omega arith) (omega arith)
