-- ===== src/Lib.antt =====
-- Verification library for pcap-decode, the tool that reads network captures, reassembles the
-- traffic and carves files out of it.
--
-- The parts and the files that model them
--   pcap_decode/models.py: Models (`FlowKey`, `Packet`, `StreamSegment`, `TcpStream`), Models/Flow.
--     These are the records that the other parts exchange. Texts are lists of code points,
--     transport names an enumeration.
--   pcap_decode/pcap_reader.py: Reader (`parse_ipv4`, `parse_ipv6`, `parse_tcp`, `parse_udp`),
--     Reader/Decode (`_decode_packet`), Reader/File (`_read_all`, `_read_pcap`, `_read_pcapng`).
--     The reader turns the bytes of a capture into packets.
--   pcap_decode/ip_reassembly.py: IpReassembly (`IpDefragmenter.process`). Each packet of the reader
--     passes through it.
--   pcap_decode/tcp_reassembly.py: TcpReassembly (`seq_diff`, `DirectionalReassembler`) and
--     Connections (`ConnectionTracker`, `TcpReassembler`). The packets with a TCP flow become
--     streams, handed on when the connection ends or at the end of the capture.
--   pcap_decode/protocols/raw.py: Raw (`RawStreamDecoder`), which offers whole TCP streams and UDP
--     payloads as candidates, under a cap for each flow and a bound on the flow table.
--   pcap_decode/protocols/bacnet.py: Bacnet (`BacnetDecoder.process_packet`, `finalize`) with
--     Bacnet/Services and Bacnet/Tables (the tables), Bacnet/Tags (`read_tag`, `iter_tags`),
--     Bacnet/Npdu (`handles`, `_parse_npdu`), Bacnet/Files (the assembly of transferred files),
--     Bacnet/Decoder (the state, `_record_observation`, `_remember_file_read`, `_record_i_am`),
--     Bacnet/Apdu and Bacnet/Requests (the parsers of the PDU types). It takes the UDP packets that
--     are BACnet/IP frames.
--   pcap_decode/pe_parser.py: Pe (`parse_pe`). pcap_decode/carver.py: Carver (`_carve_signatures` and the
--     sizes of ELF, ZIP and PDF files) and Carver/Whole (`_carve_xor_pe`, `_carve_scripts`,
--     `carve_all`). The carver looks for files in the two directions of a stream.
--   pcap_decode/protocols/http.py: Http (`dechunk_http_body`, `parse_http_headers`,
--     `_parse_http_messages`), Http/Objects (`decompress_payload`, `extract_filename_from_headers`,
--     `parse_multipart_body`) and Http/Stream (`HttpDecoder.parse_stream`). Positions are integers,
--     as the source's loops can move backwards.
--   pcap_decode/protocols/smb.py: Smb (`SmbDecoder.parse_stream`, `_parse_netbios_messages`).
--   pcap_decode/protocols/dns.py: Dns (`parse_dns_name`, `DnsDecoder.process_packet`).
--   pcap_decode/analyzer.py: Analyzer (`detect_file_type`), Analyzer/Indicators and Analyzer/Payload
--     (`analyze_payload`).
--   pcap_decode/engine.py: Engine/Run (`decode_file` up to the candidates, `_process_stream`), which
--     passes every packet through the other parts, and Engine (`_analyze_and_deduplicate`,
--     `_compute_threat_summary`), where the candidates of all decoders meet.
--   Base holds what they share: tests on numbers, lists, dicts and counters, integers, and Python's
--   `bytes` with the exceptions of indexing and `struct.unpack`. Tests applies the theorems to
--   concrete traffic.
--
-- Conventions
--   State: an object is a record of its fields, a method a function from the state to the state
--   and its result. A dict is an association list in insertion order; an object that the source
--   changes in place in a dict is written back under its key.
--   Errors: a function of the source that may raise has a `Result`: `struct_error` for a buffer of
--   the wrong length in `struct.unpack`, `index_error`, `value_error`, `key_error`.
--   Numbers: a sequence number is a natural number with the source's `& 0xFFFFFFFF` written as
--   `% 2 ^ 32`; `seq_diff` is an integer. A timestamp is a whole number of nanoseconds, where the
--   source keeps a float.
--   Loops: `for` loops are recursion on the list. `while` loops take fuel: the bytes left in the
--   file for the two file formats (each round reads some), the bytes of the packet for IPv6
--   extension headers and VLAN tags (each round moves on), the length of the waiting list for
--   the rounds of `_process_out_of_order` (each round with progress removes an entry), the bytes
--   of the segment for the recursion of `add_segment` (the call gets fewer bytes), the bytes of
--   the data for the searches of the carver (each round starts behind the last match), and one
--   more than the bytes of the data for the two loops of the HTTP decoder and for the NetBIOS
--   messages, and for a DNS name eleven times the bytes of the message (ten jumps). Running out
--   gives `no_fuel` or `none`, or ends a search of the carver; the theorems on totality and on
--   fuel exclude it, but for negative lengths in HTTP, where the source does not end either.
--   `iter_tags` recurses on its limit.
--   Limits of the interpreter: the fuel of `add_segment_fuel` is the depth of calls, and `none` a
--   RecursionError. `add_segment`, which the connection table uses, is the method without that
--   limit. The two differ only for a SYN segment with about a thousand bytes of data or more, where
--   the source raises and `add_segment` goes on. A number of more than 4300 digits is not turned
--   into text but raises `value_error` (`decimal_text`) where a packet can make it so large, in the
--   BACnet decoder; elsewhere a formatted number has few digits. The same limit for reading a
--   number (`int`) is left out.
--   Parameters: `inet_ntop` of the socket library, the byte order of the host for `=I`, and
--   `re.search` for the script patterns of the carver; for HTTP the functions of gzip, zlib,
--   zstandard, urllib and re that the decoder calls (`Calls`); for SMB the decoder of UTF-16,
--   for DNS `b64decode` and the test of the entropy, for `detect_file_type` the test for UTF-8.
--   The FTP and the e-mail decoder are parameters of the engine. The analysis of a candidate is a
--   parameter of `analyze_and_deduplicate`, which may raise and which the theorems instantiate with
--   `analyze_payload`; its parameters are the hashes, the tests on the entropy and the regular
--   expressions (`Libraries`). How an object of a decoder becomes an `Item` is left out.
--
-- Not modelled: opening and closing files, the capture process (capture.py), the command line,
-- the exporters, hashes, the entropy, the addresses that analyzer.py puts into the metadata, the remaining protocol decoders
-- (FTP, e-mail), and the reports that only rename fields (`to_dict`, `BacnetDecoder.summary`).
-- Rounding of float timestamps is left out.
pub mod Base
pub mod Models
pub mod Reader
pub mod IpReassembly
pub mod TcpReassembly
pub mod Connections
pub mod Raw
pub mod Pe
pub mod Carver
pub mod Http
pub mod Smb
pub mod Dns
pub mod Bacnet
pub mod Analyzer
pub mod Engine
mod Tests
