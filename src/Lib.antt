-- ===== src/Lib.antt =====
-- A model of the DuckDB extension pqcap_reader and proofs about it.
--
-- The extension reads packet captures and captures that carry an index: Parquet bytes in a custom
-- PCAP-NG block, located by a footer block of 44 bytes at the end of the file. The parts, and the
-- files that model them:
--
--   Footer      src/pqcap_footer.cpp: `ParseFooterLocator` is `parse_footer_locator`, and `ReadU16LE`,
--               `ReadU32LE` and `ReadU64LE` are `read_u16_le`, `read_u32_le` and `read_u64_le`.
--               Footer/Format has the block as bytes, Footer/Fields what the parser reads of them.
--   Embed       src/pqcap_copy_function.cpp: `EmbedParquetInPqcap` is `embed_parquet_in_pqcap`, and
--               `embedded` is the vector that it writes. `WriteLE16`, `WriteLE32` and `WriteLE64` have
--               their own names. Embed/Stored has the outcomes on a disk.
--   Stdio       `ReadFileBytes` and `WriteFileBytes` of the same file, on a map from paths to bytes.
--   Scan        src/pqcap_copy_function.cpp: `ScanPacketLocations` is `scan_packet_locations`, which
--               calls `scan_bytes` on the bytes of the file.
--   Location    src/pqcap_reader_extension.cpp: `ParsePqcapMetadataLocation`, `StringScalarLoop` and
--               `PqcapOffsetSizeFunction`.
--   Decimal     `ParseDecimalUint64` of src/pqcap_subfile_fs.cpp, with `std::stoull` and
--               `std::to_string` of the C++ library as far as the code uses them.
--   SubFile     src/pqcap_subfile_fs.cpp and src/include/pqcap_subfile_fs.hpp: the file system of
--               `pqcap-subfile://` paths. A handle is the record `PqcapSubFileHandle`, and a method
--               that changes it returns the new one.
--   ReadPqcap   the macro `read_pqcap` of src/pqcap_reader_extension.cpp, where these parts meet: it
--               asks `pqcap_offset_size` for the place that `EmbedParquetInPqcap` wrote down, and opens
--               it by a subfile path.
--   Layers      src/pqcap_packet_table.cpp: the dissector `ParseL4Fields` and what it calls.
--   Classic     src/pqcap_packet_table.cpp: `DetectCaptureFormat` and `ClassicPcapReader`, whose
--               constructor is `open_classic` and whose `Next` is `next`.
--   Table       src/pqcap_packet_table.cpp: `ReadPqcapPacketsInitGlobal` is `init_global`, and a call of
--               `ReadPqcapPacketsFunction` is `read_pqcap_packets_function`, which returns the rows of
--               one batch and the new state. `TimestampMicros` is `timestamp_micros_of`, whose overflow is
--               the result `fault`. LightPcapNg and the size of a vector are parameters.
--               Table/Bind has `ReadPqcapPacketsBind` and the values set by `SetRowValue`.
--   Plain       src/pqcap_copy_function.cpp: `EnsurePlainCapture`.
--   Copy        src/pqcap_copy_function.cpp: `PcapngWriteBind` is `pcapng_write_bind`. Copy/Sink has
--               `PcapngWriteSink`: a chunk is a list of rows, each a function from a column's index to
--               its value, and the packets given to LightPcapNg are kept in the field `written`.
--               Copy/Session has `PcapngWriteInitializeGlobal` and the sinks of several threads: a
--               `Step` takes the mutex, writes one packet, keeps one row, or leaves. Copy/Options has
--               `PcapngListCopyOptions`, and Copy/Equals the comparison of two bindings.
--   Metadata    src/pqcap_copy_function.cpp: `SqlEscape`, and the text of a row of the INSERT.
--               Metadata/Writer has `WriteMetadataParquetViaSQL`, whose queries run on the parameter
--               `SqlEngine`, and Metadata/Literals a reader of SQL values, for which a NUL ends the query.
--   Finalize    src/pqcap_copy_function.cpp: `ResolveCapturePath` and `PcapngWriteFinalize`.
--   EmbedIndex  src/pqcap_copy_function.cpp: `EmbedPqcapIndex`, the index of a capture that is there
--               already, with what it calls and `PqcapEmbedIndexFunction`. The rows of its query are values
--               by position; EmbedIndex/Select has the columns that the query names.
--   Extension   src/pqcap_reader_extension.cpp: `LoadInternal` is `load_internal`, on a record of what
--               has been handed over to DuckDB, and `PqcapReaderReplacementScan` is `replacement_scan`.
--               Extension/Entries has the entries that it is to register.
--   FileApi     DuckDB's file system, which is not code of the repository: a record of its calls, and
--               what its documentation says of a handle (`Holds`). FileApi/OneFile is an instance.
--   Base, Words lists, tests, results, and numbers as bytes.
--
-- A byte is a number below 256, and a file or a buffer a list of bytes. An exception is the result
-- `throw`, with its class, its format and its arguments. Reading a byte that is not there is the result
-- `fault`, so a theorem that names another result says that no such read happens. Sums of unsigned
-- integers keep their wrap-around; the host stores the lowest byte first.
--
-- Loops on fuel: `pad_body` on 4 (a body is padded at most three times), `scan_loop` on one more than the
-- length of the file (each round passes over twelve bytes or more), `digits_onto` on 20 (a uint64 has no
-- more digits).
--
-- Not modelled: the wrappers of src/include/pqcap_duckdb_compat.hpp, which only choose between versions of
-- DuckDB's vector interface; the closing of handles and readers; the callbacks of the copy function that
-- do nothing; and LightPcapNg and DuckDB themselves, which are parameters. Where a theorem is about a
-- capture that LightPcapNg wrote or reads, what it promises is a hypothesis (`IsWritten`, `HandsOut`),
-- and so is what DuckDB promises of its values (`KeepsValues`) and of its parser (`ParsesMacros`).
pub mod Base
pub mod Words
pub mod Footer
pub mod Stdio
pub mod Embed
pub mod Extension
pub mod FileApi
pub mod Decimal
pub mod Location
pub mod SubFile
pub mod Scan
pub mod Layers
pub mod Classic
pub mod ReadPqcap
pub mod Plain
pub mod Table
pub mod Copy
pub mod Metadata
pub mod Finalize
pub mod EmbedIndex
