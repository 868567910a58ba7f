-- ===== src/Lib.antt =====
-- fb_utils, a collection of C++ utilities: a parser of configuration files, an allocator on a
-- circular buffer, flags as text, readable durations, and thin layers over Linux and Windows for
-- network interfaces, processors, threads and large pages. This library models them, a module for
-- each part. Paths are from the repository's root.
--
-- Prelude. Bytes are numbers, std::string is a list of them (Str), a position that may be npos is
-- an Option. Result is what a call comes to: ok, err for an exception, fault for a failed assertion
-- or an undefined access, timeout for a model's fuel that ran out. Settles and Ensures are the
-- predicates on results: no fault and no timeout, and the same with a property of the value.
--
-- Ini: utils/ini_parser/ini_parser.cpp. Ini.Token is tokenize, which scans with fuel of one more
-- than the bytes, as each step passes a byte. Ini.Value has trim, find_quote and
-- process_quoted_value. Ini.Parser is ini_parser: its record has the pairs so far and the files
-- that are open, and its functions are the steps for a line; parse_stream and parse_file are
-- the two functions parse. std::filesystem is the record FileSystem. The fuel of a parse bounds the
-- depth of includes: a file that is open is not opened again, so one more than the files there are
-- will do.
--
-- CircularMemory: utils/circular_memory.hpp. The record has the buffer's address and size, the tail
-- and the free bytes, and the memory as a function from addresses to bytes. Sizes are numbers
-- modulo 2^64. Blocks and IsValid in CircularMemory.Blocks say which blocks are taken, in order.
-- CircularMemory has the calls in the order in which they are made. A call comes to fault where an
-- assertion fails, or where std::align is called with an alignment that is no power of two, for
-- which it is not defined. CircularMemory.Threads, without the assertions, has an
-- allocating and a releasing thread: a step is an access to the shared counter or to the buffer, or
-- a write by the owner of a block, and the steps come in any order, sequentially consistent. Blocks
-- are released from the oldest on, as a counter of free bytes takes for granted.
--
-- ProgramOptions: utils/program_options. IniOptions is parse_ini of ini_parser.cpp, which calls the
-- parser above. LogSettings is log.cpp, which takes the options that parse_ini has made; its set-up
-- of Boost.Log is the parameter Core. Net and Addresses are net.hpp and validators/net.hpp, Chrono
-- is chrono.hpp and validators/chrono.hpp. The grammars are terms of the record Spirit, which
-- stands for Boost.Spirit X3: Documented has its laws, and Spirit.Peg an instance. ConsoleSink is
-- console_sink.cpp, with the owners of each sink as a number. Validators stands for the checks of
-- Boost.Program_options in the same way; addresses, URLs and dates are parsed by parameters. A
-- parse starts with an empty attribute. Durations are the six of std::chrono with 64-bit counts.
--
-- Flags: utils/flags/flags.hpp, for an integral type of any width. parse_string has fuel of one
-- more than the bytes. Flags.Parser is utils/flags/parser/flags.hpp, around parse_string.
-- Histogram: utils/histogram/chrono_axes.hpp, readable_time in Histogram.Time, dump in
-- Histogram.Dump and the axes in Histogram.Axes; the axis underneath is a parameter, and the bins
-- are what Boost.Histogram gives. Log: utils/log.hpp, over the calls of DPDK.
--
-- Posix: utils/posix/nic_addresses.cpp and thread.cpp, and in Posix.Memory memory.cpp,
-- huge_pages.cpp and sysinfo.cpp, which give nothing yet. Win: utils/win/memory.cpp,
-- huge_pages.cpp, nic_addresses.cpp and nic_addresses.hpp, sysinfo.cpp and thread.cpp, and
-- win/experimental/sysinfo.hpp. The calls of the system are parameters, and a static variable is an
-- argument and a result.
--
-- Not modelled: calls of the system that a function only passes on (this_thread, getcpu_id, the
-- registration of the factory in console_sink.cpp); make_bytesize_vector of utils/buffer.hpp, which
-- makes a vector; tests and build files.
pub mod Prelude
pub mod Ini
pub mod CircularMemory
pub mod ProgramOptions
pub mod Flags
pub mod Histogram
pub mod Posix
pub mod Win
pub mod Spirit
pub mod Log
