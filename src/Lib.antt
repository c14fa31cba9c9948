-- ===== src/Lib.antt =====
-- extremes3: a tool that copies files between a local disk and S3, with a queue of tasks worked on by
-- threads. A command puts tasks on the queue; a file that is sent is compressed if that pays, cut into
-- segments by pumps and sent as parts; a file that is fetched is fetched and written by segments.
--
-- The program's parts and their files here (paths from the repository's root):
--   Base        what the modules share: tests on numbers, lists, ordered keys and `std::map`
--   Errors      es3/errors.h, es3/errors.cpp: result codes, exceptions, `| die` and `| libc_die`
--   Base64      es3/base64.cpp: `base64_encode`, `base64_decode`
--   Glob        es3/pattern_match.hpp: `make_char_class`, `pattern_match_impl`, `pattern_match`
--   Agenda      es3/agenda.h, es3/agenda.cpp: `schedule`, `task_executor::claim_task`, `cleanup`,
--               `segment_deleter`, `task_executor::operator()`, and all interleavings of these;
--               Display: what is printed
--   Segments    the number of segments of a file, which es3/uploader.cpp and es3/downloader.cpp share
--   Common      es3/common.h, es3/common.cpp: `trim`, `tobinhex`, `int_to_string`, the maps of
--               headers, `safe_cast`, `handle_t::size`
--   Upload      es3/uploader.cpp: `start_upload` and `file_pump`; File: `file_uploader` and its
--               headers; Parts: `part_upload_task` under all interleavings
--   Context     es3/context.h, es3/context.cpp: the pool of connections, `get_curl`, `release_curl`,
--               `taint`, `reset`
--   Compress    es3/compressor.cpp: `file_compressor`, `on_complete`, `should_compress`; Streams: the
--               loops of `compress_task` and `file_decompressor` over the interface Zlib
--   Download    es3/downloader.cpp: `file_downloader`, `download_segment_task`, `write_segment_task`
--               with the end of a download and the failures of its calls (Finish)
--   Mimes       es3/mimes.cpp: `init_mimes` with all its lines, `find_mime`
--   Sync        es3/sync.cpp on the trees of es3/connection.h: `build_local_dir` (Local),
--               `check_included`, `merge_to_left`, `delete_possibly_recursive`, `process_upload`,
--               `process_downloads`; Schedule: the listing tasks and `create_schedule`;
--               Publishing, Printing: the tasks that publish and list files
--   Paths       es3/connection.h, es3/connection.cpp: `parse_path` and its `operator <<`
--   Connection  es3/connection.h, es3/connection.cpp: Requests (`prepare`, `authenticate_req`,
--               `read_fully`, `check_for_errors`), Headers (`find_header`, `find_mtime_and_size`),
--               Listing (`list_files_shallow`), Callbacks (`buf_data`, `write_data`), Transfers
--               (`upload_data`, `download_data`, the calls of a multipart upload); Xml is the
--               interface of the parser
--   Commands    es3/commands.cpp: `do_rsync`, `do_rm`, `do_publish`, `do_lsr`, `do_mass_rm`,
--               `get_size`; Objects: `do_test`, `do_touch`, `do_du`, `do_ls`; Cat: `do_cat` of
--               es3/downloader.cpp
--   Options     es3/main.cpp: the limits on the options, `subcommands_parser`, the exit codes
--   Tests       runs on concrete inputs, and an instance of each result that has conditions
--
-- A record stands for an object's fields, and a function on it for a method; what the source throws is
-- a value of a result type. A `std::map` is a list in the order of its keys. Bytes are numbers, and
-- machine words wrap where the source's can (`total_size`, `add_stat_counter`). The lock of the agenda
-- makes each call of its methods one step of a relation, in any order.
--
-- Fuel: the pattern search takes the pattern's length plus one, and the loop that schedules the pumps
-- takes the number of segments: a turn of the search uses up a character of the pattern, and a round
-- of the loop that moves on covers a segment. A listing by pages takes fuel for its rounds, and one more
-- than there are names is enough; the digits of a number take the number itself. The loops over zlib
-- take one turn more than the bytes that can come out of a block, or the bytes read and written; the
-- listing of a tree takes the number of its directories.
--
-- Code outside the repository is a parameter: the record `Environment` of Connection.Requests holds
-- curl, the clock, HMAC and the XML parser, the record `Zlib` of Compress.Zlib holds the streams, whose
-- documented behaviour the records `Deflates` and `Inflates` state, and the record `Machine` of Commands
-- is the interface of the synchronizer and the agenda.
--
-- Not modelled: curl, the XML parser, zlib and the option parser themselves (libraries); logging and
-- backtraces; the failures of `remove_all` and of the call that makes the temporary file of a download;
-- and es3/scope_guard.h, which is a generic helper.
pub mod Base
pub mod Errors
pub mod Common
pub mod Base64
pub mod Glob
pub mod Agenda
pub mod Segments
pub mod Upload
pub mod Context
pub mod Compress
pub mod Download
pub mod Mimes
pub mod Sync
pub mod Paths
pub mod Connection
pub mod Commands
pub mod Options
pub mod Tests
