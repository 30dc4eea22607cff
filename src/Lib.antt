-- ===== src/Lib.antt =====
-- gweb++: an asynchronous event-driven web server and reverse proxy (C++).
--
-- The parts modelled are the parsers that a byte of the network reaches first, and the data that they
-- fill. A request line is split into a URL, whose path `net/url_parser.cpp` normalises before it names a file; a `Range` header goes
-- through `http/range_parser.cpp` for the size of that file; a chunked body, of a client or of a backend,
-- goes through `http/chunked_parser.cpp`, piece by piece; and header values that are numbers go through
-- `util/number.cpp`.
--
-- Files:
--   Base       helpers that the parts share: Boolean tests, lists over the native numbers, `off_t` with
--              its wrap-around, decimal values, and loops on fuel with their rules (`Base.Loops`).
--   UrlPath    net/url_parser.{h,cpp}: `url_parser::parse_path`. The data and the ways back over a segment
--              are in UrlPath, the six states, the loop and the call in UrlPath.Machine.
--   Chunked    http/chunked_parser.{h,cpp}: `chunked_parser::parse_chunk`, with `add_chunked_data`, which
--              the connections implement, as a parameter over a state of their own.
--   Range      http/range_parser.{h,cpp} and util/range_list.{h,cpp}: `range_parser::parse` and the list
--              that it fills, with the success of `realloc` as a parameter.
--   Number     util/number.{h,cpp}: `length`, `parse_unsigned`, `parse_size_t` and `parse_off_t`.
--   NameSearch the binary search for a name that net/scheme.cpp, http/http_method.cpp and
--              http/http_headers.cpp all make, with `strncasecmp` and `strncmp` of the C library written out.
--   Scheme     net/scheme.{h,cpp}: the table of schemes and `get_scheme`.
--   Method     http/http_method.{h,cpp}: the table of methods and both `get_method`.
--   Headers    http/http_headers.{h,cpp}: the table of known headers and `get_header` (Headers.Table), the
--              list of headers with its data (Headers.Store), and the calls that add to it, remove from
--              it and read it (Headers.Store.Change). `add_key` is `add_known_header` and
--              `add_unknown_header`, `remove_key` and `get_key` their counterparts; Headers.Store.View
--              has the list of fields that they work on, with `put`, `delete` and `get`. Headers.Parse is
--              `http_headers::parse`, a round of whose switch is `step`; it adds fields with `add_key`.
--   Url        net/url_parser.cpp: `url_parser::parse`, which calls `get_scheme` and `parse_path`.
--   Buffer     string/buffer.{h,cpp}: `allocate` and the appends, over the bytes behind `_M_data`.
--   Encoders   net/url_encoder.{h,cpp} and html/html_encoder.{h,cpp}: both `encode`, which write to a buffer.
--   Date       util/date_parser.{h,cpp}: `date_parser::parse` and its helpers; and the date that
--              http/http_headers.cpp writes, with the tables of constants/months_and_days.cpp (Date.Text).
--   FdMap      net/fdmap.{h,cpp}: the set of descriptors of a selector, as its two arrays.
--   Utf8       string/utf8.{h,cpp}: both `length`, which count the characters of a text.
--   Fastcgi    http/fastcgi.{h,cpp}: the records of the protocol. The reader of those that come in, `process`
--              and `decode_name_value_pairs`, is in Fastcgi, with the virtual functions as parameters; Fastcgi.Pairs
--              has `name_value_pairs` and `params`, and Fastcgi.Stream the streams that are sent.
--   SortedList util/string_list.{h,cpp}, with the sorted list that util/pathlist.cpp and mime/mime_types.cpp keep in
--              the same way: the search (SortedList), its order and its result (SortedList.Order and
--              SortedList.Place), and `add` (SortedList.Insert).
--   PathList   util/pathlist.{h,cpp}: `pathlist::add` and `pathlist::exists`.
--   Rules      http/rulelist.{h,cpp}: `rule::match`, and the list of rules with `find`.
--   Backends   http/backend_list.{h,cpp}: `connect`, which takes the backends in turn.
--   MimeTypes  mime/mime_types.{h,cpp}: `get_mime_type`, and what `load` does with a line of the file.
--
-- Integers are the native natural numbers, with the wrap-around of `unsigned short`, `unsigned`, `size_t`
-- and `off_t` written out where a value can reach it. A signed overflow, which C++ leaves undefined, wraps
-- around, as the source's own tests for overflow suppose.
--
-- Loops that read a byte at a time are recursions on the list of bytes. Those that look at a byte again run
-- on fuel: the two of `parse_chunk` and `parse_path` are given twice the number of bytes and two
-- more, since a round takes a byte, or leaves it to a state that takes it; the loop of
-- `number::length` is given 19 rounds and makes at most 18; and the search for a name is given one more
-- than the table has names, as is that in a sorted list. A record of FastCGI and a pair of names take bytes,
-- so their loops are given one round more than there are bytes; `pathlist::exists` goes on in the path with each round;
-- and `backend_list::connect` takes a backend at most once.
--
-- Not modelled: the connections (the client's, the proxy's and FastCGI's) and their state machines, the printer of
-- a block of headers, the configuration and its XML parser, the lists of files and of virtual hosts,
-- and what is I/O (sockets, selectors, files, logs).
pub mod Backends
pub mod Base
pub mod Buffer
pub mod Chunked
pub mod Date
pub mod Encoders
pub mod Fastcgi
pub mod FdMap
pub mod Headers
pub mod Method
pub mod MimeTypes
pub mod NameSearch
pub mod Number
pub mod PathList
pub mod Range
pub mod Rules
pub mod Scheme
pub mod SortedList
pub mod Url
pub mod UrlPath
pub mod Utf8
