-- ===== src/Lib.antt =====
-- SimplyNodeFramework: what its protocol and core classes do.
--
-- The program is a C++ framework of nodes that talk by signals. The parts modelled here are those
-- that decide something about bytes or about state:
--
--   WebSocket/Frame.antt        lib/WebSocket/src/SNFWebSocket/WebSocketFrame.h, WebSocketFrame.cpp
--   WebSocket/Session.antt      lib/WebSocket/src/SNFWebSocket/WebSocketImplNative.cpp, the State of
--                               WebSocket.h
--   Http/Request.antt           lib/HttpServer/src/SNFHttpServer/HttpRequest.h, HttpRequest.cpp
--   Http/RequestParser.antt     lib/HttpServer/src/SNFHttpServer/HttpRequestParser.h,
--                               HttpRequestParser.cpp
--   Core/IniParser.antt, Core/IniParser/Text.antt, Core/IniParser/Files.antt
--                               lib/Core/src/SNFCore/IniParser.h, IniParser.cpp
--   Core/WorkerSelection.antt   lib/Core/src/SNFCore/WorkerSelectionPolicy.h,
--                               WorkerSelectionPolicy.cpp
--   Http/Response.antt          lib/HttpServer/src/SNFHttpServer/HttpResponse.h, HttpResponse.cpp
--   Core/TaskPool.antt          lib/Core/src/SNFCore/TaskPool.h, TaskPool.cpp, Strand.h, Strand.cpp
--   Core/TimerService.antt      lib/Core/src/SNFCore/TimerService.h, TimerService.cpp
--   Core/Timer.antt             lib/Core/src/SNFCore/Timer.h, Timer.cpp
--   Core/IoService.antt         lib/Core/src/SNFCore/IoService.h, IoService.cpp
--   Core/CommandLine.antt       lib/Core/src/SNFCore/CommandLineOption.h, CommandLineOption.cpp,
--                               CommandLineParser.h, CommandLineParser.cpp
--   Http/Server.antt            lib/HttpServer/src/SNFHttpServer/HttpServer.h, HttpServer.cpp
--   WebSocket/Base64.antt, WebSocket/Sha1.antt, WebSocket/Handshake.antt
--                               lib/WebSocket/src/SNFWebSocket/WebSocketHandshake.h,
--                               WebSocketHandshake.cpp
--   Network/TcpSocket.antt      lib/Network/src/SNFNetwork/TcpSocket.h, TcpSocket.cpp
--   Snmp/Oid.antt               lib/Snmp/src/SNFSnmp/SnmpOid.h, SnmpOid.cpp
--
-- The modules below each of these hold its proofs, one for each thing that is proved, and its
-- tests. Prelude holds what they share: bytes as numbers, lists measured by native numbers,
-- `std::map` as an association list in key order, and what is used of <cctype>,
-- `std::istringstream` and `std::stoul`.
--
-- WebSocket. `Frame.feed` is `WebSocketFrameParser::feed` and `try_parse_one` is `tryParseOne`; a
-- parse wants more bytes, fails, or gives a frame and the number of its bytes. `encode_frame` is
-- `encodeFrame`; the random masking key is its argument. A `Session` is a WebSocketImplNative with
-- the log of what it did: what it wrote to its socket and which signals it emitted. One function
-- stands for each method: `send_frame`, `close_session` (`close`), `ping_peer` (`ping`),
-- `connect_to_host`, `process_frame`, `handle_tcp_ready_read` and so on. A session reads through a
-- frame parser, as the program does. `step` is one call of the owner or one signal of the socket;
-- `run` is any sequence of them. What the socket and the handshake answer is the record `World`.
-- The handshake is modelled by itself: `build_client_request`, `build_server_response`,
-- `validate_server_response` and `validate_client_request` are the functions of
-- WebSocketHandshake.cpp, `update` and `final` the methods of its class `Sha1`, and the random
-- bytes of a key are an argument. Sha1/Standard is no code of the program: it is SHA-1, written down
-- from RFC 3174 for `Sha1` to be compared with.
--
-- HTTP. `feed`, `parse`, `reset` are the methods of HttpRequestParser; `parse_request_line`,
-- `parse_headers`, `parse_body` are `_parseRequestLine`, `_parseHeaders`, `_parseBody`.
-- `serialize` is the method of HttpResponse, `plain` its `text`, `guess_content_type` its
-- `_guessContentType`. A `Server` is an HttpServer: `respond` is the choice of a response in
-- `_onSocketReadyRead`, `on_ready_read`, `on_bytes_written` and `close_socket` are its listeners.
-- A server reads through a request parser and writes what `serialize` gives. Response/Read is no
-- code of the program: it is a reader of HTTP messages, for what `serialize` gives.
--
-- INI store. `set_value`, `remove`, `remove_section`, `load_from_string`, `to_string` and the
-- others are the methods of IniParser; `put`, `cut`, `track`, `untrack` are the steps that they
-- share. A file is an argument: what is read from it, or that it does not open.
--
-- Task pool. A `System` is a TaskPool with one of its Strands and the calls of `schedule` that are
-- under way. Each operation is what one thread does under one lock, and `Steps` are any turns of
-- the threads: `push` and `schedule` for `Strand::post`, `take_job` and `end_job` for
-- `workerLoop`, `drain_round` and `end_drain` for `Strand::drain`, `stop`, `join` and `retire` for
-- `shutdown`.
--
-- Timer service. `schedule`, `cancel` and `stop` are the methods of TimerService, and `run_round`
-- is a round of its thread at a time of the clock. A `Timer` is the class of this name; its
-- `System` has it with its strand, its service and the timeouts that are posted. `start`,
-- `start_with`, `stop_timer`, `set_interval`, `move_to`, `dispatch_timeout` are the methods `start`,
-- `stop`, `setInterval`, the two hooks of a move, and `dispatchTimeout`; `run` is any sequence of
-- them, of other timers' calls and of the turns of the service and the strands.
--
-- I/O service. `register_io`, `modify_io`, `unregister_io`, `stop` and `mark_handled` are the
-- methods of IoService, `wait` and `run_round` the two halves of a round of its thread. `Steps`
-- are any turns of them, and a callback that is finished is handled wherever it stands in line.
--
-- Command line. `add_option`, `parse`, `value_of`, `is_set_of` and `help_text` are the methods of
-- CommandLineParser; `step` is a round of the loop of `parse`.
--
-- SNMP. `from_dotted` and `to_string` are the constructor from a text and `toString` of SnmpOid.
--
-- Network. A `TcpSocket` is the class of this name with its write queue, its read buffer and the
-- signals it has emitted. `write`, `read_all`, `handle_events`, `connect_to_host` and `adopt`
-- (`adoptConnectedDescriptor`) are its methods on the thread of its owner, and `flush` is
-- `flushPendingWrites`. What send, recv, connect and getsockopt answer is an argument. Behind the
-- listed answers of send and recv, a call would block.
--
-- Bounds and fuel. `size_t`, `unsigned long` and `uint64_t` have 64 bits, `int` and the words of
-- SHA-1 have 32. Where a sum can wrap, the wrap is written out (`chunk_span`, `word`). These loops
-- take fuel. `drain` of the frame parser takes at least two bytes in each round, `parse_headers`
-- and `parse_chunks` take at least the two bytes of a line end, and `drain` and `process_all` of
-- SHA-1 take 64 bytes where there are any; each starts with no less fuel than its buffer has
-- bytes. `decimal_on` divides a number by ten in each round and starts with more fuel than the
-- number. `read_fields` starts with as many rounds as the text has bytes, of which each line takes
-- two. The time of the clock, the intervals of timers and the registrations of the I/O service,
-- which are 64-bit numbers, are taken to stay below their bounds. `pad_zeros` starts with 64
-- rounds, and the size it looks for comes within 63.
--
-- Not modelled: the servers and the sockets for datagrams, files, the event loop and the widgets,
-- which are calls of the operating system or of a graphics library; the signals that IOEvent emits
-- beside those of a TcpSocket; WebSocketServer and the session's use of the handshake; `listen` and
-- `close` of the HTTP server; the SNMP sessions, the database and JSON parts, which mostly call other
-- libraries. `doubleValue` of the INI store hands its text to `strtod` and is left out.
pub mod Core
pub mod Http
pub mod Network
pub mod Prelude
pub mod Snmp
pub mod WebSocket
