-- ===== src/Lib.antt =====
-- cppsocks: a C++ library for TCP, HTTP and WebSocket servers. The development models the code
-- under src/, and from examples/ the POSIX sockets and the servers.
--
-- The parts and how they interact. `Tcp::Server::serve` accepts clients and gives each a
-- `ClientWorker` with a thread of its own. The worker reads from the socket and hands the bytes to
-- a `ServerHandler`; the handler answers through its `Connection`. The HTTP server's handler is a
-- state machine: `HttpInitState` collects the request, `HttpGetState` has a file served and closes
-- the connection, `HttpWsState` answers the WebSocket handshake and then exchanges frames.
--
-- Which file models what, with the source's files and functions:
--   Base           lists, numbers, bytes and memory, texts, outcomes, code with a state
--   ByteOrder      src/tcp/socks_tcp_util.hpp: ntoh, hton
--   Frame          src/http/socks_ws_frame.*: the constructors of WebSocketFrame are `make`,
--                  `make_binary` and `make_text`; createConnectionClose, createPong, decode,
--                  payload, payloadLength, fin and mask keep their names. Frame/Wire is the
--                  format of RFC 6455, independent of the code
--   Tcp/Connection src/tcp/socks_tcp_handler.hpp: Connection::send, close, isClosed
--   Tcp/Worker     src/tcp/socks_tcp_worker.*: ClientWorker::run and loop; Tcp/Worker/Sessions
--                  is what a client's chunks are to a handler behind the loop
--   Tcp/Server     src/tcp/socks_tcp.cpp, socks_tcp_options.hpp: Server::serve and cleanup;
--                  Tcp/Server/System has the server's and the workers' threads in any order
--   Tcp/Echo       examples/tcp_echo/main.cpp
--   Http/Request   src/http/socks_http_handler.*: RequestInfo::parse and the header map
--   Http/Response  the same files: HttpConnection
--   Http/Files     the same files: HttpFileHandler::do_GET
--   Http/Ws        src/http/socks_ws_handler.*, socks_http_states_ws.*: WsConnection, WsHandler
--                  and HttpWsState; examples/ws_echo/main.cpp: WsEchoHandler
--   Http/States    src/http/socks_http_states.*, socks_http.cpp: the states and TcpServerHandler
--   Http/Server    src/http/socks_http.hpp, the end of socks_http.cpp, the factories and the null
--                  handlers: Server::serve and its overloads; examples/http_simple,
--                  examples/http_server and the main function of examples/ws_echo
--   Push           examples/tcp_push, examples/ws_push: the managers of connections, the
--                  handlers, pusherRunner and main. Push/WsServer has the sessions of all
--                  clients of ws_push on one manager, through the states of each connection
--   Posix          examples/system_context/: sockets over the POSIX calls, and the quit condition.
--                  Posix/Host is the process of an example program: main, `Server::serve` over
--                  those sockets, signals, which descriptors are open, and the exit code
--
-- How code becomes definitions. A `std::vector`, an array and the memory behind a pointer are
-- lists of bytes; a read or write outside of one is the outcome `fault`, which no `catch` stops.
-- Exceptions are outcomes, `thrown` with the class that matters to a handler. Code with effects
-- maps a state to an outcome and a state, which is there after an exception too. `std::size_t`
-- wraps at 2 ^ 64 where the code adds to it. An exception that leaves a thread's function, or that
-- destroys a thread that was not joined, is the outcome `terminated`. Where several connections
-- share a manager, they are a function from a number to a connection, and the number is the place of
-- the connection's address in the order of the addresses. The code of the HTTP library is stated
-- for any state that its connection is part of (`Holder` of Tcp/Connection): the connection alone,
-- or one of those of a manager. Types for such a state end in `On`.
--
-- Bounds and schedules. A socket is its answers: `Net.answer` gives what the i-th write of n bytes
-- returns, and `Net.rounds` is the number of rounds of one `send` that the model follows; the
-- theorems ask for more rounds than bytes, which is enough for a socket that takes a byte at
-- least. A worker's loop and the server's loop run over a list of what each round finds, and are
-- still running when the list ends. The loop that writes a file has one round more than the file
-- has bytes. The loops over `fcntl` run over the list of its answers.
--
-- Not modelled: logging; threads other than as the order of their steps. In Tcp/Server/System a round
-- of the server is one step, and so is a worker's run up to where it puts `_isActive` down. In Push
-- and Push/WsServer a call of a handler and a push are one step each: the managers' mutexes see to that
-- for a push and for changes of the manager's set, but a handler sends its answers without them, and a
-- push that comes between the writes of one answer is left out. In Posix/Host a round of the server
-- and the end of a worker are one step each. A `join` of a thread that never ends is the outcome
-- `blocked`. Behind a `fault` a state says nothing. SHA-1 and base64 come from libraries and are the parameter `Crypto`; the file system is
-- the parameter `FileSystem`.
mod Base
pub mod ByteOrder
pub mod Frame
pub mod Tcp
pub mod Http
pub mod Posix
pub mod Push
