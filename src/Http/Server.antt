-- ===== src/Http/Server.antt =====
-- http/socks_http.hpp, the end of http/socks_http.cpp, and the factories of
-- http/socks_http_handler.hpp and http/socks_ws_handler.hpp: how an HTTP server is put together.
-- A factory is given by what the handlers that it creates do.
pub mod Examples
pub mod Exits
pub mod Sessions
pub mod Echo
pub mod Shared
pub mod Tests
use cppsocks.Base.{ℕ, List}
use cppsocks.Base.Text.{Text}
use cppsocks.Base.Outcome.{Result}
use cppsocks.Base.Effect.{M, return}
use cppsocks.Tcp.Connection.{Net, World, Holder, connection_alone}
use cppsocks.Tcp.Worker.{ServerHandler}
use cppsocks.Tcp.Server
use cppsocks.Tcp.Server.{Tick}
use cppsocks.Http.Request.{RequestInfo}
use cppsocks.Http.Files.{FileSystem, do_get}
use cppsocks.Http.Ws.{WsHandler, WsHandlerOn, ws_handler_null, ws_close, Crypto}
use cppsocks.Http.States.{HandlersOn, HttpSessionOn, tcp_server_handler}

abbrev pub HttpHandlerFactoryOn : Type 0 → Type 0
HttpHandlerFactoryOn S = RequestInfo → M S (Unit {0})

abbrev pub HttpHandlerFactory : Type 0
HttpHandlerFactory = HttpHandlerFactoryOn World

abbrev pub WsHandlerFactory : Type 0
WsHandlerFactory = WsHandler

-- `HttpHandlerNull` and its factory.
unfoldable pub http_handler_null : {S : Type 0} → HttpHandlerFactoryOn S
http_handler_null request_info = return tt

-- `HttpFileHandlerFactory`, which hands `basePath` to a handler that does not read it.
unfoldable pub file_handler_factory : Net → FileSystem → Text → HttpHandlerFactory
file_handler_factory net fs base_path = do_get net fs

-- `WsHandlerNullFactory` of a process, by the connection that its one `static` handler was created
-- with: here the one of `net`, which is the session's own in a process whose first session it is.
-- Several sessions with that handler are in Server/Shared.
unfoldable pub ws_handler_null_factory : Net → WsHandlerFactory
ws_handler_null_factory net = ws_handler_null (ws_close net)

pub record ServerOptions : Type 0 where
  pub port : ℕ
  pub max_clients : ℕ

abbrev pub default_options : ServerOptions
default_options = record { port = 8080; max_clients = 2 }

-- What `TcpServerHandlerFactory` creates.
unfoldable pub create_server_handler :
    {S : Type 0} ⦃holder : Holder S⦄
    → Net
    → Crypto
    → HttpHandlerFactoryOn S
    → WsHandlerOn S
    → ServerHandler (HttpSessionOn S)
create_server_handler net crypto http ws =
    tcp_server_handler net (record { do_get = http; ws_handler = ws; crypto = crypto })

-- `Server::serve` up to the call of `Tcp::Server::serve`: its handlers and its options.
pub record ServiceOn (S : Type 0) : Type 0 where
  pub handler : ServerHandler (HttpSessionOn S)
  pub tcp_options : Server.ServerOptions

abbrev pub Service : Type 0
Service = ServiceOn World

unfoldable pub serve :
    {S : Type 0} ⦃holder : Holder S⦄
    → Net
    → Crypto
    → HttpHandlerFactoryOn S
    → WsHandlerOn S
    → ServerOptions
    → ServiceOn S
unfolding create_server_handler
serve net crypto http ws options = record {
  handler = create_server_handler net crypto http ws;
  tcp_options = record { server_port = options.port; max_clients = options.max_clients };
}

-- That call.
unfoldable pub serve_clients :
    {S : Type 0} → ServiceOn S → Result (Unit {0}) → List Tick → M Server.Server (Unit {0})
serve_clients service listening ts = Server.serve service.tcp_options listening ts

-- The overloads that leave handlers out.
module _ (net : Net) (crypto : Crypto) where
  unfoldable pub serve_files_and_ws : FileSystem → WsHandlerFactory → Text → ServerOptions → Service
  serve_files_and_ws fs ws base_path options =
      serve net crypto (file_handler_factory net fs base_path) ws options

  unfoldable pub serve_http : HttpHandlerFactory → ServerOptions → Service
  serve_http http options = serve net crypto http (ws_handler_null_factory net) options

  unfoldable pub serve_files : FileSystem → Text → ServerOptions → Service
  serve_files fs base_path options =
      serve net crypto (file_handler_factory net fs base_path) (ws_handler_null_factory net) options
