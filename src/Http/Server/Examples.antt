-- ===== src/Http/Server/Examples.antt =====
-- examples/http_simple/main.cpp, examples/http_server/main.cpp and examples/ws_echo/main.cpp: three
-- servers. `spdlog` is left out, but what an argument of its calls does is not.
use cppsocks.Base.{ℕ, none, some, List, length}
use cppsocks.Base.Bytes.{codes}
use cppsocks.Base.Text.{Text}
use cppsocks.Base.Outcome.{Result, out_of_range}
use cppsocks.Base.Effect.{return, raise, recover, ◌>>◌}
use cppsocks.Tcp.Connection.{connection_alone, Net}
use cppsocks.Tcp.Server.{Tick, Server, idle_server}
use cppsocks.Http.Request.{find}
use cppsocks.Http.Response.{http_200, write}
use cppsocks.Http.Files.{FileSystem}
use cppsocks.Http.Ws.{Crypto, ws_echo_handler}
use cppsocks.Http.Server.{
  HttpHandlerFactory, http_handler_null, default_options, ServiceOn, serve, serve_clients,
  serve_http, serve_files,
}

abbrev pub greeting : Text
greeting = codes "Hello, World!\r\n"

-- `SimpleServerHandler::do_GET`: the line that logs the host throws where there is none.
unfoldable pub simple_do_get : Net → HttpHandlerFactory
simple_do_get net request_info = elim (find (codes "Host") request_info.headers) [
  | none ↦ raise out_of_range
  | some host ↦ (do http_200 net (some (length greeting)); write net greeting (length greeting))
]

-- The body that the `main` functions share: `EXIT_SUCCESS` is 0 and `EXIT_FAILURE` is 1.
unfoldable pub run_main :
    {S : Type 0} → ServiceOn S → Result (Unit {0}) → List Tick → Result ℕ × Server
run_main service listening ts =
    recover ((serve_clients service listening ts >> return 0) idle_server) (λ exc. return 1)

module _ (net : Net) (crypto : Crypto) (listening : Result (Unit {0})) (ts : List Tick) where
  unfoldable pub http_simple_main : Result ℕ × Server
  unfolding run_main
  http_simple_main =
      run_main (serve_http net crypto (simple_do_get net) default_options) listening ts

  unfoldable pub http_server_main : FileSystem → Result ℕ × Server
  unfolding run_main
  http_server_main fs =
      run_main (serve_files net crypto fs (codes "/tmp") default_options) listening ts

  unfoldable pub ws_echo_main : Result ℕ × Server
  unfolding run_main
  ws_echo_main =
      run_main (serve net crypto http_handler_null (ws_echo_handler net) default_options) listening
        ts
