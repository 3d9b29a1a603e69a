-- ===== src/Tcp/Echo.antt =====
-- examples/tcp_echo/main.cpp: a server that sends back what it receives. `spdlog` is left out.
pub mod Session
pub mod Tests
use cppsocks.Base.{ℕ, List}
use cppsocks.Base.Outcome.{Result}
use cppsocks.Base.Effect.{M, return, recover, ◌>>=◌, ◌>>◌}
use cppsocks.Tcp.Connection.{Net, World, send, is_closed}
use cppsocks.Tcp.Worker.{ServerHandler}
use cppsocks.Tcp.Server.{default_options, Server, Tick, idle_server, serve}

-- `EchoHandler`.
unfoldable pub echo_handler : Net → ServerHandler World
unfolding is_closed
echo_handler net = record {
  on_connect = return tt;
  on_disconnect = return tt;
  on_receive = λ buf len. send net buf len >> return tt;
  is_closed = is_closed;
}

-- `main`: `EXIT_SUCCESS` is 0 and `EXIT_FAILURE` is 1.
unfoldable pub main : Result (Unit {0}) → List Tick → Result ℕ × Server
main listening ts =
    recover ((serve default_options listening ts >> return 0) idle_server) (λ exc. return 1)
