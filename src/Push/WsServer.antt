-- ===== src/Push/WsServer.antt =====
-- examples/ws_push as a whole: its main function, and its sessions, which share the manager. Each
-- client's `WsPushHandler` stands behind the states of its connection.
pub mod Client
pub mod Calls
pub mod Deeds
pub mod Runs
pub mod Members
pub mod Outbox
pub mod Delivers
pub mod Tests
use cppsocks.Base.{ℕ, ◌==◌, if◌then◌else◌, List, [], ◌∷◌, ◌++◌, length}
use cppsocks.Base.Outcome.{Result, ok}
use cppsocks.Base.Effect.{M}
use cppsocks.Tcp.Connection.{Net}
use cppsocks.Tcp.Server.{Tick, Server}
use cppsocks.Tcp.Worker.{ServerHandler}
use cppsocks.Http.Ws.{Crypto, WsHandlerOn}
use cppsocks.Http.States.{HttpSessionOn, new_session}
use cppsocks.Http.Server.{http_handler_null, default_options, ServiceOn, serve}
use cppsocks.Http.Server.Examples.{run_main}
use cppsocks.Push.{Hub, connection_of, elem_push, ws_push_handler, joined_with}

-- `WsPushHandlerFactory`, by the connection that it is given.
unfoldable pub create_push_handler : (ℕ → Net) → ℕ → WsHandlerOn Hub
create_push_handler nets i = ws_push_handler nets i

-- The call of `Server::serve`, for the `i`-th connection.
unfoldable pub ws_push_service : (ℕ → Net) → Crypto → ℕ → ServiceOn Hub
unfolding create_push_handler
ws_push_service nets crypto i =
    serve ⦃holder = connection_of i⦄ (nets i) crypto http_handler_null (create_push_handler nets i)
      default_options

-- `main`, with what has become of the pusher.
unfoldable pub ws_push_main :
    (ℕ → Net) → Crypto → ℕ → Result (Unit {0}) → Result (Unit {0}) → List Tick → Result ℕ × Server
ws_push_main nets crypto i pusher listening ts =
    joined_with pusher (run_main (ws_push_service nets crypto i) listening ts)

-- What is a session's own, beside the manager and the connections.
abbrev pub Own : Type 0
Own = HttpSessionOn (Unit {0})

abbrev pub with_hub : Own → Hub → HttpSessionOn Hub
with_hub s h = record {
  world = h;
  request_info = s.request_info;
  cur_state = s.cur_state;
  next_state = s.next_state;
}

abbrev pub own : HttpSessionOn Hub → Own
own s = record {
  world = tt;
  request_info = s.request_info;
  cur_state = s.cur_state;
  next_state = s.next_state;
}

-- All sessions.
pub record Site : Type 0 where
  pub hub : Hub
  pub sessions : ℕ → Own

abbrev pub put_at : {A : Type 0} → ℕ → A → (ℕ → A) → ℕ → A
put_at i a f j = if i == j then a else f j

abbrev pub on_hub : M Hub (Unit {0}) → M Site (Unit {0})
on_hub m site = let (r, h) = m site.hub in (r, record site { hub = h })

-- A call of the handler of connection `i`.
abbrev pub in_session : ℕ → M (HttpSessionOn Hub) (Unit {0}) → M Site (Unit {0})
in_session i m site =
    let (r, s) = m (with_hub (site.sessions i) site.hub) in
    (r, record { hub = s.world; sessions = put_at i (own s) site.sessions })

-- What the threads call: `onReceive` with bytes, of which a worker's `MsgBuf` brings 4096 at most,
-- and the memory behind them, and `onDisconnect`, both in a worker, and `push` of a text in the
-- pusher. Each call is one step; a push that comes between the writes of a handler's answer is not
-- modelled.
pub data Call : Type 0 where
  chunk : ℕ → List ℕ → List ℕ → Call
  disconnect : ℕ → Call
  push : List ℕ → Call

module _ (nets : ℕ → Net) (crypto : Crypto) where
  abbrev pub site_call : Call → M Site (Unit {0})
  site_call (chunk i bytes after) =
      in_session i
        ((ws_push_service nets crypto i).handler.on_receive (bytes ++ after) (length bytes))
  site_call (disconnect i) = in_session i (ws_push_service nets crypto i).handler.on_disconnect
  site_call (push text) = on_hub (elem_push nets (text ++ (0 ∷ [])))

-- Every session as its worker starts it.
abbrev pub new_site : Hub → Site
new_site h = record { hub = h; sessions = λ i. new_session tt }
