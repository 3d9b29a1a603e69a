-- ===== src/Http/States.antt =====
-- http/socks_http_states.hpp, http/socks_http_states.cpp and http/socks_http.cpp: the state
-- machine of a connection, and `TcpServerHandler`, which runs it.
-- `spdlog` is left out. A state object is its data; the context's calls act on the session.
pub mod Step
pub mod Requests
pub mod Answers
pub mod Transitions
pub mod Session
pub mod Tests
use cppsocks.Base.{ℕ, ◌+◌, ◌-◌, Bool, true, false, not, Option, none, some, List, [], ◌∷◌}
use cppsocks.Base.{length, replicate, ltb, if◌then◌else◌}
use cppsocks.Base.Bytes.{codes, load_n, store, store_n, text_eq}
use cppsocks.Base.Outcome.{Result, ok, err, fault, runtime_error}
use cppsocks.Base.Effect.{M, return, raise, lift, recover, ◌>>=◌, ◌>>◌}
use cppsocks.Tcp.Connection.{Net, World, Holder, connection_alone, close}
use cppsocks.Tcp.Worker.{ServerHandler}
use cppsocks.Http.Request.{RequestType, undefined, get, get_ws, RequestInfo, no_request, parse}
use cppsocks.Http.Ws.{
  WsHandlerOn, Crypto, WsState, WsSessionOn, fresh_ws_state, ws_on_enter, ws_on_receive,
  ws_on_disconnect,
}

-- The application's handlers, and the libraries that the handshake calls.
pub record HandlersOn (S : Type 0) : Type 0 where
  pub do_get : RequestInfo → M S (Unit {0})
  pub ws_handler : WsHandlerOn S
  pub crypto : Crypto

abbrev pub Handlers : Type 0
Handlers = HandlersOn World

-- `HttpInitState` with `recvBuf` and `numRecv`, `HttpGetState`, `HttpWsState`.
pub data HttpState : Type 0 where
  init_state : List ℕ → ℕ → HttpState
  get_state : HttpState
  ws_state : WsState → HttpState

-- The members of `TcpServerHandler`.
pub record HttpSessionOn (S : Type 0) : Type 0 where
  pub world : S
  pub request_info : RequestInfo
  pub cur_state : HttpState
  pub next_state : Option HttpState

abbrev pub HttpSession : Type 0
HttpSession = HttpSessionOn World

-- The size of `recvBuf`.
abbrev pub recv_size : ℕ
recv_size = 4096

abbrev pub new_session : {S : Type 0} → S → HttpSessionOn S
new_session w = record {
  world = w;
  request_info = no_request;
  cur_state = init_state (replicate recv_size 0) 0;
  next_state = none;
}

abbrev pub on_tcp : {S : Type 0} → M S (Unit {0}) → M (HttpSessionOn S) (Unit {0})
on_tcp m s = let (r, w) = m s.world in (r, record s { world = w })

abbrev pub on_request_info :
    {S : Type 0} → M RequestInfo (Unit {0}) → M (HttpSessionOn S) (Unit {0})
on_request_info m s = let (r, info) = m s.request_info in (r, record s { request_info = info })

abbrev pub set_cur_state : {S : Type 0} → HttpState → M (HttpSessionOn S) (Unit {0})
set_cur_state state s = (ok tt, record s { cur_state = state })

pub not_terminator : Result (List ℕ) → Result Bool
not_terminator (ok tail) = ok (not (text_eq tail (codes "\r\n\r\n")))
not_terminator (err e) = err e

-- The test for the end of the request: `numRecv < recvBuf.size() && memcmp(...)`.
pub incomplete : List ℕ → ℕ → Result Bool
unfolding not_terminator
incomplete recv_buf num_recv =
    if ltb num_recv recv_size
    then (if ltb num_recv 4 then err fault else not_terminator (load_n recv_buf (num_recv - 4) 4))
    else ok false

-- `HttpWsState::onReceive` on the session's connection.
pub on_ws : {S : Type 0} → M (WsSessionOn S) (Unit {0}) → WsState → M (HttpSessionOn S) (Unit {0})
on_ws m state s =
    let (r, after) = m (record { ws = state; world = s.world }) in
    (r, record s { world = after.world; cur_state = ws_state after.ws })

module _ {S : Type 0} ⦃holder : Holder S⦄ (net : Net) (handlers : HandlersOn S) where
  pub on_enter : HttpState → M (HttpSessionOn S) (Unit {0})
  on_enter (init_state recv_buf num_recv) s = raise runtime_error s
  on_enter get_state s = on_tcp (handlers.do_get s.request_info >> holder.call (Unit {0}) close) s
  on_enter (ws_state state) s =
      on_tcp (ws_on_enter net handlers.ws_handler handlers.crypto s.request_info.headers) s

  pub set_next_state : HttpState → M (HttpSessionOn S) (Unit {0})
  unfolding on_enter
  set_next_state state = on_enter state >> λ s. (ok tt, record s { next_state = some state })

  -- The tests of the request's type, and `close` where there is none.
  pub take_request : RequestType → M (HttpSessionOn S) (Unit {0})
  unfolding set_next_state
  take_request get = set_next_state get_state
  take_request get_ws = set_next_state (ws_state fresh_ws_state)
  take_request undefined = on_tcp (holder.call (Unit {0}) close)

  -- From the NUL behind the buffer's last byte on.
  pub on_request : List ℕ → ℕ → M (HttpSessionOn S) (Unit {0})
  unfolding take_request
  on_request recv_buf num_recv = do
    data_ ← lift (store recv_buf (recv_size - 1) 0)
    set_cur_state (init_state data_ num_recv)
    on_request_info (parse data_ num_recv)
    λ s. take_request s.request_info.request_type s

  pub on_stored : List ℕ → ℕ → M (HttpSessionOn S) (Unit {0})
  unfolding incomplete on_request
  on_stored recv_buf num_recv = do
    waits ← lift (incomplete recv_buf num_recv)
    if waits then return tt else on_request recv_buf num_recv

  -- The body of the `try` block of `HttpInitState::onReceive`. Nothing keeps `numRecv` below the
  -- buffer's size; where the bytes do not fit, writing them is a fault.
  pub init_body : List ℕ → ℕ → List ℕ → ℕ → M (HttpSessionOn S) (Unit {0})
  unfolding on_stored
  init_body recv_buf num_recv buf len = do
    bytes ← lift (load_n buf 0 len)
    set_cur_state (init_state recv_buf (num_recv + len))
    data_ ← lift (store_n recv_buf num_recv bytes)
    set_cur_state (init_state data_ (num_recv + len))
    on_stored data_ (num_recv + len)

  pub state_on_receive : HttpState → List ℕ → ℕ → M (HttpSessionOn S) (Unit {0})
  unfolding init_body on_ws
  state_on_receive (init_state recv_buf num_recv) buf len s =
      recover (init_body recv_buf num_recv buf len s) (λ e. on_tcp (holder.call (Unit {0}) close))
  state_on_receive get_state buf len s = return tt s
  state_on_receive (ws_state state) buf len s =
      on_ws (ws_on_receive net handlers.ws_handler buf len) state s

  -- What follows in `TcpServerHandler::onReceive`.
  pub advance : Option HttpState → M (HttpSessionOn S) (Unit {0})
  advance none s = (ok tt, s)
  advance (some state) s = (ok tt, record s { cur_state = state; next_state = none })

  unfoldable pub on_receive : List ℕ → ℕ → M (HttpSessionOn S) (Unit {0})
  unfolding state_on_receive advance
  on_receive buf len s = (state_on_receive s.cur_state buf len >> λ s'. advance s'.next_state s') s

  state_on_disconnect : HttpState → M (HttpSessionOn S) (Unit {0})
  state_on_disconnect (init_state recv_buf num_recv) = return tt
  state_on_disconnect get_state = return tt
  state_on_disconnect (ws_state state) = on_tcp (ws_on_disconnect handlers.ws_handler)

  -- `TcpServerHandler`.
  unfoldable pub tcp_server_handler : ServerHandler (HttpSessionOn S)
  unfolding on_receive state_on_disconnect
  tcp_server_handler = record {
    on_connect = return tt;
    on_disconnect = λ s. state_on_disconnect s.cur_state s;
    on_receive = on_receive;
    is_closed = λ s. holder.shut s.world;
  }
