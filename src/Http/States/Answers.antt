-- ===== src/Http/States/Answers.antt =====
-- The call that completes a GET request without an upgrade, whether the handler returns or throws.
use cppsocks.Base.{ℕ, suc, ◌+◌, ◌<◌, true, false, some, List, ◌++◌}
use cppsocks.Base.{length, replicate, ◌≡◌, ap, ◌∙◌}
use cppsocks.Base.Text.{Text}
use cppsocks.Base.Outcome.{ok, err, Exception, thrown}
use cppsocks.Tcp.Connection.{connection_alone, Net, World, close}
use cppsocks.Http.Request.{get, RequestInfo, HeadersMap, is_ws_request, max_path_len}
use cppsocks.Http.Request.Parse.{request_text, request_info, headers_of, IsRequest}
use cppsocks.Http.States.{
  Handlers, init_state, get_state, recv_size, on_receive, take_request, set_next_state, on_enter,
  state_on_receive, advance,
}
use cppsocks.Http.States.Step.{waiting, init_body-on_stored}
use cppsocks.Http.States.Requests.{on_stored-request, answering}

take_request-get :
    (net : Net) (handlers : Handlers) (data_ : List ℕ) (n : ℕ) (w w' : World) (info : RequestInfo)
    → info.request_type ≡ get
    → handlers.do_get info w ≡ (ok tt, w')
    → take_request net handlers info.request_type (waiting data_ n w info) ≡ (
      ok tt,
      record {
        world = record w' { closed = true };
        request_info = info;
        cur_state = init_state data_ n;
        next_state = some get_state;
      },
    )
unfolding take_request set_next_state on_enter close
take_request-get net handlers data_ n w w' info e called =
    ap (λ type. take_request net handlers type (waiting data_ n w info)) e ∙ served
  where
    served : take_request net handlers get (waiting data_ n w info) ≡ (
      ok tt,
      record {
        world = record w' { closed = true };
        request_info = info;
        cur_state = init_state data_ n;
        next_state = some get_state;
      },
    )
    served = rw called

take_request-throws :
    (net : Net) (handlers : Handlers) (data_ : List ℕ) (n : ℕ) (w w' : World) (info : RequestInfo)
    (e : Exception)
    → info.request_type ≡ get
    → handlers.do_get info w ≡ (err (thrown e), w')
    → take_request net handlers info.request_type (waiting data_ n w info)
      ≡ (err (thrown e), waiting data_ n w' info)
unfolding take_request set_next_state on_enter
take_request-throws net handlers data_ n w w' info e same called =
    ap (λ type. take_request net handlers type (waiting data_ n w info)) same ∙ refused
  where
    refused :
        take_request net handlers get (waiting data_ n w info)
        ≡ (err (thrown e), waiting data_ n w' info)
    refused = rw called

-- The chunk that completes a request without an upgrade, in a buffer that holds what arrived
-- before and is zero behind it: the file handler is called with what the request says, and
-- behind its effects the connection is closed and the state is `HttpGetState`. The request is
-- well-formed, its path has less than 1024 characters, the request leaves a byte of the receive
-- buffer free, and the handler returns.
pub get_request_answered :
    (net : Net) (handlers : Handlers) (path query version : Text) (hs : HeadersMap)
    (received old chunk after : List ℕ) (k : ℕ) (w w' : World) (info : RequestInfo)
    → IsRequest path query version hs
    → length path < max_path_len
    → length chunk ≡ length old
    → received ++ chunk ≡ request_text path query version hs
    → length (request_text path query version hs) + suc k ≡ recv_size
    → is_ws_request (headers_of info.headers hs) ≡ false
    → handlers.do_get (request_info path (headers_of info.headers hs)) w ≡ (ok tt, w')
    → on_receive net handlers
        (chunk ++ after)
        (length chunk)
        (waiting (received ++ (old ++ replicate (suc k) 0)) (length received) w info)
      ≡ (
        ok tt,
        answering get_state
            (record w' { closed = true })
            (request_info path (headers_of info.headers hs)),
      )
unfolding on_receive state_on_receive advance
get_request_answered net handlers path query version hs received old chunk after k w w' info well
      fits e parts total plain called =
    rw (
      init_body-on_stored net handlers received old (replicate (suc k) 0) chunk after w info e,
      parts,
      on_stored-request net handlers path query version hs k w info well fits total,
      take_request-get net handlers _ _ w w' (request_info path (headers_of info.headers hs))
          plain_type called,
    )
  where
    plain_type : (request_info path (headers_of info.headers hs)).request_type ≡ get
    plain_type = rw plain

-- The same where the handler throws: the connection is closed, and the state stays.
pub get_request_refused :
    (net : Net) (handlers : Handlers) (path query version : Text) (hs : HeadersMap)
    (received old chunk after : List ℕ) (k : ℕ) (w w' : World) (info : RequestInfo) (e : Exception)
    → IsRequest path query version hs
    → length path < max_path_len
    → length chunk ≡ length old
    → received ++ chunk ≡ request_text path query version hs
    → length (request_text path query version hs) + suc k ≡ recv_size
    → is_ws_request (headers_of info.headers hs) ≡ false
    → handlers.do_get (request_info path (headers_of info.headers hs)) w ≡ (err (thrown e), w')
    → on_receive net handlers
        (chunk ++ after)
        (length chunk)
        (waiting (received ++ (old ++ replicate (suc k) 0)) (length received) w info)
      ≡ (
        ok tt,
        waiting
            (request_text path query version hs ++ replicate (suc k) 0)
            (length (request_text path query version hs))
            (record w' { closed = true })
            (request_info path (headers_of info.headers hs)),
      )
unfolding on_receive state_on_receive advance close
get_request_refused net handlers path query version hs received old chunk after k w w' info e well
      fits same parts total plain called =
    rw (
      init_body-on_stored net handlers received old (replicate (suc k) 0) chunk after w info same,
      parts,
      on_stored-request net handlers path query version hs k w info well fits total,
      take_request-throws net handlers _ _ w w' (request_info path (headers_of info.headers hs)) e
          plain_type called,
    )
  where
    plain_type : (request_info path (headers_of info.headers hs)).request_type ≡ get
    plain_type = rw plain
