-- ===== src/Http/States/Requests.antt =====
-- A connection from its first byte to the state that its request puts it in.
use cppsocks.Base.{ℕ, suc, ◌+◌, ◌-◌, ◌≤◌, ◌<◌, true, false, not, none, List, ◌++◌}
use cppsocks.Base.{
  length, replicate, length-append, ◌≡◌, refl, ap, ◌∙◌, arith, lt→ltb, le→ltb, length-replicate,
  take, length-take, ◌⊎◌, inl, inr,
}
use cppsocks.Base.Bytes.{text_eq, text_eq_refl}
use cppsocks.Base.Text.{Text}
use cppsocks.Base.Outcome.{ok, err, fault}
use cppsocks.Tcp.Connection.{Holder, connection_alone, Net, World}
use cppsocks.Http.Request.{get_ws, RequestInfo, HeadersMap, is_ws_request, max_path_len}
use cppsocks.Http.Request.Parse.{
  request_text, request_info, headers_of, IsRequest, parse-request_text,
}
use cppsocks.Http.Ws.{fresh_ws_state, ws_on_enter}
use cppsocks.Http.States.{
  Handlers, HandlersOn, HttpState, HttpSessionOn, ws_state, recv_size, on_receive, on_stored,
  on_request, take_request, set_next_state, on_enter, state_on_receive, advance, init_body,
  incomplete,
}
use cppsocks.Http.States.Step.{
  terminator, waiting, init_body-on_stored, incomplete-not, store_last_zero, request_text_ends,
}

-- Part of a request: where four bytes at least have arrived, they do not fill the buffer, and
-- their last four are no empty line, the chunk is kept behind what arrived before, and nothing
-- else happens. Memory behind the chunk plays no part.
pub incomplete_request_waits :
    {S : Type 0} ⦃holder : Holder S⦄ (net : Net) (handlers : HandlersOn S)
    (received old free chunk after head tail : List ℕ) (w : S) (info : RequestInfo)
    → length chunk ≡ length old
    → received ++ chunk ≡ head ++ tail
    → length tail ≡ 4
    → text_eq tail terminator ≡ false
    → length (received ++ chunk) < recv_size
    → on_receive net handlers
        (chunk ++ after)
        (length chunk)
        (waiting (received ++ (old ++ free)) (length received) w info)
      ≡ (ok tt, waiting ((received ++ chunk) ++ free) (length (received ++ chunk)) w info)
unfolding on_receive state_on_receive on_stored advance
incomplete_request_waits net handlers received old free chunk after head tail w info e parts four
      more small =
    rw (init_body-on_stored net handlers received old free chunk after w info e, still_open)
  where
    still_open : incomplete ((received ++ chunk) ++ free) (length (received ++ chunk)) ≡ ok true
    still_open =
        ap (λ m. incomplete (m ++ free) (length m)) parts
        ∙ incomplete-not head tail free four (omega (arith, ap length parts))
        ∙ ap (λ t. ok (not t)) more

module _ {S : Type 0} ⦃holder : Holder S⦄ (net : Net) (handlers : HandlersOn S)
    (path query version : Text) (hs : HeadersMap) where
  complete-not :
      (free : List ℕ)
      → length (request_text path query version hs) < recv_size
      → incomplete
          (request_text path query version hs ++ free)
          (length (request_text path query version hs))
        ≡ ok false
  complete-not free small =
      let (head, e) = request_text_ends path query version hs in
      ap (λ m. incomplete (m ++ free) (length m)) e
      ∙ incomplete-not head terminator free refl (omega (arith, ap length e))
      ∙ ap (λ t. ok (not t)) (text_eq_refl terminator)

  pub on_stored-request :
      (k : ℕ) (w : S) (info : RequestInfo)
      → IsRequest path query version hs
      → length path < max_path_len
      → length (request_text path query version hs) + suc k ≡ recv_size
      → let text = request_text path query version hs in
        let ready = request_info path (headers_of info.headers hs) in
        on_stored net handlers
          (text ++ replicate (suc k) 0)
          (length text)
          (waiting (text ++ replicate (suc k) 0) (length text) w info)
        ≡ take_request net handlers ready.request_type
            (waiting (text ++ replicate (suc k) 0) (length text) w ready)
  unfolding on_stored on_request
  on_stored-request k w info well fits total = rw (
    complete-not (replicate (suc k) 0) (omega arith),
    store_last_zero (request_text path query version hs) k (recv_size - 1) last,
    parse-request_text path query version (replicate k 0) hs
        (length (request_text path query version hs)) info well fits (omega arith),
  )
    where
      zeros_long : length {A = ℕ} (replicate k 0) ≡ k
      zeros_long = length-replicate k 0

      last : recv_size - 1 ≡ length (request_text path query version hs ++ replicate k 0)
      last =
          omega
            (arith, length-append (request_text path query version hs) (replicate k 0), zeros_long)

-- What a session is once its request is complete.
abbrev pub answering : {S : Type 0} → HttpState → S → RequestInfo → HttpSessionOn S
answering state w info = record {
  world = w;
  request_info = info;
  cur_state = state;
  next_state = none;
}

-- The chunk that completes a request for an upgrade, in a buffer that holds what arrived before
-- and is zero behind it: the state is `HttpWsState` with an empty buffer, and the connection is
-- as handshake and `onConnect` left it. The request is well-formed, its path has less than 1024
-- characters, the request leaves a byte of the receive buffer free, and handshake and
-- `onConnect` return.
pub ws_request_upgraded :
    {S : Type 0} ⦃holder : Holder S⦄ (net : Net) (handlers : HandlersOn S)
    (path query version : Text) (hs : HeadersMap) (received old chunk after : List ℕ) (k : ℕ)
    (w w' : S) (info : RequestInfo)
    → IsRequest path query version hs
    → length path < max_path_len
    → length chunk ≡ length old
    → received ++ chunk ≡ request_text path query version hs
    → length (request_text path query version hs) + suc k ≡ recv_size
    → is_ws_request (headers_of info.headers hs) ≡ true
    → ws_on_enter net handlers.ws_handler handlers.crypto (headers_of info.headers hs) w
      ≡ (ok tt, w')
    → on_receive net handlers
        (chunk ++ after)
        (length chunk)
        (waiting (received ++ (old ++ replicate (suc k) 0)) (length received) w info)
      ≡ (
        ok tt,
        answering (ws_state fresh_ws_state) w' (request_info path (headers_of info.headers hs)),
      )
unfolding on_receive state_on_receive advance take_request set_next_state on_enter
ws_request_upgraded net handlers path query version hs received old chunk after k w w' info well
      fits e parts total upgrade entered =
    rw (
      init_body-on_stored net handlers received old (replicate (suc k) 0) chunk after w info e,
      parts,
      on_stored-request net handlers path query version hs k w info well fits total,
      ws_type,
      entered,
    )
  where
    ws_type : (request_info path (headers_of info.headers hs)).request_type ≡ get_ws
    ws_type = rw upgrade

-- In `HttpInitState` with its buffer of 4096 bytes, `onReceive` of more bytes than the buffer
-- has room for is a fault, and so is `onReceive` where fewer than four bytes have arrived after
-- it.
pub init_state_faults :
    (net : Net) (handlers : Handlers) (recv_buf buf : List ℕ) (num_recv len : ℕ) (w : World)
    (info : RequestInfo)
    → length recv_buf ≡ recv_size
    → len ≤ length buf
    → (recv_size < num_recv + len) ⊎ (num_recv + len < 4)
    → (on_receive net handlers buf len (waiting recv_buf num_recv w info)).0 ≡ err fault
unfolding on_receive state_on_receive init_body on_stored incomplete
init_state_faults net handlers recv_buf buf num_recv len w info size there (inl large) = rw (
  le→ltb (length buf) (0 + len) (omega arith),
  lt→ltb (length recv_buf) (num_recv + length (take len buf)) (omega (arith, length-take len buf)),
)
init_state_faults net handlers recv_buf buf num_recv len w info size there (inr short) = rw (
  le→ltb (length buf) (0 + len) (omega arith),
  le→ltb (length recv_buf) (num_recv + length (take len buf)) (omega (arith, length-take len buf)),
  lt→ltb (num_recv + len) recv_size (omega arith),
  lt→ltb (num_recv + len) 4 short,
)
