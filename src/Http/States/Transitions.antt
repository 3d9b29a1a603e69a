-- ===== src/Http/States/Transitions.antt =====
-- The states between which one call of `TcpServerHandler::onReceive` moves a connection.
use cppsocks.Base.{
  ℕ, ◌+◌, ◌-◌, Bool, true, false, Option, none, some, List, ◌≡◌, ◌⊎◌, inl, inr, refl, sym, ap,
  if◌then◌else◌,
}
use mathlib.Core.Path.{subst}
use cppsocks.Base.Bytes.{load_n, store, store_n}
use cppsocks.Base.Outcome.{Result, ok, err, thrown, fault, terminated, running, blocked}
use cppsocks.Base.Effect.{M, continue, return, recover}
use cppsocks.Tcp.Connection.{connection_alone, Net, World, close}
use cppsocks.Http.Request.{RequestType, undefined, get, get_ws, RequestInfo, parse}
use cppsocks.Http.Ws.{WsState, fresh_ws_state, ws_on_receive}
use cppsocks.Http.States.Requests.{answering}
use cppsocks.Http.States.{
  Handlers, HttpState, HttpSession, init_state, get_state, ws_state, recv_size, on_tcp, incomplete,
  on_receive, on_ws, on_stored, on_request, take_request, set_next_state, on_enter,
  state_on_receive, advance, init_body,
}

-- From `HttpInitState` to itself, `HttpGetState` or a fresh `HttpWsState`; the other two are final.
pub data Follows : HttpState → HttpState → Type 0 where
  waits : (data_ data' : List ℕ) (n n' : ℕ) → Follows (init_state data_ n) (init_state data' n')
  serves : (data_ : List ℕ) (n : ℕ) → Follows (init_state data_ n) get_state
  upgrades : (data_ : List ℕ) (n : ℕ) → Follows (init_state data_ n) (ws_state fresh_ws_state)
  served : Follows get_state get_state
  talks : (s s' : WsState) → Follows (ws_state s) (ws_state s')

abbrev Next : Option HttpState → Type 0
Next next = (next ≡ none) ⊎ ((next ≡ some get_state) ⊎ (next ≡ some (ws_state fresh_ws_state)))

abbrev Initial : HttpState → Type 0
Initial state = (data_ : List ℕ) × (n : ℕ) × (state ≡ init_state data_ n)

-- What `HttpInitState::onReceive` leaves behind.
abbrev Asked : Result (Unit {0}) × HttpSession → Type 0
Asked r = Initial r.1.cur_state × Next r.1.next_state

Asked-continue :
    {A : Type 0} (r : Result A) (s : HttpSession) (k : A → M HttpSession (Unit {0}))
    → Asked (err fault, s)
    → ((a : A) → Asked (k a s))
    → Asked (continue (r, s) k)
Asked-continue (ok a) s k stopped more = more a
Asked-continue (err e) s k stopped more = stopped

Asked-recover :
    (r : Result (Unit {0})) (s : HttpSession)
    → Asked (r, s)
    → Asked (recover (r, s) (λ e. on_tcp close))
unfolding close
Asked-recover (ok t) s h = h
Asked-recover (err (thrown e)) s h = h
Asked-recover (err fault) s h = h
Asked-recover (err terminated) s h = h
Asked-recover (err running) s h = h
Asked-recover (err blocked) s h = h

module _ (net : Net) (handlers : Handlers) where
  take_request-Asked :
      (type : RequestType) (s : HttpSession)
      → Initial s.cur_state
      → s.next_state ≡ none
      → Asked (take_request net handlers type s)
  unfolding take_request set_next_state on_enter close
  take_request-Asked get s i e =
      Asked-continue (on_enter net handlers get_state s).0 (on_enter net handlers get_state s).1
        (λ t s'. (ok tt, record s' { next_state = some get_state })) (i, inl e)
        (λ t. (i, inr (inl refl)))
  take_request-Asked get_ws s i e =
      Asked-continue (on_enter net handlers (ws_state fresh_ws_state) s).0
        (on_enter net handlers (ws_state fresh_ws_state) s).1
        (λ t s'. (ok tt, record s' { next_state = some (ws_state fresh_ws_state) })) (i, inl e)
        (λ t. (i, inr (inr refl)))
  take_request-Asked undefined s i e = (i, inl e)

  on_request-Asked :
      (data_ : List ℕ) (n : ℕ) (s : HttpSession)
      → Initial s.cur_state
      → s.next_state ≡ none
      → Asked (on_request net handlers data_ n s)
  unfolding on_request
  on_request-Asked data_ n s i e =
      Asked-continue (store data_ (recv_size - 1) 0) s _ (i, inl e)
        (λ d.
          Asked-continue (parse d n s.request_info).0
            (record s { cur_state = init_state d n; request_info = (parse d n s.request_info).1 })
            (λ t s'. take_request net handlers s'.request_info.request_type s')
            ((d, n, refl), inl e) (λ t. take_request-Asked _ _ (d, n, refl) e))

  init_body-Asked :
      (data_ : List ℕ) (n : ℕ) (buf : List ℕ) (len : ℕ) (s : HttpSession)
      → Initial s.cur_state
      → s.next_state ≡ none
      → Asked (init_body net handlers data_ n buf len s)
  unfolding init_body on_stored
  init_body-Asked data_ n buf len s i e =
      Asked-continue (load_n buf 0 len) s _ (i, inl e)
        (λ bytes.
          Asked-continue (store_n data_ n bytes)
            (record s { cur_state = init_state data_ (n + len) }) _ ((data_, n + len, refl), inl e)
            (λ d.
              Asked-continue (incomplete d (n + len))
                (record s { cur_state = init_state d (n + len) })
                (λ b. if b then return tt else on_request net handlers d (n + len))
                ((d, n + len, refl), inl e) (λ b. by_test b d)))
    where
      by_test :
          (b : Bool) (d : List ℕ)
          → Asked (
              (if b then return tt else on_request net handlers d (n + len))
                (record s { cur_state = init_state d (n + len) }))
      by_test true d = ((d, n + len, refl), inl e)
      by_test false d = on_request-Asked d (n + len) _ (d, n + len, refl) e

abbrev Moved : HttpState → HttpSession → Type 0
Moved state s = Follows state s.cur_state × (s.next_state ≡ none)

advance-Moved :
    (net : Net) (handlers : Handlers) (data_ : List ℕ) (n : ℕ) (s : HttpSession)
    → Initial s.cur_state
    → Next s.next_state
    → Moved (init_state data_ n) (advance net handlers s.next_state s).1
unfolding advance
advance-Moved net handlers data_ n s (d, m, i) (inl e) =
    subst (λ next. Moved (init_state data_ n) (advance net handlers next s).1) (sym e)
      (subst (Follows (init_state data_ n)) (sym i) (waits data_ d n m), e)
advance-Moved net handlers data_ n s i (inr (inl e)) =
    subst (λ next. Moved (init_state data_ n) (advance net handlers next s).1) (sym e)
      (serves data_ n, refl)
advance-Moved net handlers data_ n s i (inr (inr e)) =
    subst (λ next. Moved (init_state data_ n) (advance net handlers next s).1) (sym e)
      (upgrades data_ n, refl)

-- A call that returns leaves a session that moved.
Moved-returned :
    (net : Net) (handlers : Handlers) (state : HttpState) (r : Result (Unit {0}))
    (s s' : HttpSession)
    → continue (r, s) (λ t s'. advance net handlers s'.next_state s') ≡ (ok tt, s')
    → Moved state (advance net handlers s.next_state s).1
    → Moved state s'
Moved-returned net handlers state (ok t) s s' h m = subst (Moved state) (ap (λ r. r.1) h) m
Moved-returned net handlers state (err e) s s' h m = cc (ap (λ r. r.0) h)

-- One call of `onReceive` that returns, on a session with no next state: `HttpInitState` stays or
-- gives way to `HttpGetState` or to a fresh `HttpWsState`, the other two states stay what they
-- are, and again there is no next state.
pub on_receive-Follows :
    (net : Net) (handlers : Handlers) (state : HttpState) (w : World) (info : RequestInfo)
    (buf : List ℕ) (len : ℕ) (s' : HttpSession)
    → on_receive net handlers buf len (answering state w info) ≡ (ok tt, s')
    → Follows state s'.cur_state × (s'.next_state ≡ none)
unfolding on_receive state_on_receive on_ws advance
on_receive-Follows net handlers (init_state data_ n) w info buf len s' h =
    let s : HttpSession = answering (init_state data_ n) w info in
    let body = init_body net handlers data_ n buf len s in
    let asked =
      Asked-recover body.0 body.1
        (init_body-Asked net handlers data_ n buf len s (data_, n, refl) refl) in
    Moved-returned net handlers (init_state data_ n) _ _ s' h
      (advance-Moved net handlers data_ n _ asked.0 asked.1)
on_receive-Follows net handlers get_state w info buf len s' h =
    Moved-returned net handlers get_state (ok tt) (answering get_state w info) s' h (served, refl)
on_receive-Follows net handlers (ws_state state) w info buf len s' h =
    Moved-returned net handlers (ws_state state)
      (ws_on_receive net handlers.ws_handler buf len (record { ws = state; world = w })).0 _ s' h
      (talks state _, refl)
