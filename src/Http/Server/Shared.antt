-- ===== src/Http/Server/Shared.antt =====
-- `WsHandlerNullFactory` of http/socks_ws_handler.hpp: its one handler, and the connections that
-- share it.
use cppsocks.Base.{
  ℕ, ◌≤◌, true, false, Option, none, some, [], ◌==◌, ◌≡◌, ◌≢◌, refl, arith, ==-refl,
}
use cppsocks.Base.Outcome.{ok}
use cppsocks.Base.Effect.{continue, M, ◌>>=◌, ◌>>◌}
use cppsocks.Frame.Wire.{plain_frame}
use cppsocks.Tcp.Connection.{Net, World, Holder, put_world}
use cppsocks.Tcp.Connection.Serving.{Serves}
use cppsocks.Http.Ws.{WsHandlerOn, ws_handler_null, ws_close}
use cppsocks.Http.Ws.Receive.{Fragment, IsFragment, receive, in_state}
use cppsocks.Http.Ws.Control.{receive_close}
use cppsocks.Frame.{opcode_connection_close}
use mathlib.Core.Path.{subst}
use cppsocks.Base.{sym, ◌∙◌, ap, ◌<◌, ◌^◌, Bool, length}
use cppsocks.Http.Ws.Sending.{ws_connection_sends}

-- The connections, and the one that the `static` handler was created with.
pub record Shared : Type 0 where
  pub worlds : ℕ → World
  pub null_handler : Option ℕ

-- Code on the connection `i`.
abbrev pub on_shared : {A : Type 0} → ℕ → M World A → M Shared A
on_shared i m s = let (r, w) = m (s.worlds i) in (r, record s { worlds = put_world i w s.worlds })

abbrev pub shared_connection : ℕ → Holder Shared
shared_connection i = record { call = λ A m. on_shared i m; shut = λ s. (s.worlds i).closed }

-- `createWsHandler` for a connection.
unfoldable pub create_ws_handler : (ℕ → Net) → ℕ → M Shared (WsHandlerOn Shared)
unfolding ws_handler_null
create_ws_handler nets i s = elim s.null_handler [
  | none ↦
      (ok (ws_handler_null (on_shared i (ws_close (nets i)))), record s { null_handler = some i })
  | some first ↦ (ok (ws_handler_null (on_shared first (ws_close (nets first)))), s)
]

-- A frame that comes in a session on the connection `i`, which has just been upgraded.
abbrev pub receives : (ℕ → Net) → ℕ → Bool → ℕ → Fragment → WsHandlerOn Shared → M Shared (Unit {0})
receives nets i is_final opcode f handler s =
    let (r, t) =
      receive ⦃holder = shared_connection i⦄ (nets i) handler is_final opcode f (in_state 0 [] s) in
    (r, t.world)

put_world-own : (i : ℕ) (w : World) (worlds : ℕ → World) → put_world i w worlds i ≡ w
unfolding put_world
put_world-own i w worlds = rw (==-refl i) refl

put_world-other :
    (i j : ℕ) (w : World) (worlds : ℕ → World)
    → (i == j) ≡ false
    → put_world i w worlds j ≡ worlds j
unfolding put_world
put_world-other i j w worlds e = rw e refl

-- Of two clients of a server without a WebSocket handler, both upgraded, the second one sends a
-- close frame: the handler that its session was given holds the first one's connection, so that is
-- the one that is closed, and the second one's stays as it was. The handler is created with the
-- first one, whose connection is open and whose socket makes progress; the frame is masked, lies
-- whole in memory, and has less than 2 ^ 63 bytes of payload.
pub null_handler_shared :
    (nets : ℕ → Net) (room first second : ℕ) (f : Fragment) (s : Shared)
    → s.null_handler ≡ none
    → second ≢ first
    → IsFragment f
    → length f.payload < 2 ^ 63
    → Serves (nets first) room
    → 4 ≤ room
    → (s.worlds first).closed ≡ false
    → let (r, s') =
        (create_ws_handler nets first
            >> (create_ws_handler nets second
                >>= receives nets second true opcode_connection_close f))
          s in
      (r ≡ ok tt) × ((s'.worlds first).closed ≡ true) × (s'.worlds second ≡ s.worlds second)
unfolding create_ws_handler ws_handler_null
null_handler_shared nets room first second f s unused apart hf small serves wide still_open =
    let (w', closed, sent) =
      (ws_connection_sends (nets first) room serves (s.worlds first) still_open [] [] tt
        (omega arith) (unfold plain_frame in omega arith) (unfold plain_frame in omega arith)
        wide).2 in
    let s1 : Shared = record s { null_handler = some first } in
    let handler = ws_handler_null {S = Shared} (on_shared first (ws_close (nets first))) in
    let s' : Shared = record s1 {
      worlds = put_world first (record w' { closed = true }) s.worlds;
    } in
    let created : create_ws_handler nets first s ≡ (ok handler, s1) = rw unused refl in
    let received =
      receive_close ⦃holder = shared_connection second⦄ (nets second) handler f 0 s1 s' hf small
        (ap (λ r. (r.0, record s1 { worlds = put_world first r.1 s.worlds })) closed) in
    let elsewhere : (first == second) ≡ false = ground arith in
    subst
      (λ x.
        (x.0 ≡ ok tt) × ((x.1.worlds first).closed ≡ true) × (x.1.worlds second ≡ s.worlds second))
      (sym (
        ap
          (λ x. continue x (λ _.
            create_ws_handler nets second >>= receives nets second true opcode_connection_close f))
          created
        ∙ ap (λ x. (x.0, x.1.world)) received))
      (
        refl,
        ap (λ w. w.closed) (put_world-own first (record w' { closed = true }) s.worlds),
        put_world-other first second (record w' { closed = true }) s.worlds elsewhere,
      )
