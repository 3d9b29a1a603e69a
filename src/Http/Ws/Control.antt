-- ===== src/Http/Ws/Control.antt =====
-- `HttpWsState::onReceive` on control frames, and on input that no message comes of.
use cppsocks.Base.{ℕ, suc, ◌==◌, ◌+◌, ◌^◌, ◌≤◌, ◌<◌, true, false, List, [], ◌∷◌, ◌++◌, length}
use cppsocks.Base.{◌≡◌, refl, ap, ◌∙◌, arith, drop, lt→ltb}
use cppsocks.Base.Outcome.{ok, err, thrown, runtime_error}
use cppsocks.Base.Effect.{continue, ◌>>◌}
use cppsocks.Frame.{
  create_pong, payload_offset, opcode_binary, opcode_continuation, opcode_connection_ping,
  opcode_connection_pong, opcode_connection_close,
}
use cppsocks.Frame.Wire.{plain_frame}
use cppsocks.Frame.Decode.{decode_too_short}
use cppsocks.Frame.Fields.{payload_length-plain_frame}
use cppsocks.Http.Ws.Sending.{Sent-whole, make_whole}
use cppsocks.Tcp.Connection.{connection_alone, Net, World, send}
use cppsocks.Tcp.Connection.Laws.{Sent}
use cppsocks.Tcp.Connection.Serving.{Serves}
use cppsocks.Tcp.Connection.{Holder}
use cppsocks.Http.Ws.{
  WsHandler, WsHandlerOn, WsSession, ws_on_receive, on_decoded, ignore_invalid, dispatch, on_world,
  set_in_buf, send_pong,
}
use cppsocks.Http.Ws.Receive.{
  Fragment, IsFragment, Kind, kind_opcode, kind_opcode-lt, in_state, receive, receive-on_decoded,
  receive_first,
}

suc-==_zero : (n : ℕ) → (suc n == 0) ≡ false
suc-==_zero n = ground arith

short_offset :
    (payload : List ℕ)
    → length payload < 126
    → payload_offset (plain_frame true opcode_connection_pong payload) ≡ ok 2
unfolding payload_offset
short_offset payload small = rw (
  payload_length-plain_frame true opcode_connection_pong payload (omega arith),
  lt→ltb (length payload) 126 small,
)

behind_header :
    (payload : List ℕ)
    → length payload < 126
    → drop 2 (plain_frame true opcode_connection_pong payload) ≡ payload
unfolding plain_frame
behind_header payload small = rw (lt→ltb (length payload) 126 small)

-- Fewer than two bytes are ignored: the exception that `decode` throws is caught, nothing is
-- sent, no handler is called and nothing changes.
pub ws_ignores_short_input :
    (net : Net) (handler : WsHandler) (buf : List ℕ) (len : ℕ) (s : WsSession)
    → len < 2
    → ws_on_receive net handler buf len s ≡ (ok tt, s)
unfolding ws_on_receive ignore_invalid
ws_ignores_short_input net handler buf len s h = rw (decode_too_short buf s.ws.in_buf len h)

-- A first fragment that is empty loses the opcode: when the message's last frame follows, in
-- memory as a whole and with less than 2 ^ 63 bytes, the code throws a runtime error.
pub empty_first_fragment_throws :
    (net : Net) (handler : WsHandler) (kind : Kind) (first last : Fragment) (old : ℕ) (w : World)
    → IsFragment first
    → IsFragment last
    → first.payload ≡ []
    → length last.payload < 2 ^ 63
    → ((receive net handler false (kind_opcode kind) first
          >> receive net handler true opcode_continuation last)
        (in_state old [] w))
      ≡ (err (thrown runtime_error), in_state opcode_continuation last.payload w)
unfolding on_decoded ignore_invalid dispatch
empty_first_fragment_throws net handler kind first last old w h1 hl empty small =
    ap (λ r. continue r (λ _. receive net handler true opcode_continuation last))
      (receive_first net handler (kind_opcode kind) old first w (kind_opcode-lt kind) h1
          (omega (arith, ap length empty))
        ∙ ap (λ p. (ok tt, in_state (kind_opcode kind) p w)) empty)
    ∙ receive-on_decoded net handler true opcode_continuation last
        (in_state (kind_opcode kind) [] w) (omega arith) hl (omega arith)
    ∙ no_opcode last.payload
  where
    no_opcode :
        (payload : List ℕ)
        → ignore_invalid net handler (
            on_decoded net handler
              (record { payload = payload; opcode = opcode_continuation; is_final = true })
              (in_state (kind_opcode kind) [] w))
          ≡ (err (thrown runtime_error), in_state opcode_continuation payload w)
    no_opcode payload = refl

-- A ping that comes after the first fragment of a binary message, which is not empty, is taken
-- for the message's last frame: the application gets the fragment and the ping's payload as one
-- message, and where that call returns nothing else happens and the buffer is empty. Both frames
-- are in memory as a whole and have less than 2 ^ 63 bytes of payload.
pub ping_ends_message :
    (net : Net) (handler : WsHandler) (first ping : Fragment) (old b : ℕ) (bs : List ℕ)
    (w w' : World)
    → IsFragment first
    → IsFragment ping
    → first.payload ≡ b ∷ bs
    → length first.payload + length ping.payload < 2 ^ 63
    → handler.on_data (b ∷ (bs ++ ping.payload)) (length (b ∷ (bs ++ ping.payload))) w ≡ (ok tt, w')
    → ((receive net handler false opcode_binary first
          >> receive net handler true opcode_connection_ping ping)
        (in_state old [] w))
      ≡ (ok tt, in_state opcode_binary [] w')
unfolding on_decoded ignore_invalid dispatch on_world set_in_buf
ping_ends_message net handler first ping old b bs w w' h1 hp e small called =
    ap (λ r. continue r (λ _. receive net handler true opcode_connection_ping ping))
      (receive_first net handler opcode_binary old first w (omega arith) h1 (omega arith)
        ∙ ap (λ p. (ok tt, in_state opcode_binary p w)) e)
    ∙ receive-on_decoded net handler true opcode_connection_ping ping
        (in_state opcode_binary (b ∷ bs) w) (omega arith) hp (omega (arith, ap length e))
    ∙ as_message
  where
    as_message :
        ignore_invalid net handler (
          on_decoded net handler
            (record {
              payload = b ∷ (bs ++ ping.payload);
              opcode = opcode_connection_ping;
              is_final = true;
            })
            (in_state opcode_binary (b ∷ bs) w))
        ≡ (ok tt, in_state opcode_binary [] w')
    as_message = rw (suc-==_zero (length bs), called)

-- The reply to a ping that no fragment precedes, on an open connection over a socket that makes
-- progress and is followed for more rounds than the payload has bytes, and for a payload of less
-- than 126 bytes, is the ping's payload alone: the header of the pong frame is not sent.
pub ping_reply_is_bare :
    (net : Net) (room : ℕ) (serves : Serves net room) (handler : WsHandler) (ping : Fragment)
    (old : ℕ) (w : World)
    → w.closed ≡ false
    → IsFragment ping
    → length ping.payload < 126
    → length ping.payload ≤ room
    → (w' : World) × (receive net handler true opcode_connection_ping ping (in_state old [] w)
        ≡ (ok tt, in_state opcode_connection_ping [] w'))
      × Sent w ping.payload w'
unfolding on_decoded ignore_invalid dispatch on_world set_in_buf send_pong create_pong
ping_reply_is_bare net room serves handler ping old w still_open hp small fits =
    let (w', sent, s) = Sent-whole net room serves w still_open ping.payload fits in
    (
      w',
      receive-on_decoded net handler true opcode_connection_ping ping (in_state old [] w)
            (omega arith) hp (omega arith)
          ∙ replied w' sent,
      s,
    )
  where
    replied :
        (w' : World)
        → send net ping.payload (length ping.payload) w ≡ (ok (length ping.payload), w')
        → ignore_invalid net handler (
            on_decoded net handler
              (record { payload = ping.payload; opcode = opcode_connection_ping; is_final = true })
              (in_state old [] w))
          ≡ (ok tt, in_state opcode_connection_ping [] w')
    replied w' sent = rw (
      make_whole opcode_connection_pong ping.payload (omega arith) (omega arith),
      short_offset ping.payload small,
      payload_length-plain_frame true opcode_connection_pong ping.payload (omega arith),
      behind_header ping.payload small,
      sent,
    )

-- A close frame between two messages, with its own payload of any kind: it is answered by closing the
-- connection that the handler holds.
pub receive_close :
    {S : Type 0} ⦃holder : Holder S⦄ (net : Net) (handler : WsHandlerOn S) (f : Fragment) (old : ℕ)
    (w w' : S)
    → IsFragment f
    → length f.payload < 2 ^ 63
    → handler.close_connection w ≡ (ok tt, w')
    → receive net handler true opcode_connection_close f (in_state old [] w)
      ≡ (ok tt, in_state opcode_connection_close [] w')
unfolding on_decoded ignore_invalid dispatch on_world set_in_buf
receive_close net handler f old w w' hf small closed =
    receive-on_decoded net handler true opcode_connection_close f (in_state old [] w) (omega arith)
      hf (omega arith)
    ∙ rw closed refl
