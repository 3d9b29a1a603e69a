-- ===== src/Http/Ws/Sending.antt =====
-- `WsConnection` and `WsEchoHandler`: what a server puts on the wire.
use cppsocks.Base.{ℕ, ◌^◌, ◌≤◌, ◌<◌, true, false, List, [], ◌∷◌, ◌++◌, length, append-nil}
use cppsocks.Base.{◌≡◌, refl, sym, ap, ◌∙◌, arith}
use cppsocks.Base.Bytes.{IsText}
use cppsocks.Base.Outcome.{Result, ok}
use cppsocks.Base.Effect.{continue, return}
use mathlib.Core.Path.{subst}
use cppsocks.ByteOrder.Laws.{be_bytes}
use cppsocks.Frame.{make, make_text, opcode_text, opcode_binary, opcode_connection_close}
use cppsocks.Frame.Wire.{plain_frame}
use cppsocks.Frame.Build.{make-plain_frame}
use cppsocks.Frame.Fields.{library_frames, payload_length-plain_frame}
use cppsocks.Tcp.Connection.{connection_alone, Net, World, send, close}
use cppsocks.Tcp.Connection.Laws.{Sent, send-Sent}
use cppsocks.Tcp.Connection.Serving.{Serves}
use cppsocks.Http.Ws.{send_frame, send_data, send_text, ws_close, ws_echo_handler}
use cppsocks.Http.Ws.Receive.{
  Fragment, IsFragment, Kind, text, binary, kind_opcode, in_state, receive, receive_whole,
}

close_frame :
    plain_frame true opcode_connection_close (be_bytes 2 0) ≡ 0x88 ∷ 0x02 ∷ 0x00 ∷ 0x00 ∷ []
unfolding plain_frame
close_frame = refl

pub make_whole :
    (opcode : ℕ) (payload : List ℕ)
    → opcode < 16
    → length payload < 2 ^ 16
    → make payload (length payload) true opcode ≡ ok (plain_frame true opcode payload)
make_whole opcode payload known small =
    ap (λ m. make m (length payload) true opcode) (sym (append-nil payload))
    ∙ make-plain_frame payload [] true opcode known small

module _ (net : Net) (cap : ℕ) (serves : Serves net cap) (w : World)
    (still_open : w.closed ≡ false) where
  pub Sent-whole :
      (bytes : List ℕ)
      → length bytes ≤ cap
      → (w' : World) × (send net bytes (length bytes) w ≡ (ok (length bytes), w')) × Sent w bytes w'
  Sent-whole bytes room =
      subst
        (λ m.
          (w' : World) × (send net m (length bytes) w ≡ (ok (length bytes), w')) × Sent w bytes w')
        (append-nil bytes)
        (send-Sent net serves.delivers bytes [] w (omega (arith, serves.fits))
          (omega (arith, serves.enough)) still_open)

  pub send_frame-Sent :
      (frame : Result (List ℕ)) (opcode : ℕ) (payload : List ℕ)
      → frame ≡ ok (plain_frame true opcode payload)
      → length payload < 2 ^ 16
      → length (plain_frame true opcode payload) ≤ cap
      → (w' : World) × (send_frame net frame w ≡ (ok (length payload), w'))
        × Sent w (plain_frame true opcode payload) w'
  unfolding send_frame
  send_frame-Sent frame opcode payload e small room =
      let (w', sent, s) = Sent-whole (plain_frame true opcode payload) room in
      (w', rw (e, sent, payload_length-plain_frame true opcode payload small), s)

  -- On an open connection over a socket that makes progress and is followed for more rounds than
  -- each frame has bytes, with a payload that 16 bits can count and that has no NUL: `send` of
  -- bytes and `send` of a C string put one final frame of the format on the wire and return the
  -- payload's length, and `close` puts a close frame with the code 0 there and closes the
  -- connection.
  pub ws_connection_sends :
      (payload rest : List ℕ)
      → IsText payload
      → length payload < 2 ^ 16
      → length (plain_frame true opcode_text payload) ≤ cap
      → length (plain_frame true opcode_binary payload) ≤ cap
      → 4 ≤ cap
      → ((w' : World) × (send_data net (payload ++ rest) (length payload) w
            ≡ (ok (length payload), w'))
          × Sent w (plain_frame true opcode_binary payload) w')
        × ((w' : World) × (send_text net (payload ++ (0 ∷ rest)) w ≡ (ok (length payload), w'))
            × Sent w (plain_frame true opcode_text payload) w')
        × ((w' : World) × (ws_close net w ≡ (ok tt, record w' { closed = true }))
            × Sent w (0x88 ∷ 0x02 ∷ 0x00 ∷ 0x00 ∷ []) w')
  unfolding send_data send_text ws_close close
  ws_connection_sends payload rest plain small room_text room room_close =
      let frames = library_frames 0 payload rest (omega arith) small plain in
      let (w', sent, s) = Sent-whole (0x88 ∷ 0x02 ∷ 0x00 ∷ 0x00 ∷ []) room_close in
      (
        send_frame-Sent _ opcode_binary payload
            (make-plain_frame payload rest true opcode_binary (omega arith) small) small room,
        send_frame-Sent _ opcode_text payload frames.3 small room_text,
        (w', rw (frames.0, close_frame, sent), s),
      )

  -- The echo server: a message that arrives in one masked frame, in memory as a whole and with
  -- no earlier fragment, goes back in one unmasked frame of the same kind, and the buffer is
  -- empty again. The connection is open, its socket makes progress and is followed for more
  -- rounds than the answer has bytes, 16 bits can count the payload, and there is no NUL in it.
  pub ws_echo :
      (kind : Kind) (old : ℕ) (f : Fragment)
      → IsFragment f
      → IsText f.payload
      → length f.payload < 2 ^ 16
      → length (plain_frame true (kind_opcode kind) f.payload) ≤ cap
      → (w' : World) × (receive net
            (ws_echo_handler net)
            true
            (kind_opcode kind)
            f
            (in_state old [] w)
          ≡ (ok tt, in_state (kind_opcode kind) [] w'))
        × Sent w (plain_frame true (kind_opcode kind) f.payload) w'
  unfolding ws_echo_handler send_data send_text
  ws_echo text old f hf plain small room =
      let (w', sent, s) =
        send_frame-Sent (make_text (f.payload ++ (0 ∷ []))) opcode_text f.payload
          (library_frames 0 f.payload [] (omega arith) small plain).3 small room in
      (
        w',
        receive_whole net (ws_echo_handler net) text old f w w' hf (omega arith)
            (ap (λ r. continue r (λ n. return tt)) sent),
        s,
      )
  ws_echo binary old f hf plain small room =
      let (w', sent, s) =
        send_frame-Sent (make f.payload (length f.payload) true opcode_binary) opcode_binary
          f.payload (make_whole opcode_binary f.payload (omega arith) small) small room in
      (
        w',
        receive_whole net (ws_echo_handler net) binary old f w w' hf (omega arith)
            (ap (λ r. continue r (λ n. return tt)) sent),
        s,
      )
