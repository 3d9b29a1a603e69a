-- ===== src/Http/Ws/Reads.antt =====
-- `HttpWsState::onReceive` where a read brings part of a frame, or more than one.
use cppsocks.Base.{ℕ, ◌^◌, ◌≤◌, ◌<◌, true, List, [], ◌++◌, length, All}
use cppsocks.Base.{◌≡◌, sym, ap, ◌∙◌, arith}
use cppsocks.Base.Bytes.{IsByte}
use cppsocks.Base.Outcome.{ok}
use cppsocks.Base.Effect.{continue}
use cppsocks.Frame.Wire.{Key, IsKey, client_frame}
use cppsocks.Frame.Decode.{decode_ignores_len}
use cppsocks.Tcp.Connection.{Holder, Net}
use cppsocks.Http.Ws.{WsHandlerOn, WsSessionOn, ws_on_receive, on_decoded, ignore_invalid}
use cppsocks.Http.Ws.Receive.{Kind, kind_opcode, in_state, hand_over, receive_whole}

frame-length :
    (opcode : ℕ) (key : Key) (payload : List ℕ) → 2 ≤ length (client_frame true opcode key payload)
unfolding client_frame
frame-length opcode key payload = omega arith

module _ {S : Type 0} ⦃holder : Holder S⦄ (net : Net) (handler : WsHandlerOn S) where
  any_len :
      (buf : List ℕ) (m n : ℕ) (s : WsSessionOn S)
      → 2 ≤ m
      → 2 ≤ n
      → ws_on_receive net handler buf m s ≡ ws_on_receive net handler buf n s
  unfolding ws_on_receive
  any_len buf m n s hm hn =
      ap (λ r. ignore_invalid net handler (continue (r, s) (on_decoded net handler)))
        (decode_ignores_len buf s.ws.in_buf m hm ∙ sym (decode_ignores_len buf s.ws.in_buf n hn))

  -- A read brings `n` bytes, two at least, and in memory from its first byte on is a message in one
  -- masked frame: the application is handed the payload that the frame's header announces, and where
  -- that call returns, `onReceive` returns with an empty buffer. So it is, too, where the read ended
  -- inside of the frame, with what the memory held before in place of the rest; and where it brought
  -- more than the frame, the rest is lost, such as the client's next messages. There is no earlier
  -- fragment, and the message has less than 2 ^ 63 bytes.
  pub read_length_ignored :
      (kind : Kind) (old : ℕ) (key : Key) (payload more : List ℕ) (n : ℕ) (w w' : S)
      → 2 ≤ n
      → IsKey key
      → All IsByte payload
      → length payload < 2 ^ 63
      → hand_over handler kind payload w ≡ (ok tt, w')
      → ws_on_receive net handler
          (client_frame true (kind_opcode kind) key payload ++ more)
          n
          (in_state old [] w)
        ≡ (ok tt, in_state (kind_opcode kind) [] w')
  read_length_ignored kind old key payload more n w w' some_bytes is_key are_bytes small called =
      let frame = client_frame true (kind_opcode kind) key payload in
      any_len (frame ++ more) n (length frame) (in_state old [] w) some_bytes
        (frame-length (kind_opcode kind) key payload)
      ∙ receive_whole net handler kind old (record { key = key; payload = payload; after = more }) w
          w' (is_key, are_bytes) small called
