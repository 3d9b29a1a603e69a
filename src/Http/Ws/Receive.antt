-- ===== src/Http/Ws/Receive.antt =====
-- `HttpWsState::onReceive` on the frames that a client sends.
use cppsocks.Base.{
  ℕ, suc, ◌==◌, ◌+◌, ◌^◌, ◌<◌, Bool, true, false, List, [], ◌∷◌, ◌++◌, length, length-append,
}
use cppsocks.Base.{◌≡◌, refl, ap, ◌∙◌, arith, All, append_assoc}
use cppsocks.Base.Bytes.{IsByte}
use cppsocks.Base.Outcome.{ok}
use cppsocks.Base.Effect.{M, continue, ◌>>◌}
use cppsocks.Frame.{opcode_text, opcode_binary, opcode_continuation}
use cppsocks.Frame.Wire.{Key, IsKey, client_frame}
use cppsocks.Frame.Decode.{decode-client_frame}
use cppsocks.Tcp.Connection.{Holder, Net}
use cppsocks.Http.Ws.{
  WsHandlerOn, WsSessionOn, dispatch, on_decoded, set_in_buf, on_world, ignore_invalid,
  ws_on_receive,
}

-- A frame's payload and key, and the memory behind the frame in the buffer that is handed over.
pub record Fragment : Type 0 where
  pub key : Key
  pub payload : List ℕ
  pub after : List ℕ

abbrev pub IsFragment : Fragment → Type 0
IsFragment f = IsKey f.key × All IsByte f.payload

abbrev pub in_state : {S : Type 0} → ℕ → List ℕ → S → WsSessionOn S
in_state opcode in_buf w = record { ws = record { opcode = opcode; in_buf = in_buf }; world = w }

-- The two kinds of message: their opcode, and the call that hands one to the application.
pub data Kind : Type 0 where
  text binary : Kind

abbrev pub kind_opcode : Kind → ℕ
kind_opcode text = opcode_text
kind_opcode binary = opcode_binary

abbrev pub hand_over : {S : Type 0} → WsHandlerOn S → Kind → List ℕ → M S (Unit {0})
hand_over handler text message = handler.on_text (message ++ (0 ∷ []))
hand_over handler binary message = handler.on_data message (length message)

pub kind_opcode-lt : (kind : Kind) → kind_opcode kind < 16
kind_opcode-lt text = omega arith
kind_opcode-lt binary = omega arith

suc-==_zero : (n : ℕ) → (suc n == 0) ≡ false
suc-==_zero n = ground arith

module _ {S : Type 0} ⦃holder : Holder S⦄ (net : Net) (handler : WsHandlerOn S) where
  -- The call that brings one frame.
  abbrev pub receive : Bool → ℕ → Fragment → M (WsSessionOn S) (Unit {0})
  receive is_final opcode f =
      ws_on_receive net handler (client_frame is_final opcode f.key f.payload ++ f.after)
        (length (client_frame is_final opcode f.key f.payload))

  pub receive-on_decoded :
      (is_final : Bool) (opcode : ℕ) (f : Fragment) (s : WsSessionOn S)
      → opcode < 16
      → IsFragment f
      → length s.ws.in_buf + length f.payload < 2 ^ 63
      → receive is_final opcode f s
        ≡ ignore_invalid net handler (
            on_decoded net handler
              (record { payload = s.ws.in_buf ++ f.payload; opcode = opcode; is_final = is_final })
              s)
  unfolding ws_on_receive
  receive-on_decoded is_final opcode f s ho hf hn =
      ap (λ r. ignore_invalid net handler (continue (r, s) (on_decoded net handler)))
        (decode-client_frame is_final opcode f.key f.payload f.after s.ws.in_buf
          (length (client_frame is_final opcode f.key f.payload)) ho hf.0 hf.1
          (unfold client_frame in omega arith) hn)

  -- A fragment that is not the last is kept behind what came before, and the opcode is the one of
  -- the first fragment that was not empty.
  pub receive_first :
      (opcode old : ℕ) (f : Fragment) (w : S)
      → opcode < 16
      → IsFragment f
      → length f.payload < 2 ^ 63
      → receive false opcode f (in_state old [] w) ≡ (ok tt, in_state opcode f.payload w)
  receive_first opcode old f w ho hf hn =
      receive-on_decoded false opcode f (in_state old [] w) ho hf (omega arith)
      ∙ (unfold ignore_invalid on_decoded in refl)

  pub receive_middle :
      (opcode b : ℕ) (bs : List ℕ) (f : Fragment) (w : S)
      → IsFragment f
      → length (b ∷ bs) + length f.payload < 2 ^ 63
      → receive false opcode_continuation f (in_state opcode (b ∷ bs) w)
        ≡ (ok tt, in_state opcode (b ∷ (bs ++ f.payload)) w)
  receive_middle opcode b bs f w hf hn =
      receive-on_decoded false opcode_continuation f (in_state opcode (b ∷ bs) w) (omega arith) hf
        hn
      ∙ (unfold ignore_invalid on_decoded in rw (suc-==_zero (length bs)))

  dispatched :
      (kind : Kind) (message : List ℕ) (w w' : S)
      → hand_over handler kind message w ≡ (ok tt, w')
      → ((dispatch net handler (kind_opcode kind) message >> set_in_buf net handler [])
          (in_state (kind_opcode kind) message w))
        ≡ (ok tt, in_state (kind_opcode kind) [] w')
  unfolding dispatch on_world set_in_buf
  dispatched text message w w' e = rw e
  dispatched binary message w w' e = rw e

  -- A message in one frame.
  pub receive_whole :
      (kind : Kind) (old : ℕ) (f : Fragment) (w w' : S)
      → IsFragment f
      → length f.payload < 2 ^ 63
      → hand_over handler kind f.payload w ≡ (ok tt, w')
      → receive true (kind_opcode kind) f (in_state old [] w)
        ≡ (ok tt, in_state (kind_opcode kind) [] w')
  unfolding on_decoded ignore_invalid
  receive_whole kind old f w w' hf hn e =
      receive-on_decoded true (kind_opcode kind) f (in_state old [] w) (kind_opcode-lt kind) hf
        (omega arith)
      ∙ ap (ignore_invalid net handler) (dispatched kind f.payload w w' e)

  receive_last :
      (kind : Kind) (b : ℕ) (bs : List ℕ) (f : Fragment) (w w' : S)
      → IsFragment f
      → length (b ∷ bs) + length f.payload < 2 ^ 63
      → hand_over handler kind (b ∷ (bs ++ f.payload)) w ≡ (ok tt, w')
      → receive true opcode_continuation f (in_state (kind_opcode kind) (b ∷ bs) w)
        ≡ (ok tt, in_state (kind_opcode kind) [] w')
  unfolding on_decoded ignore_invalid
  receive_last kind b bs f w w' hf hn e = rw (
    receive-on_decoded true opcode_continuation f (in_state (kind_opcode kind) (b ∷ bs) w)
        (omega arith) hf hn,
    suc-==_zero (length bs),
    dispatched kind (b ∷ (bs ++ f.payload)) w w' e,
  )

  -- The continuation frames of a message, the last of them with the FIN bit, and what the
  -- message's remaining payload is.
  abbrev pub receive_rest : List Fragment → Fragment → M (WsSessionOn S) (Unit {0})
  receive_rest [] last = receive true opcode_continuation last
  receive_rest (f ∷ fs) last = receive false opcode_continuation f >> receive_rest fs last

  abbrev pub joined : List Fragment → Fragment → List ℕ
  joined [] last = last.payload
  joined (f ∷ fs) last = f.payload ++ joined fs last

  receive_rest-joined :
      (kind : Kind) (b : ℕ) (bs : List ℕ) (fs : List Fragment) (last : Fragment) (w w' : S)
      → All IsFragment fs
      → IsFragment last
      → length (b ∷ bs) + length (joined fs last) < 2 ^ 63
      → hand_over handler kind (b ∷ (bs ++ joined fs last)) w ≡ (ok tt, w')
      → receive_rest fs last (in_state (kind_opcode kind) (b ∷ bs) w)
        ≡ (ok tt, in_state (kind_opcode kind) [] w')
  receive_rest-joined kind b bs [] last w w' hfs hf hn e = receive_last kind b bs last w w' hf hn e
  receive_rest-joined kind b bs (f ∷ fs) last w w' hfs hf hn e =
      ap (λ r. continue r (λ _. receive_rest fs last))
        (receive_middle (kind_opcode kind) b bs f w hfs.0
          (omega (arith, length-append f.payload (joined fs last))))
      ∙ receive_rest-joined kind b (bs ++ f.payload) fs last w w' hfs.1 hf
          (omega (arith, length-append f.payload (joined fs last), length-append bs f.payload))
          (ap (λ m. hand_over handler kind (b ∷ m) w) (append_assoc bs f.payload (joined fs last))
            ∙ e)

  receive_rest_on :
      (kind : Kind) (in_buf : List ℕ) (fs : List Fragment) (last : Fragment) (w w' : S)
      → All IsFragment fs
      → IsFragment last
      → 0 < length in_buf
      → length in_buf + length (joined fs last) < 2 ^ 63
      → hand_over handler kind (in_buf ++ joined fs last) w ≡ (ok tt, w')
      → receive_rest fs last (in_state (kind_opcode kind) in_buf w)
        ≡ (ok tt, in_state (kind_opcode kind) [] w')
  receive_rest_on kind [] fs last w w' hfs hf pos hn e = absurd (omega arith)
  receive_rest_on kind (b ∷ bs) fs last w w' hfs hf pos hn e =
      receive_rest-joined kind b bs fs last w w' hfs hf hn e

-- A message below 2 ^ 63 bytes that its sender split into masked frames, each of them in memory
-- as a whole when it is received and the first of them not empty: once the last one is there,
-- the application is called, with the payloads joined in order, and where that call returns the
-- buffer is empty again. Memory behind each frame plays no part.
pub fragments_reassembled :
    {S : Type 0} ⦃holder : Holder S⦄ (net : Net) (handler : WsHandlerOn S) (kind : Kind)
    (first : Fragment) (middle : List Fragment) (last : Fragment) (old : ℕ) (w w' : S)
    → IsFragment first
    → All IsFragment middle
    → IsFragment last
    → 0 < length first.payload
    → length first.payload + length (joined net handler middle last) < 2 ^ 63
    → hand_over handler kind (first.payload ++ joined net handler middle last) w ≡ (ok tt, w')
    → ((receive net handler false (kind_opcode kind) first >> receive_rest net handler middle last)
        (in_state old [] w))
      ≡ (ok tt, in_state (kind_opcode kind) [] w')
fragments_reassembled net handler kind first middle last old w w' h1 hm hl pos hn e =
    ap (λ r. continue r (λ _. receive_rest net handler middle last))
      (receive_first net handler (kind_opcode kind) old first w (kind_opcode-lt kind) h1
        (omega arith))
    ∙ receive_rest_on net handler kind first.payload middle last w w' hm hl pos hn e
