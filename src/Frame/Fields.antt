-- ===== src/Frame/Fields.antt =====
-- The accessors of `WebSocketFrame`, and the frames that the library itself sends.
use cppsocks.Base.{ℕ, ◌^◌, ◌≤◌, ◌<◌, Bool, true, false, Bool-cases, inl, inr}
use cppsocks.Base.{List, [], ◌∷◌, ◌++◌, append-nil, length, ◌≡◌, sym, ap, ◌∙◌, arith}
use cppsocks.Base.{drop, replicate, drop_all, length-replicate, ltb, ltb→lt, lt→ltb}
use cppsocks.Base.Bytes.{load_n, c_str-append, IsText}
use cppsocks.Base.Copies.{load_n-append}
use cppsocks.Base.Outcome.{ok, ◌>>=◌}
use cppsocks.ByteOrder.Laws.{be_bytes, hton-bytes, ntoh-be_bytes}
use cppsocks.Frame.{
  make, make_binary, make_text, create_connection_close, create_pong, payload_length,
  payload_offset, fin, mask, decode, opcode_binary, opcode_text, opcode_connection_close,
  opcode_connection_pong,
}
use cppsocks.Frame.Build.{make-plain_frame}
use cppsocks.Frame.Decode.{plain_byte, first_byte_parts, decode-plain_frame}
use cppsocks.Frame.Wire.{plain_frame, first_byte}

-- Of the frames that the code can build, `payloadLength` gives the payload's length.
pub payload_length-plain_frame :
    (is_final : Bool) (opcode : ℕ) (payload : List ℕ)
    → length payload < 2 ^ 16
    → payload_length (plain_frame is_final opcode payload) ≡ ok (length payload)
unfolding payload_length plain_frame
payload_length-plain_frame is_final opcode payload h =
    rw ((plain_byte (length payload)).0) (elim (Bool-cases (ltb (length payload) 126)) [
      | inl short ↦ rw short (ground (arith, ltb→lt (length payload) 126 short))
      | inr long ↦
          rw (long, lt→ltb (length payload) (2 ^ 16) h)
            (ntoh-be_bytes 2 (length payload) (first_byte is_final opcode ∷ 126 ∷ []) payload h)
    ])

-- `payload` points at the payload, for short and for long frames.
pub payload_offset-plain_frame :
    (is_final : Bool) (opcode : ℕ) (payload : List ℕ)
    → length payload < 2 ^ 16
    → (payload_offset (plain_frame is_final opcode payload) >>= λ off.
        load_n (plain_frame is_final opcode payload) off (length payload))
      ≡ ok payload
unfolding payload_offset
payload_offset-plain_frame is_final opcode payload h =
    rw (payload_length-plain_frame is_final opcode payload h) (
      unfold plain_frame in
      elim (Bool-cases (ltb (length payload) 126)) [
        | inl short ↦ rw short (behind (b0 ∷ length payload ∷ []))
        | inr long ↦
            rw (long, lt→ltb (length payload) (2 ^ 16) h)
              (behind (b0 ∷ 126 ∷ be_bytes 2 (length payload)))
      ])
  where
    b0 : ℕ
    b0 = first_byte is_final opcode

    behind :
        (header : List ℕ) → load_n (header ++ payload) (length header) (length payload) ≡ ok payload
    behind header =
        ap (λ m. load_n (header ++ m) (length header) (length payload)) (sym (append-nil payload))
        ∙ load_n-append header payload []

-- `fin` and `mask` read the FIN bit and the mask bit, which the code never sets.
pub flags-plain_frame :
    (is_final : Bool) (opcode : ℕ) (payload : List ℕ)
    → opcode < 16
    → (fin (plain_frame is_final opcode payload) ≡ ok is_final)
      × (mask (plain_frame is_final opcode payload) ≡ ok false)
unfolding fin mask plain_frame
flags-plain_frame is_final opcode payload h =
    (ap ok (first_byte_parts is_final opcode h).1, ground (arith, (plain_byte (length payload)).1))

make-whole :
    (payload : List ℕ) (is_final : Bool) (opcode : ℕ)
    → opcode < 16
    → length payload < 2 ^ 16
    → make payload (length payload) is_final opcode ≡ ok (plain_frame is_final opcode payload)
make-whole payload is_final opcode ho hl =
    ap (λ m. make m (length payload) is_final opcode) (sym (append-nil payload))
    ∙ make-plain_frame payload [] is_final opcode ho hl

-- The frames that the library sends of its own accord, with a code of 16 bits and a payload that
-- 16 bits can count and that has no NUL: a close frame with the code in network order, a pong
-- with the ping's payload, a binary message, and a text message up to its NUL.
pub library_frames :
    (reason_code : ℕ) (payload rest : List ℕ)
    → reason_code < 2 ^ 16
    → length payload < 2 ^ 16
    → IsText payload
    → (create_connection_close reason_code
        ≡ ok (plain_frame true opcode_connection_close (be_bytes 2 reason_code)))
      × (create_pong (payload ++ rest) (length payload)
          ≡ ok (plain_frame true opcode_connection_pong payload))
      × (make_binary (payload ++ rest) (length payload) true
          ≡ ok (plain_frame true opcode_binary payload))
      × (make_text (payload ++ (0 ∷ rest)) ≡ ok (plain_frame true opcode_text payload))
unfolding create_connection_close create_pong make_binary make_text
library_frames reason_code payload rest hr hl ht = (
  rw (hton-bytes reason_code [] (0 ∷ 0 ∷ []) []) (
      make-whole (be_bytes 2 reason_code) true opcode_connection_close (omega arith) (omega arith)),
  make-plain_frame payload rest true opcode_connection_pong (omega arith) hl,
  make-plain_frame payload rest true opcode_binary (omega arith) hl,
  rw (c_str-append payload rest ht)
      (make-plain_frame payload (0 ∷ rest) true opcode_text (omega arith) hl),
)

-- With an opcode of four bits and a payload that 16 bits can count, building a frame and
-- decoding it into an empty buffer gives the payload, the opcode and the FIN bit back.
pub decode-make :
    (is_final : Bool) (opcode : ℕ) (payload after : List ℕ)
    → opcode < 16
    → length payload < 2 ^ 16
    → (make payload (length payload) is_final opcode >>= λ frame.
        decode (frame ++ after) (length frame) [])
      ≡ ok (record { payload = payload; opcode = opcode; is_final = is_final })
decode-make is_final opcode payload after ho hl = rw (make-whole payload is_final opcode ho hl) (
    decode-plain_frame is_final opcode payload after []
      (length (plain_frame is_final opcode payload)) ho two (omega arith)
    ∙ ap (λ m. ok (record { payload = m; opcode = opcode; is_final = is_final })) nothing_left)
  where
    two : 2 ≤ length (plain_frame is_final opcode payload)
    two = unfold plain_frame in omega arith

    zeros : List ℕ
    zeros = replicate (length payload) 0

    zeros_long : length zeros ≡ length payload
    zeros_long = length-replicate (length payload) 0

    nothing_left : payload ++ drop (length payload) zeros ≡ payload
    nothing_left =
        ap (◌++◌ payload) (drop_all (length payload) zeros (omega (arith, zeros_long)))
        ∙ append-nil payload
