-- ===== src/Frame/Decode.antt =====
-- `WebSocketFrame::decode` against the frame format.
use cppsocks.Base.{ℕ, suc, ◌+◌, ◌^◌, ◌≤◌, ◌<◌, bit_and, Bool, true, false}
use cppsocks.Base.{List, ◌∷◌, ◌++◌, append_assoc, length, drop, replicate}
use cppsocks.Base.{◌≡◌, sym, ap, ◌∙◌, arith, ◌==◌, All}
use cppsocks.Base.{le→ltb, lt→ltb, length-append, length-replicate}
use cppsocks.Base.Bytes.{IsByte, low_seven, low_four, top_bit}
use cppsocks.Base.Copies.{load_n-append, store_n_front}
use cppsocks.Base.Outcome.{ok, err, thrown, invalid_argument}
use cppsocks.Frame.{decode, unmask, fill}
use cppsocks.Frame.Wire.{
  Key, key_bytes, masked, plain_frame, client_frame, first_byte, short_length, extended_length,
  IsKey, length-masked, masked-masked,
}
use cppsocks.Frame.Unmask.{frame_length-wire, grow-append, unmask-masked}

-- The second byte of a frame: the mask bit and the short length.
short_length-lt : (n : ℕ) → short_length n < 128
short_length-lt n = ground arith

module _ (n : ℕ) where
  masked_byte :
      (bit_and (128 + short_length n) 0x7f ≡ short_length n)
      × (bit_and (128 + short_length n) 0x80 ≡ 0x80)
  masked_byte = (
    low_seven (128 + short_length n) (omega (arith, short_length-lt n))
        ∙ omega (arith, short_length-lt n),
    top_bit (128 + short_length n) (omega (arith, short_length-lt n))
        ∙ omega (arith, short_length-lt n),
  )

  pub plain_byte :
      (bit_and (short_length n) 0x7f ≡ short_length n) × (bit_and (short_length n) 0x80 ≡ 0)
  plain_byte = (
    low_seven (short_length n) (omega (arith, short_length-lt n))
        ∙ omega (arith, short_length-lt n),
    top_bit (short_length n) (omega (arith, short_length-lt n)) ∙ omega (arith, short_length-lt n),
  )

pub first_byte_parts :
    (is_final : Bool) (opcode : ℕ)
    → opcode < 16
    → (bit_and (first_byte is_final opcode) 0x0f ≡ opcode)
      × ((bit_and (first_byte is_final opcode) 0x80 == 0x80) ≡ is_final)
first_byte_parts true opcode h =
    (low_four (128 + opcode) (omega arith) ∙ omega arith, ground (arith, top_bit (128 + opcode)))
first_byte_parts false opcode h =
    (low_four opcode (omega arith) ∙ omega arith, ground (arith, top_bit opcode))

-- What `decode` does behind the header's two bytes, with the rest of the frame in memory.
module _ (len : ℕ) (is_final : Bool) (opcode n : ℕ) (acc : List ℕ) where
  decode_header :
      (b1 : ℕ) (is_masked : Bool) (rest out : List ℕ)
      → 2 ≤ len
      → opcode < 16
      → length acc + n < 2 ^ 63
      → bit_and b1 0x7f ≡ short_length n
      → (bit_and b1 0x80 == 0x80) ≡ is_masked
      → fill is_masked
          (first_byte is_final opcode ∷ b1 ∷ (extended_length n ++ rest))
          (suc (suc (length (extended_length n))))
          n
          (length acc)
          (acc ++ replicate n 0)
        ≡ ok out
      → decode (first_byte is_final opcode ∷ b1 ∷ (extended_length n ++ rest)) len acc
        ≡ ok (record { payload = out; opcode = opcode; is_final = is_final })
  unfolding decode
  decode_header b1 is_masked rest out hlen ho hn low top filled = rw (
    le→ltb len 2 hlen,
    low,
    frame_length-wire (first_byte is_final opcode) b1 n rest (omega arith),
    grow-append acc n hn,
    top,
    filled,
    (first_byte_parts is_final opcode ho).0,
    (first_byte_parts is_final opcode ho).1,
  )

fill-masked :
    (k : Key) (header payload after acc : List ℕ)
    → IsKey k
    → All IsByte payload
    → fill true
        (header ++ (key_bytes k ++ (masked k 0 payload ++ after)))
        (length header)
        (length payload)
        (length acc)
        (acc ++ replicate (length payload) 0)
      ≡ ok (acc ++ payload)
unfolding fill
fill-masked k header payload after acc hk hb =
    ap (λ n. unmask buf (length header) n (length acc) (acc ++ zeros)) (sym same)
    ∙ unmask-masked k header (masked k 0 payload) after acc zeros (omega (arith, same, zeros_long))
    ∙ ap (λ t. ok (acc ++ t)) (masked-masked k 0 payload hk hb)
  where
    buf : List ℕ
    buf = header ++ (key_bytes k ++ (masked k 0 payload ++ after))

    zeros : List ℕ
    zeros = replicate (length payload) 0

    zeros_long : length zeros ≡ length payload
    zeros_long = length-replicate (length payload) 0

    same : length (masked k 0 payload) ≡ length payload
    same = length-masked k 0 payload

-- A masked frame that lies whole in memory, as RFC 6455 makes every client send it: `decode`
-- appends its payload to what earlier frames left, in all three forms of the length, and reports
-- its opcode and its FIN bit. The opcode has four bits, key and payload are bytes, and together
-- the payloads stay below 2 ^ 63 bytes; `len` may be anything from 2 on.
pub decode-client_frame :
    (is_final : Bool) (opcode : ℕ) (k : Key) (payload after acc : List ℕ) (len : ℕ)
    → opcode < 16
    → IsKey k
    → All IsByte payload
    → 2 ≤ len
    → length acc + length payload < 2 ^ 63
    → decode (client_frame is_final opcode k payload ++ after) len acc
      ≡ ok (record { payload = acc ++ payload; opcode = opcode; is_final = is_final })
unfolding client_frame
decode-client_frame is_final opcode k payload after acc len ho hk hb hlen hn =
    ap (λ m. decode (b0 ∷ b1 ∷ m) len acc)
      (append_assoc (extended_length n) (key_bytes k ++ masked k 0 payload) after)
    ∙ decode_header len is_final opcode n acc b1 true (key_bytes k ++ (masked k 0 payload ++ after))
        (acc ++ payload) hlen ho hn (masked_byte n).0 (ground (arith, (masked_byte n).1))
        (fill-masked k (b0 ∷ b1 ∷ extended_length n) payload after acc hk hb)
  where
    n : ℕ
    n = length payload

    b0 : ℕ
    b0 = first_byte is_final opcode

    b1 : ℕ
    b1 = 128 + short_length n

fill_plain :
    (header payload after acc : List ℕ)
    → fill false
        (header ++ (payload ++ after))
        (length header)
        (length payload)
        (length acc)
        (acc ++ replicate (length payload) 0)
      ≡ ok (payload ++ drop (length payload) (acc ++ replicate (length payload) 0))
unfolding fill
fill_plain header payload after acc =
    rw (load_n-append header payload after) (store_n_front (acc ++ zeros) payload room)
  where
    zeros : List ℕ
    zeros = replicate (length payload) 0

    zeros_long : length zeros ≡ length payload
    zeros_long = length-replicate (length payload) 0

    room : length payload ≤ length (acc ++ zeros)
    room = omega (arith, length-append acc zeros, zeros_long)

-- An unmasked frame that lies whole in memory, with an opcode of four bits, a `len` from 2 on
-- and less than 2 ^ 63 bytes of payload in all: `decode` reports its opcode and its FIN bit, but
-- writes the payload over the front of what earlier frames left, and not behind it.
pub decode-plain_frame :
    (is_final : Bool) (opcode : ℕ) (payload after acc : List ℕ) (len : ℕ)
    → opcode < 16
    → 2 ≤ len
    → length acc + length payload < 2 ^ 63
    → decode (plain_frame is_final opcode payload ++ after) len acc
      ≡ ok (record {
        payload = payload ++ drop (length payload) (acc ++ replicate (length payload) 0);
        opcode = opcode;
        is_final = is_final;
      })
unfolding plain_frame
decode-plain_frame is_final opcode payload after acc len ho hlen hn =
    ap (λ m. decode (b0 ∷ b1 ∷ m) len acc) (append_assoc (extended_length n) payload after)
    ∙ decode_header len is_final opcode n acc b1 false (payload ++ after)
        (payload ++ drop n (acc ++ replicate n 0)) hlen ho hn (plain_byte n).0
        (ground (arith, (plain_byte n).1))
        (fill_plain (b0 ∷ b1 ∷ extended_length n) payload after acc)
  where
    n : ℕ
    n = length payload

    b0 : ℕ
    b0 = first_byte is_final opcode

    b1 : ℕ
    b1 = short_length n

-- From two bytes on, `decode` gives the same for every `len`: it never learns where the bytes
-- that were received end.
pub decode_ignores_len :
    (buf acc : List ℕ) (len : ℕ) → 2 ≤ len → decode buf len acc ≡ decode buf 2 acc
unfolding decode
decode_ignores_len buf acc len h = rw (le→ltb len 2 h)

pub decode_too_short :
    (buf acc : List ℕ) (len : ℕ) → len < 2 → decode buf len acc ≡ err (thrown invalid_argument)
unfolding decode
decode_too_short buf acc len h = rw (lt→ltb len 2 h)
