-- ===== src/Frame/Build.antt =====
-- The constructors of http/socks_ws_frame.cpp against the frame format.
use cppsocks.Base.{ℕ, ◌+◌, ◌^◌, ◌≤◌, ◌<◌, Bool, true, false}
use cppsocks.Base.{List, [], ◌∷◌, ◌++◌, append-nil, length, replicate, ◌≡◌, sym, ap, ◌∙◌, arith}
use cppsocks.Base.{
  ◌⊎◌, inl, inr, length-replicate, Bool-cases, ltb, ltb→lt, lt→ltb, le→ltb, ltb→le, le→leb,
}
use native.Mathlib.Nat.{mod-eq_of_lt}
use cppsocks.Base.Bytes.{set_top_bit, zero-bit_or, store_n}
use cppsocks.Base.Copies.{load_n-append, store_n-append, resize_more}
use cppsocks.Base.Outcome.{ok, err, thrown, invalid_argument}
use cppsocks.ByteOrder.Laws.{hton-bytes, be_bytes}
use cppsocks.Frame.{make, set_length, copy_payload}
use cppsocks.Frame.Wire.{plain_frame, short_length, extended_length}

copy_payload-append :
    (header payload rest : List ℕ)
    → copy_payload (payload ++ rest) header (length header) (length payload)
      ≡ ok (header ++ payload)
unfolding copy_payload
copy_payload-append header payload rest =
    rw (load_n-append [] payload rest, resize_more header (length payload))
      (ap (λ m. store_n (header ++ m) (length header) payload) (sym (append-nil zeros))
        ∙ store_n-append header zeros [] payload (sym (length-replicate (length payload) 0))
        ∙ ap (λ m. ok (header ++ m)) (append-nil payload))
  where
    zeros : List ℕ
    zeros = replicate (length payload) 0

set_length_short :
    (b0 : ℕ) (payload rest : List ℕ)
    → length payload < 126
    → set_length (payload ++ rest) (length payload) (b0 ∷ 0 ∷ [])
      ≡ ok (b0 ∷ length payload ∷ payload)
unfolding set_length
set_length_short b0 payload rest h =
    rw (lt→ltb (length payload) 126 h, zero-bit_or (length payload) (omega arith))
      (copy_payload-append (b0 ∷ length payload ∷ []) payload rest)

set_length_long :
    (b0 : ℕ) (payload rest : List ℕ)
    → 126 ≤ length payload
    → length payload < 2 ^ 16
    → set_length (payload ++ rest) (length payload) (b0 ∷ 0 ∷ [])
      ≡ ok (b0 ∷ 126 ∷ (be_bytes 2 (length payload) ++ payload))
unfolding set_length
set_length_long b0 payload rest lo hi =
    rw
      (
        le→ltb (length payload) 126 lo,
        le→leb (length payload) 0xffff (omega arith),
        mod-eq_of_lt hi,
        hton-bytes (length payload) (b0 ∷ 126 ∷ []) (0 ∷ 0 ∷ []) [],
      )
      (copy_payload-append (b0 ∷ 126 ∷ be_bytes 2 (length payload)) payload rest)

set_length-plain :
    (b0 : ℕ) (payload rest : List ℕ)
    → length payload < 2 ^ 16
    → set_length (payload ++ rest) (length payload) (b0 ∷ 0 ∷ [])
      ≡ ok (b0 ∷ short_length (length payload) ∷ (extended_length (length payload) ++ payload))
set_length-plain b0 payload rest h = elim (Bool-cases (ltb (length payload) 126)) [
  | inl short ↦ rw short (set_length_short b0 payload rest (ltb→lt (length payload) 126 short))
  | inr long ↦
      rw (long, lt→ltb (length payload) (2 ^ 16) h)
        (set_length_long b0 payload rest (ltb→le (length payload) 126 long) h)
]

-- With an opcode of four bits and a payload that 16 bits can count, the constructor builds the
-- unmasked frame of the format, whatever memory lies behind the payload.
pub make-plain_frame :
    (payload rest : List ℕ) (is_final : Bool) (opcode : ℕ)
    → opcode < 16
    → length payload < 2 ^ 16
    → make (payload ++ rest) (length payload) is_final opcode
      ≡ ok (plain_frame is_final opcode payload)
unfolding make plain_frame
make-plain_frame payload rest true opcode ho hl =
    rw (le→ltb 15 opcode (omega arith), set_top_bit opcode ho)
      (set_length-plain (128 + opcode) payload rest hl)
make-plain_frame payload rest false opcode ho hl =
    rw (le→ltb 15 opcode (omega arith), zero-bit_or opcode (omega arith))
      (set_length-plain opcode payload rest hl)

-- The constructor throws `invalid_argument` on every opcode from 16 on and on every payload of 2
-- ^ 16 bytes or more.
pub make_rejects :
    (payload : List ℕ) (n : ℕ) (is_final : Bool) (opcode : ℕ)
    → (16 ≤ opcode) ⊎ (2 ^ 16 ≤ n)
    → make payload n is_final opcode ≡ err (thrown invalid_argument)
unfolding make set_length
make_rejects payload n is_final opcode h = ground arith
