-- ===== src/Frame.antt =====
-- http/socks_ws_frame.hpp and http/socks_ws_frame.cpp: `WebSocketFrame`.
-- A frame is the contents of `data_`; a pointer argument is the memory that it points to, so a
-- read past the end of the list is a fault.
pub mod Wire
pub mod Build
pub mod Fields
pub mod Unmask
pub mod Decode
pub mod Tests
use cppsocks.Base.{ℕ, zero, suc, ◌+◌, ◌-◌, ◌%◌, ◌^◌, bit_and, bit_or, bit_xor, Bool, true, false}
use cppsocks.Base.{List, [], ◌∷◌, length, ltb, leb, ◌==◌, if◌then◌else◌}
use cppsocks.Base.Bytes.{load, store, load_n, store_n, resize, c_str}
use cppsocks.Base.Outcome.{
  Result, ok, err, thrown, invalid_argument, runtime_error, length_error, ◌>>=◌,
}
use cppsocks.ByteOrder.{ntoh, hton}

abbrev pub opcode_continuation : ℕ
opcode_continuation = 0x00

abbrev pub opcode_text : ℕ
opcode_text = 0x01

abbrev pub opcode_binary : ℕ
opcode_binary = 0x02

abbrev pub opcode_connection_close : ℕ
opcode_connection_close = 0x08

abbrev pub opcode_connection_ping : ℕ
opcode_connection_ping = 0x09

abbrev pub opcode_connection_pong : ℕ
opcode_connection_pong = 0x0a

-- `data_.resize(headerSize + payloadLength)` and the copy of the payload behind the header.
copy_payload : List ℕ → List ℕ → ℕ → ℕ → Result (List ℕ)
copy_payload payload data_ header_size payload_length = do
  bytes ← load_n payload 0 payload_length
  store_n (resize (header_size + payload_length) data_) header_size bytes

-- The length field, at the start of the branch that the payload's length selects.
set_length : List ℕ → ℕ → List ℕ → Result (List ℕ)
unfolding copy_payload
set_length payload payload_length data_ =
    if ltb payload_length 126
    then (do
      b ← load data_ 1
      data1 ← store data_ 1 (bit_or b payload_length)
      copy_payload payload data1 2 payload_length)
    else if leb payload_length 0xffff
    then (do
      b ← load data_ 1
      data1 ← store data_ 1 (bit_or b 126)
      data2 ← hton 2 (resize 4 data1) 2 (payload_length % 2 ^ 16)
      copy_payload payload data2 4 payload_length)
    else err (thrown invalid_argument)

-- The constructor from a payload, its length, the FIN bit and the opcode.
unfoldable pub make : List ℕ → ℕ → Bool → ℕ → Result (List ℕ)
unfolding set_length
make payload payload_length fin opcode = if ltb 15 opcode then err (thrown invalid_argument) else do
  data0 ← ok (if fin then 0x80 ∷ 0 ∷ [] else 0 ∷ 0 ∷ [])
  b ← load data0 0
  data1 ← store data0 0 (bit_or b opcode)
  set_length payload payload_length data1

-- The constructor that leaves the opcode out.
unfoldable pub make_binary : List ℕ → ℕ → Bool → Result (List ℕ)
make_binary payload payload_length fin = make payload payload_length fin opcode_binary

-- The constructor from a C string.
unfoldable pub make_text : List ℕ → Result (List ℕ)
make_text payload = do text ← c_str payload; make payload (length text) true opcode_text

unfoldable pub create_connection_close : ℕ → Result (List ℕ)
create_connection_close reason_code = do
  payload ← hton 2 (0 ∷ 0 ∷ []) 0 reason_code
  make payload 2 true opcode_connection_close

unfoldable pub create_pong : List ℕ → ℕ → Result (List ℕ)
create_pong buf len = make buf len true opcode_connection_pong

read_length : List ℕ → ℕ → Result ℕ
read_length data_ frame_len =
    if frame_len == 127
    then err (thrown runtime_error)
    else if frame_len == 126
    then ntoh 2 data_ 2
    else ok frame_len

unfoldable pub payload_length : List ℕ → Result ℕ
unfolding ntoh read_length
payload_length data_ = do b ← load data_ 1; read_length data_ (bit_and b 0x7f)

-- `payload()`, as an offset into `data_`.
unfoldable pub payload_offset : List ℕ → Result ℕ
unfolding payload_length
payload_offset data_ = do n ← payload_length data_; ok (if ltb n 126 then 2 else 4)

unfoldable pub fin : List ℕ → Result Bool
fin data_ = do b ← load data_ 0; ok (bit_and b 0x80 == 0x80)

unfoldable pub mask : List ℕ → Result Bool
mask data_ = do b ← load data_ 1; ok (bit_and b 0x80 == 0x80)

-- What `decode` returns and stores through its output parameters.
pub record Decoded : Type 0 where
  pub payload : List ℕ
  pub opcode : ℕ
  pub is_final : Bool

-- The frame's length and the offset behind the length field.
pub frame_length : List ℕ → ℕ → Result (ℕ × ℕ)
frame_length buf short_len =
    if short_len == 126
    then (ntoh 2 buf 2 >>= λ n. ok (n, 4))
    else if short_len == 127
    then (ntoh 8 buf 2 >>= λ n. ok (n, 10))
    else ok (short_len, 2)

-- `payloadBuf.resize(payloadBuf.size() + frameLen)`: the sum is a `size_t`, and a size above the
-- vector's `max_size` throws.
pub grow : List ℕ → ℕ → Result (List ℕ)
grow payload_buf frame_len =
    let size = (length payload_buf + frame_len) % 2 ^ 64 in
    if ltb (2 ^ 63 - 1) size then err (thrown length_error) else ok (resize size payload_buf)

-- The loop that takes the mask off, at index `cnt`, with `left` rounds to go.
unmask_loop : List ℕ → List ℕ → ℕ → ℕ → ℕ → ℕ → List ℕ → Result (List ℕ)
unmask_loop key buf src dst zero cnt payload_buf = ok payload_buf
unmask_loop key buf src dst (suc left) cnt payload_buf = do
  b ← load buf (src + cnt)
  k ← load key (cnt % 4)
  payload' ← store payload_buf (dst + cnt) (bit_xor b k)
  unmask_loop key buf src dst left (cnt + 1) payload'

pub unmask : List ℕ → ℕ → ℕ → ℕ → List ℕ → Result (List ℕ)
unfolding unmask_loop
unmask buf offset frame_len old_size payload_buf = do
  k0 ← load buf offset
  k1 ← load buf (offset + 1)
  k2 ← load buf (offset + 2)
  k3 ← load buf (offset + 3)
  unmask_loop (k0 ∷ k1 ∷ k2 ∷ k3 ∷ []) buf (offset + 4) old_size frame_len 0 payload_buf

-- `std::memcpy(payloadBuf.data(), buf + payloadOffset, frameLen)`
copy_plain : List ℕ → ℕ → ℕ → List ℕ → Result (List ℕ)
copy_plain buf offset frame_len payload_buf = do
  bytes ← load_n buf offset frame_len
  store_n payload_buf 0 bytes

fill : Bool → List ℕ → ℕ → ℕ → ℕ → List ℕ → Result (List ℕ)
unfolding unmask copy_plain
fill is_masked buf offset frame_len old_size payload_buf =
    if is_masked
    then unmask buf offset frame_len old_size payload_buf
    else copy_plain buf offset frame_len payload_buf

unfoldable pub decode : List ℕ → ℕ → List ℕ → Result Decoded
unfolding frame_length grow fill ntoh
decode buf len payload_buf = if ltb len 2 then err (thrown invalid_argument) else do
  b1 ← load buf 1
  b0 ← load buf 0
  (frame_len, offset) ← frame_length buf (bit_and b1 0x7f)
  grown ← grow payload_buf frame_len
  filled ← fill (bit_and b1 0x80 == 0x80) buf offset frame_len (length payload_buf) grown
  ok (record { payload = filled; opcode = bit_and b0 0x0f; is_final = bit_and b0 0x80 == 0x80 })
