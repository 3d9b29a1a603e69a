-- ===== src/ByteOrder.antt =====
-- tcp/socks_tcp_util.hpp: `ntoh` and `hton`, big-endian words of `w` bytes at `data + off`.
-- `T` is given by its size `w`; a value of type `T` is a number below `2 ^ (w * 8)`.
pub mod Laws
pub mod Tests
use cppsocks.Base.{ℕ, zero, suc, ◌+◌, ◌-◌, ◌*◌, ◌/◌, ◌%◌, ◌^◌, bit_and, List}
use cppsocks.Base.Bytes.{load, store}
use cppsocks.Base.Outcome.{Result, ok, ◌>>=◌}

module _ (w : ℕ) where
  -- The loop at index `cnt`, with `left` rounds to go.
  pub ntoh_loop : List ℕ → ℕ → ℕ → ℕ → ℕ → Result ℕ
  ntoh_loop data_ off zero cnt result = ok result
  ntoh_loop data_ off (suc left) cnt result = do
    b ← load data_ (off + cnt)
    ntoh_loop data_ off left (cnt + 1)
        ((result + b * 2 ^ ((w - cnt - 1) * 8) % 2 ^ (w * 8)) % 2 ^ (w * 8))

  pub hton_loop : ℕ → ℕ → ℕ → ℕ → List ℕ → Result (List ℕ)
  hton_loop off value zero cnt data_ = ok data_
  hton_loop off value (suc left) cnt data_ = do
    data' ← store data_ (off + cnt) (bit_and (value / 2 ^ ((w - 1 - cnt) * 8)) 0xff)
    hton_loop off value left (cnt + 1) data'

unfoldable pub ntoh : ℕ → List ℕ → ℕ → Result ℕ
unfolding ntoh_loop
ntoh w data_ off = ntoh_loop w data_ off w 0 0

unfoldable pub hton : ℕ → List ℕ → ℕ → ℕ → Result (List ℕ)
unfolding hton_loop
hton w data_ off value = hton_loop w off value w 0 data_
