-- ===== src/Frame/Wire.antt =====
-- The frame format of RFC 6455, section 5.2, written down independently of the code: what a
-- server sends (no mask) and what a client sends (masked with a four-byte key).
use cppsocks.Base.{ℕ, zero, suc, ◌+◌, ◌%◌, ◌^◌, ◌<◌, bit_xor, Bool}
use cppsocks.Base.{
  List, [], ◌∷◌, ◌++◌, length, ltb, if◌then◌else◌, ◌≡◌, refl, arith, ap, ap₂, All, lt→ltb,
}
use cppsocks.Base.Bytes.{IsByte, xor_twice, load}
use cppsocks.Base.Outcome.{ok}
use cppsocks.ByteOrder.Laws.{be_bytes}

abbrev pub first_byte : Bool → ℕ → ℕ
first_byte is_final opcode = if is_final then 128 + opcode else opcode

-- The seven bits of length, and the extended length behind them.
abbrev pub short_length : ℕ → ℕ
short_length n = if ltb n 126 then n else if ltb n (2 ^ 16) then 126 else 127

abbrev pub extended_length : ℕ → List ℕ
extended_length n = if ltb n 126 then [] else if ltb n (2 ^ 16) then be_bytes 2 n else be_bytes 8 n

unfoldable pub plain_frame : Bool → ℕ → List ℕ → List ℕ
plain_frame is_final opcode payload =
    first_byte is_final opcode
    ∷ short_length (length payload)
    ∷ (extended_length (length payload) ++ payload)

-- A payload that the short form of the length can count.
pub length-plain_frame :
    (is_final : Bool) (opcode : ℕ) (payload : List ℕ)
    → length payload < 126
    → length (plain_frame is_final opcode payload) ≡ length payload + 2
unfolding plain_frame
length-plain_frame is_final opcode payload short =
    rw (lt→ltb (length payload) 126 short) (omega arith)

pub record Key : Type 0 where
  pub k0 : ℕ
  pub k1 : ℕ
  pub k2 : ℕ
  pub k3 : ℕ

abbrev pub key_bytes : Key → List ℕ
key_bytes k = k.k0 ∷ k.k1 ∷ k.k2 ∷ k.k3 ∷ []

abbrev pub key_at : Key → ℕ → ℕ
key_at k zero = k.k0
key_at k (suc zero) = k.k1
key_at k (suc (suc zero)) = k.k2
key_at k (suc (suc (suc n))) = k.k3

-- Octet `i` of the payload is xor-ed with octet `i % 4` of the key; `cnt` is the first `i`.
abbrev pub masked : Key → ℕ → List ℕ → List ℕ
masked k cnt [] = []
masked k cnt (b ∷ bs) = bit_xor b (key_at k (cnt % 4)) ∷ masked k (cnt + 1) bs

unfoldable pub client_frame : Bool → ℕ → Key → List ℕ → List ℕ
client_frame is_final opcode k payload =
    first_byte is_final opcode
    ∷ (128 + short_length (length payload))
    ∷ (extended_length (length payload) ++ (key_bytes k ++ masked k 0 payload))

abbrev pub IsKey : Key → Type 0
IsKey k = All IsByte (key_bytes k)

pub load-key_bytes : (k : Key) (i : ℕ) → i < 4 → load (key_bytes k) i ≡ ok (key_at k i)
load-key_bytes k zero h = refl
load-key_bytes k (suc zero) h = refl
load-key_bytes k (suc (suc zero)) h = refl
load-key_bytes k (suc (suc (suc zero))) h = refl
load-key_bytes k (suc (suc (suc (suc i)))) h = absurd (omega arith)

key_at-IsByte : (k : Key) (i : ℕ) → IsKey k → IsByte (key_at k i)
key_at-IsByte k zero h = h.0
key_at-IsByte k (suc zero) h = h.1.0
key_at-IsByte k (suc (suc zero)) h = h.1.1.0
key_at-IsByte k (suc (suc (suc i))) h = h.1.1.1.0

pub length-masked : (k : Key) (cnt : ℕ) (bs : List ℕ) → length (masked k cnt bs) ≡ length bs
length-masked k cnt [] = refl
length-masked k cnt (b ∷ bs) = ap suc (length-masked k (cnt + 1) bs)

pub masked-masked :
    (k : Key) (cnt : ℕ) (bs : List ℕ)
    → IsKey k
    → All IsByte bs
    → masked k cnt (masked k cnt bs) ≡ bs
masked-masked k cnt [] hk hb = refl
masked-masked k cnt (b ∷ bs) hk hb =
    ap₂ ◌∷◌ (xor_twice b (key_at k (cnt % 4)) hb.0 (key_at-IsByte k (cnt % 4) hk))
      (masked-masked k (cnt + 1) bs hk hb.1)
