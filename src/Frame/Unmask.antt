-- ===== src/Frame/Unmask.antt =====
-- The parts of `WebSocketFrame::decode`: the length, the room for the payload, and the loop that
-- takes the mask off.
use cppsocks.Base.{ℕ, suc, ◌+◌, ◌-◌, ◌%◌, ◌^◌, ◌<◌, bit_xor}
use cppsocks.Base.{List, [], ◌∷◌, ◌++◌, append_assoc, length, replicate}
use cppsocks.Base.{◌≡◌, refl, sym, ap, ap₂, ◌∙◌, arith, ltb}
use cppsocks.Base.{le→ltb, ltb→lt, Bool-cases, length-append, inl, inr}
use cppsocks.Base.Bytes.{load-append, store-append, load_more}
use cppsocks.Base.Copies.{resize_more}
use cppsocks.Base.Outcome.{ok}
use cppsocks.ByteOrder.Laws.{ntoh-be_bytes}
use cppsocks.Frame.{frame_length, grow, unmask_loop, unmask}
use cppsocks.Frame.Wire.{
  Key, key_bytes, key_at, masked, short_length, extended_length, load-key_bytes,
}
use native.Mathlib.Nat.{mod-eq_of_lt}

pub frame_length-wire :
    (b0 b1 n : ℕ) (rest : List ℕ)
    → n < 2 ^ 64
    → frame_length (b0 ∷ b1 ∷ (extended_length n ++ rest)) (short_length n)
      ≡ ok (n, suc (suc (length (extended_length n))))
unfolding frame_length
frame_length-wire b0 b1 n rest h = elim (Bool-cases (ltb n 126)) [
  | inl short ↦ rw short (ground (arith, ltb→lt n 126 short))
  | inr not_short ↦ elim (Bool-cases (ltb n (2 ^ 16))) [
    | inl middle ↦
        rw (not_short, middle, ntoh-be_bytes 2 n (b0 ∷ b1 ∷ []) rest (ltb→lt n (2 ^ 16) middle))
    | inr long ↦ rw (not_short, long, ntoh-be_bytes 8 n (b0 ∷ b1 ∷ []) rest h)
  ]
]

pub grow-append :
    (payload_buf : List ℕ) (n : ℕ)
    → length payload_buf + n < 2 ^ 63
    → grow payload_buf n ≡ ok (payload_buf ++ replicate n 0)
unfolding grow
grow-append payload_buf n h =
    rw
      (
        mod-eq_of_lt {n = length payload_buf + n} {m = 2 ^ 64} (omega arith),
        le→ltb (2 ^ 63 - 1) (length payload_buf + n) (omega arith),
      )
      (ap ok (resize_more payload_buf n))

module _ (k : Key) (src dst : ℕ) where
  unmask_loop-masked :
      (before bs after pre old : List ℕ) (cnt : ℕ)
      → length before ≡ src + cnt
      → length pre ≡ dst + cnt
      → length old ≡ length bs
      → unmask_loop (key_bytes k) (before ++ (bs ++ after)) src dst (length bs) cnt (pre ++ old)
        ≡ ok (pre ++ masked k cnt bs)
  unfolding unmask_loop
  unmask_loop-masked before [] after pre [] cnt hs hd hl = refl
  unmask_loop-masked before [] after pre (x ∷ old) cnt hs hd hl = absurd (omega arith)
  unmask_loop-masked before (b ∷ bs) after pre [] cnt hs hd hl = absurd (omega arith)
  unmask_loop-masked before (b ∷ bs) after pre (x ∷ old) cnt hs hd hl =
      rw
        (
          load-append before b (bs ++ after) (src + cnt) hs,
          load-key_bytes k (cnt % 4) (omega arith),
          store-append pre x new old (dst + cnt) hd,
        )
        (ap₂ (λ m p. unmask_loop (key_bytes k) m src dst (length bs) (cnt + 1) p)
            (sym (append_assoc before (b ∷ []) (bs ++ after)))
            (sym (append_assoc pre (new ∷ []) old))
          ∙ unmask_loop-masked (before ++ (b ∷ [])) bs after (pre ++ (new ∷ [])) old (cnt + 1)
              (omega (arith, length-append before (b ∷ [])))
              (omega (arith, length-append pre (new ∷ []))) (omega arith)
          ∙ ap ok (append_assoc pre (new ∷ []) (masked k (cnt + 1) bs)))
    where
      new : ℕ
      new = bit_xor b (key_at k (cnt % 4))

pub unmask-masked :
    (k : Key) (header bs after acc old : List ℕ)
    → length old ≡ length bs
    → unmask
        (header ++ (key_bytes k ++ (bs ++ after)))
        (length header)
        (length bs)
        (length acc)
        (acc ++ old)
      ≡ ok (acc ++ masked k 0 bs)
unfolding unmask
unmask-masked k header bs after acc old e =
    rw
      (
        load-append header k.k0 (k.k1 ∷ k.k2 ∷ k.k3 ∷ (bs ++ after)) (length header) refl,
        load_more header (key_bytes k ++ (bs ++ after)) 1,
        load_more header (key_bytes k ++ (bs ++ after)) 2,
        load_more header (key_bytes k ++ (bs ++ after)) 3,
        ← append_assoc header (key_bytes k) (bs ++ after),
      )
      (unmask_loop-masked k (length header + 4) (length acc) (header ++ key_bytes k) bs after acc
        old 0 (omega (arith, length-append header (key_bytes k))) (omega arith) e)
