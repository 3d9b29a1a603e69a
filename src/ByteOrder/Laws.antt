-- ===== src/ByteOrder/Laws.antt =====
-- tcp/socks_tcp_util.hpp: what `ntoh` reads and `hton` writes, for every width.
use cppsocks.Base.{
  ℕ, zero, suc, ◌+◌, ◌-◌, ◌*◌, ◌/◌, ◌%◌, ◌^◌, ◌≤◌, ◌<◌, ◌≡◌, refl, sym, ap, ap₂, ◌∙◌,
}
use cppsocks.Base.{List, [], ◌∷◌, ◌++◌, append_assoc, arith, length, take, drop, All}
use cppsocks.Base.{length-append, split_three}
use cppsocks.Base.{take-append_length, drop-append_length}
use cppsocks.Base.Bytes.{IsByte, load-append, store-append}
use cppsocks.Base.Masks.{low_byte, mod-eq_of_parts}
use cppsocks.Base.Outcome.{ok}
use cppsocks.ByteOrder.{ntoh_loop, hton_loop, ntoh, hton}
use native.Mathlib.Numerals.{towards_suc}
use native.Mathlib.Nat.{mod-eq_of_lt, div-add-mod, mod-lt, one-le-pow}

-- The number that bytes stand for, the first byte the most significant.
abbrev pub be_value : List ℕ → ℕ
be_value [] = 0
be_value (b ∷ bs) = b * 2 ^ (length bs * 8) + be_value bs

-- The `w` low bytes of a number, the most significant first.
abbrev pub be_bytes : ℕ → ℕ → List ℕ
be_bytes zero v = []
be_bytes (suc n) v = (v / 2 ^ (n * 8) % 256) ∷ be_bytes n v

pub pow_byte : (n : ℕ) → 2 ^ (suc n * 8) ≡ 256 * 2 ^ (n * 8)
pow_byte n = ap (λ k. 2 ^ k) (eight n) ∙ simp towards_suc (omega arith)
  where
    eight : (k : ℕ) → suc k * 8 ≡ k * 8 + 8
    eight k = omega arith

pub length-be_bytes : (n v : ℕ) → length (be_bytes n v) ≡ n
length-be_bytes zero v = refl
length-be_bytes (suc n) v = ap suc (length-be_bytes n v)

pub be_bytes-IsByte : (n v : ℕ) → All IsByte (be_bytes n v)
be_bytes-IsByte zero v = tt
be_bytes-IsByte (suc n) v = (omega arith, be_bytes-IsByte n v)

pub be_value-lt : (bs : List ℕ) → All IsByte bs → be_value bs < 2 ^ (length bs * 8)
be_value-lt [] h = omega arith
be_value-lt (b ∷ bs) h = omega (arith, pow_byte (length bs), be_value-lt bs h.1, scaled)
  where
    scaled : b * 2 ^ (length bs * 8) ≤ 255 * 2 ^ (length bs * 8)
    scaled = grind arith

be_value-be_bytes : (n v : ℕ) → be_value (be_bytes n v) ≡ v % 2 ^ (n * 8)
be_value-be_bytes zero v = omega arith
be_value-be_bytes (suc n) v =
    rw (length-be_bytes n v, be_value-be_bytes n v)
      (sym (
        mod-eq_of_parts v (2 ^ (suc n * 8)) (v / P / 256) (v / P % 256 * P + v % P)
          (omega (arith, pow_byte n, mod-lt v (one-le-pow (n * 8) 2 (omega arith)), below))
          (omega (
            arith,
            ap (λ (t : ℕ). t * (v / P / 256)) (pow_byte n),
            div-add-mod v P,
            ap (λ (t : ℕ). P * t) (div-add-mod (v / P) 256),
          ))))
  where
    P : ℕ
    P = 2 ^ (n * 8)

    below : v / P % 256 * P ≤ 255 * P
    below = grind arith

add_mod_small : (r x m : ℕ) → r + x < m → (r + x % m) % m ≡ r + x
add_mod_small r x m h =
    rw (mod-eq_of_lt {n = x} {m = m} (omega arith), mod-eq_of_lt {n = r + x} {m = m} h)

module _ (w off : ℕ) where
  ntoh_loop-value :
      (pre bs post : List ℕ) (cnt result : ℕ)
      → length pre ≡ off + cnt
      → length bs + cnt ≡ w
      → All IsByte bs
      → result + be_value bs < 2 ^ (w * 8)
      → ntoh_loop w (pre ++ (bs ++ post)) off (length bs) cnt result ≡ ok (result + be_value bs)
  unfolding ntoh_loop
  ntoh_loop-value pre [] post cnt result hp hw hb fits = ap ok (omega arith)
  ntoh_loop-value pre (b ∷ bs) post cnt result hp hw hb fits =
      rw (load-append pre b (bs ++ post) (off + cnt) hp, index)
        (ap₂ (λ m r. ntoh_loop w m off (length bs) (cnt + 1) r)
            (sym (append_assoc pre (b ∷ []) (bs ++ post)))
            (add_mod_small result (b * 2 ^ (length bs * 8)) (2 ^ (w * 8)) (omega arith))
          ∙ ntoh_loop-value (pre ++ (b ∷ [])) bs post (cnt + 1) (result + b * 2 ^ (length bs * 8))
              (omega (arith, length-append pre (b ∷ []))) (omega arith) hb.1 (omega arith)
          ∙ ap ok (omega arith))
    where
      index : w - cnt - 1 ≡ length bs
      index = omega arith

  hton_loop-bytes :
      (v : ℕ) (pre old post : List ℕ) (cnt : ℕ)
      → length pre ≡ off + cnt
      → length old + cnt ≡ w
      → hton_loop w off v (length old) cnt (pre ++ (old ++ post))
        ≡ ok (pre ++ (be_bytes (length old) v ++ post))
  unfolding hton_loop
  hton_loop-bytes v pre [] post cnt hp hw = refl
  hton_loop-bytes v pre (x ∷ old) post cnt hp hw =
      rw (index, low_byte (v / 2 ^ (length old * 8)))
        (rw (store-append pre x b (old ++ post) (off + cnt) hp) (
          ap (hton_loop w off v (length old) (cnt + 1))
            (sym (append_assoc pre (b ∷ []) (old ++ post)))
          ∙ hton_loop-bytes v (pre ++ (b ∷ [])) old post (cnt + 1)
              (omega (arith, length-append pre (b ∷ []))) (omega arith)
          ∙ ap ok (append_assoc pre (b ∷ []) (be_bytes (length old) v ++ post))))
    where
      b : ℕ
      b = v / 2 ^ (length old * 8) % 256

      index : w - 1 - cnt ≡ length old
      index = omega arith

-- `ntoh` returns the big-endian value of the bytes that stand at `off`.
pub ntoh-value :
    (pre bs post : List ℕ)
    → All IsByte bs
    → ntoh (length bs) (pre ++ (bs ++ post)) (length pre) ≡ ok (be_value bs)
unfolding ntoh
ntoh-value pre bs post h =
    ntoh_loop-value (length bs) (length pre) pre bs post 0 0 (omega arith) (omega arith) h
      (omega (arith, be_value-lt bs h))
    ∙ ap ok (omega arith)

-- `hton` puts the bytes of the value, most significant first, over the `w` bytes at `off`.
pub hton-bytes :
    (v : ℕ) (pre old post : List ℕ)
    → hton (length old) (pre ++ (old ++ post)) (length pre) v
      ≡ ok (pre ++ (be_bytes (length old) v ++ post))
unfolding hton
hton-bytes v pre old post =
    hton_loop-bytes (length old) (length pre) v pre old post 0 (omega arith) (omega arith)

pub ntoh-be_bytes :
    (w v : ℕ) (pre post : List ℕ)
    → v < 2 ^ (w * 8)
    → ntoh w (pre ++ (be_bytes w v ++ post)) (length pre) ≡ ok v
ntoh-be_bytes w v pre post fits =
    rw (length-be_bytes, be_value-be_bytes, mod-eq_of_lt fits) at
      (ntoh-value pre (be_bytes w v) post (be_bytes-IsByte w v))

-- What a write of `v` and a read at the same place do to a buffer.
abbrev pub IsWritten : ℕ → ℕ → ℕ → List ℕ → List ℕ → Type 0
IsWritten w off v data_ out =
    (hton w data_ off v ≡ ok out)
    × (ntoh w out off ≡ ok v)
    × (take off out ≡ take off data_)
    × (drop w (drop off out) ≡ drop w (drop off data_))
    × (length out ≡ length data_)

drop_both :
    (pre mid post : List ℕ) → drop (length mid) (drop (length pre) (pre ++ (mid ++ post))) ≡ post
drop_both pre mid post = rw (drop-append_length pre (mid ++ post)) (drop-append_length mid post)

written :
    (v : ℕ) (pre old post : List ℕ)
    → v < 2 ^ (length old * 8)
    → IsWritten
        (length old)
        (length pre)
        v
        (pre ++ (old ++ post))
        (pre ++ (be_bytes (length old) v ++ post))
written v pre old post fits = (
  hton-bytes v pre old post,
  ntoh-be_bytes (length old) v pre post fits,
  take-append_length pre _ ∙ sym (take-append_length pre _),
  ap (λ k. drop k (drop (length pre) (pre ++ (new ++ post)))) (sym (length-be_bytes (length old) v))
      ∙ drop_both pre new post
      ∙ sym (drop_both pre old post),
  omega (
    arith,
    length-append pre (new ++ post),
    length-append pre (old ++ post),
    length-append new post,
    length-append old post,
    length-be_bytes (length old) v,
  ),
)
  where
    new : List ℕ
    new = be_bytes (length old) v

IsWritten-at :
    (w off v : ℕ) (data_ pre old post : List ℕ)
    → data_ ≡ pre ++ (old ++ post)
    → length pre ≡ off
    → length old ≡ w
    → v < 2 ^ (w * 8)
    → IsWritten w off v data_ (pre ++ (be_bytes w v ++ post))
IsWritten-at w off v data_ pre old post e lp lo fits =
    rw (e, ← lp, ← lo) (written v pre old post (rw lo fits))

-- A value of `w` bytes that `hton` writes where there is room for it in a buffer is the one that
-- `ntoh` reads there. `hton` changes no byte before `off`, none from `off + w` on, and not the
-- length.
pub ntoh-hton :
    (w off v : ℕ) (data_ : List ℕ)
    → off + w ≤ length data_
    → v < 2 ^ (w * 8)
    → (out : List ℕ) × IsWritten w off v data_ out
ntoh-hton w off v data_ room fits =
    let (pre, old, post, e, lp, lo) = split_three off w data_ room in
    (pre ++ (be_bytes w v ++ post), IsWritten-at w off v data_ pre old post e lp lo fits)
