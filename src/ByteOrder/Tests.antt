-- ===== src/ByteOrder/Tests.antt =====
-- The cases of test/test_byteorder.cpp.
use cppsocks.Base.{ℕ, List, [], ◌∷◌, ◌≡◌, refl, arith}
use cppsocks.Base.Outcome.{ok}
use cppsocks.ByteOrder.{ntoh, hton}
use cppsocks.ByteOrder.Laws.{IsWritten, ntoh-hton}

ntoh_16 : ntoh 2 (0x12 ∷ 0x34 ∷ []) 0 ≡ ok 0x1234
unfolding ntoh
ntoh_16 = refl

hton_16 : hton 2 (0 ∷ 0 ∷ []) 0 0x1234 ≡ ok (0x12 ∷ 0x34 ∷ [])
unfolding hton
hton_16 = refl

ntoh-hton_example : (out : List ℕ) × IsWritten 2 1 0x1234 (1 ∷ 2 ∷ 3 ∷ 4 ∷ []) out
ntoh-hton_example = ntoh-hton 2 1 0x1234 (1 ∷ 2 ∷ 3 ∷ 4 ∷ []) (omega arith) (omega arith)
