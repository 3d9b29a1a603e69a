-- ===== src/Frame/Tests.antt =====
-- The frames of test/test_ws_frame.cpp, and others.
use cppsocks.Base.{
  ℕ, true, false, List, [], ◌∷◌, ◌++◌, length, drop, replicate, ◌≡◌, refl, arith, inl,
}
use cppsocks.Base.Bytes.{codes}
use cppsocks.Base.Outcome.{ok, err, thrown, invalid_argument, ◌>>=◌}
use cppsocks.ByteOrder.Laws.{be_bytes}
use cppsocks.Frame.{
  make, make_binary, make_text, create_connection_close, create_pong, decode, opcode_binary,
  opcode_connection_close, opcode_connection_pong, opcode_text,
}
use cppsocks.Frame.Wire.{Key, plain_frame, client_frame}
use cppsocks.Frame.Build.{make-plain_frame, make_rejects}
use cppsocks.Frame.Decode.{decode-client_frame, decode-plain_frame, decode_ignores_len}
use cppsocks.Frame.Fields.{library_frames, decode-make}

-- RFC 6455, section 5.7: a masked frame that holds `Hello`.
abbrev rfc_key : Key
rfc_key = record { k0 = 0x37; k1 = 0xfa; k2 = 0x21; k3 = 0x3d }

abbrev hello : List ℕ
hello = codes "Hello"

rfc_masked_frame :
    client_frame true 1 rfc_key hello
    ≡ 0x81 ∷ 0x85 ∷ 0x37 ∷ 0xfa ∷ 0x21 ∷ 0x3d ∷ 0x7f ∷ 0x9f ∷ 0x4d ∷ 0x51 ∷ 0x58 ∷ []
unfolding client_frame
rfc_masked_frame = refl

rfc_unmasked_frame : plain_frame true 1 hello ≡ 0x81 ∷ 0x05 ∷ 0x48 ∷ 0x65 ∷ 0x6c ∷ 0x6c ∷ 0x6f ∷ []
unfolding plain_frame
rfc_unmasked_frame = refl

decode_rfc_frame :
    decode (0x81 ∷ 0x85 ∷ 0x37 ∷ 0xfa ∷ 0x21 ∷ 0x3d ∷ 0x7f ∷ 0x9f ∷ 0x4d ∷ 0x51 ∷ 0x58 ∷ []) 11 []
    ≡ ok (record { payload = hello; opcode = 1; is_final = true })
unfolding decode
decode_rfc_frame = refl

decode-client_frame_example :
    decode (client_frame true 1 rfc_key hello ++ (7 ∷ [])) 11 (codes "Oh ")
    ≡ ok (record { payload = codes "Oh " ++ hello; opcode = 1; is_final = true })
decode-client_frame_example =
    decode-client_frame true 1 rfc_key hello (7 ∷ []) (codes "Oh ") 11 (omega arith) (ground arith)
      (ground arith) (omega arith) (omega arith)

decode-plain_frame_example :
    decode (plain_frame true 1 hello ++ []) 7 (codes "Lost")
    ≡ ok (record {
      payload = hello ++ drop (length hello) (codes "Lost" ++ replicate (length hello) 0);
      opcode = 1;
      is_final = true;
    })
decode-plain_frame_example =
    decode-plain_frame true 1 hello [] (codes "Lost") 7 (omega arith) (omega arith) (omega arith)

decode_ignores_len_example :
    decode (plain_frame true 1 hello) 4096 [] ≡ decode (plain_frame true 1 hello) 2 []
decode_ignores_len_example = decode_ignores_len (plain_frame true 1 hello) [] 4096 (omega arith)

make-plain_frame_example :
    make (hello ++ (0 ∷ [])) (length hello) false 2 ≡ ok (plain_frame false 2 hello)
make-plain_frame_example = make-plain_frame hello (0 ∷ []) false 2 (omega arith) (omega arith)

make_rejects_example : make hello 5 true 16 ≡ err (thrown invalid_argument)
make_rejects_example = make_rejects hello 5 true 16 (inl (omega arith))

library_frames_example :
    (create_connection_close 1000 ≡ ok (plain_frame true opcode_connection_close (be_bytes 2 1000)))
    × (create_pong (hello ++ []) (length hello)
        ≡ ok (plain_frame true opcode_connection_pong hello))
    × (make_binary (hello ++ []) (length hello) true ≡ ok (plain_frame true opcode_binary hello))
    × (make_text (hello ++ (0 ∷ [])) ≡ ok (plain_frame true opcode_text hello))
library_frames_example = library_frames 1000 hello [] (omega arith) (omega arith) (ground arith)

decode-make_example :
    (make hello (length hello) true 2 >>= λ frame. decode (frame ++ (9 ∷ [])) (length frame) [])
    ≡ ok (record { payload = hello; opcode = 2; is_final = true })
decode-make_example = decode-make true 2 hello (9 ∷ []) (omega arith) (omega arith)
