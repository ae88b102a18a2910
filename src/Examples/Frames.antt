-- ===== src/Examples/Frames.antt =====
-- The frame codec on short frames.
use go_silver_core.Prelude.{ℕ, ◌^◌, ◌%◌, ◌≡◌, refl, arith, List, [], ◌∷◌, ◌++◌}
use go_silver_core.Gsp.{decode, decode_bounded, encode_to, ok}
use go_silver_core.Gsp.RoundTrip.{decode-encode_to, packet}
use go_silver_core.Gsp.Inversion.{AreBytes, decode-IsFrame, IsFrame}

decode-encode_to_example :
    decode 16 (encode_to 1 (10 ∷ 20 ∷ []) ++ 5 ∷ []) ≡ (ok (packet 1 (10 ∷ 20 ∷ [])), 5 ∷ [])
decode-encode_to_example =
    decode-encode_to 16 1 (10 ∷ 20 ∷ []) (5 ∷ []) refl (omega arith) (omega arith)

abbrev frame : List ℕ
frame = 1 ∷ 2 ∷ 0 ∷ 0 ∷ 0 ∷ 10 ∷ 20 ∷ 5 ∷ []

eight_bytes : AreBytes frame
eight_bytes = (
  omega arith,
  (
    omega arith,
    (omega arith, (omega arith, (omega arith, (omega arith, (omega arith, (omega arith, tt)))))),
  ),
)

two_bytes : decode 16 frame ≡ (ok (packet 1 (10 ∷ 20 ∷ [])), 5 ∷ [])
two_bytes = unfold decode in refl

decode-IsFrame_example : IsFrame (packet 1 (10 ∷ 20 ∷ [])) (16 % 2 ^ 32) frame (5 ∷ [])
decode-IsFrame_example =
    decode-IsFrame 16 frame (5 ∷ []) (packet 1 (10 ∷ 20 ∷ [])) eight_bytes two_bytes

two_bytes_bounded : decode_bounded 16 frame ≡ (ok (packet 1 (10 ∷ 20 ∷ [])), 5 ∷ [])
two_bytes_bounded = unfold decode_bounded in refl
