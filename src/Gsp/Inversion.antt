-- ===== src/Gsp/Inversion.antt =====
-- internal/gsp/codec.go: what a successful decode says of the bytes that it read.
use go_silver_core.Prelude.{
  ℕ, ◌^◌, ◌%◌, ◌≤◌, ◌<◌, ◌≡◌, true, List, [], ◌∷◌, ◌++◌, arith, length, take, drop, All,
  take-append-drop, length-take,
}
use go_silver_core.Gsp.{
  known_type, encode_to, decode, decode_bounded, ok, Packet, put_uint32, uint32,
}

abbrev pub AreBytes : List ℕ → Type 0
AreBytes = All (λ b. b < 256)

-- What a frame in front of `rest` looks like.
pub record IsFrame (p : Packet) (bound : ℕ) (s rest : List ℕ) : Type 0 where
  pub known : known_type p.typ ≡ true
  pub len_payload : p.len ≡ length p.payload
  pub bounded : p.len ≤ bound
  pub encoded : s ≡ encode_to p.typ p.payload ++ rest

put_uint32-uint32 :
    (a b c d : ℕ)
    → a < 256
    → b < 256
    → c < 256
    → d < 256
    → put_uint32 (uint32 (a ∷ b ∷ c ∷ d ∷ []) % 2 ^ 32) ≡ a ∷ b ∷ c ∷ d ∷ []
put_uint32-uint32 a b c d ha hb hc hd = ground arith

frame_bytes :
    (t a b c d : ℕ) (s : List ℕ)
    → a < 256
    → b < 256
    → c < 256
    → d < 256
    → uint32 (a ∷ b ∷ c ∷ d ∷ []) ≤ length s
    → t ∷ a ∷ b ∷ c ∷ d ∷ s
      ≡ encode_to t (take (uint32 (a ∷ b ∷ c ∷ d ∷ [])) s) ++ drop (uint32 (a ∷ b ∷ c ∷ d ∷ [])) s
unfolding encode_to
frame_bytes t a b c d s ha hb hc hd h = ground (
  arith,
  put_uint32-uint32 a b c d,
  take-append-drop (uint32 (a ∷ b ∷ c ∷ d ∷ [])) s,
  length-take (uint32 (a ∷ b ∷ c ∷ d ∷ [])) s,
)

-- `Decode` succeeds on a stream of bytes only if the stream starts with the frame of the packet
-- that it returns, of a known type and no longer than the buffer; it leaves what stands behind it.
pub decode-IsFrame :
    (cap : ℕ) (s rest : List ℕ) (p : Packet)
    → AreBytes s
    → decode cap s ≡ (ok p, rest)
    → IsFrame p (cap % 2 ^ 32) s rest
unfolding decode
decode-IsFrame cap [] rest p bs h = cc
decode-IsFrame cap (t ∷ []) rest p bs h = cc
decode-IsFrame cap (t ∷ a ∷ []) rest p bs h = cc
decode-IsFrame cap (t ∷ a ∷ b ∷ []) rest p bs h = cc
decode-IsFrame cap (t ∷ a ∷ b ∷ c ∷ []) rest p bs h = cc
decode-IsFrame cap (t ∷ a ∷ b ∷ c ∷ d ∷ s) rest p bs h =
    ground (arith, frame_bytes t a b c d s, length-take (uint32 (a ∷ b ∷ c ∷ d ∷ [])) s)

-- `DecodeBounded` succeeds on a stream of bytes only if the stream starts with the frame of the
-- packet that it returns, of a known type and no longer than the limit; it leaves what stands behind
-- it.
pub decode_bounded-IsFrame :
    (limit : ℕ) (s rest : List ℕ) (p : Packet)
    → AreBytes s
    → decode_bounded limit s ≡ (ok p, rest)
    → IsFrame p limit s rest
unfolding decode_bounded
decode_bounded-IsFrame limit [] rest p bs h = cc
decode_bounded-IsFrame limit (t ∷ []) rest p bs h = cc
decode_bounded-IsFrame limit (t ∷ a ∷ []) rest p bs h = cc
decode_bounded-IsFrame limit (t ∷ a ∷ b ∷ []) rest p bs h = cc
decode_bounded-IsFrame limit (t ∷ a ∷ b ∷ c ∷ []) rest p bs h = cc
decode_bounded-IsFrame limit (t ∷ a ∷ b ∷ c ∷ d ∷ s) rest p bs h =
    ground (arith, frame_bytes t a b c d s, length-take (uint32 (a ∷ b ∷ c ∷ d ∷ [])) s)
