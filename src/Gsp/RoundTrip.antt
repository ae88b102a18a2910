-- ===== src/Gsp/RoundTrip.antt =====
-- internal/gsp/codec.go: what is written is read back, and a part of a frame is no frame.
use go_silver_core.Prelude.{
  ℕ, ◌^◌, ◌%◌, ◌≤◌, ◌<◌, ◌≡◌, refl, ap, true, ◌||◌, List, [], ◌∷◌, ◌++◌, arith, length,
  take-append_length, drop-append_length, length-append, ◌==◌, if◌then◌else◌,
}
use go_silver_core.Gsp.{
  known_type, encode_to, decode, decode_bounded, read_full, ok, err, eof, unexpected_eof, Packet,
}

read_full-append : (xs ys : List ℕ) → read_full (length xs) (xs ++ ys) ≡ (ok xs, ys)
unfolding read_full
read_full-append xs ys =
    ground (arith, length-append xs ys, take-append_length xs ys, drop-append_length xs ys)

abbrev pub packet : ℕ → List ℕ → Packet
packet typ payload = record { typ = typ; len = length payload; payload = payload }

-- A frame of a known type that fits the buffer is decoded to its type and payload, and nothing
-- behind it is read.
pub decode-encode_to :
    (cap typ : ℕ) (payload rest : List ℕ)
    → known_type typ ≡ true
    → length payload < 2 ^ 32
    → length payload ≤ cap % 2 ^ 32
    → decode cap (encode_to typ payload ++ rest) ≡ (ok (packet typ payload), rest)
unfolding decode encode_to
decode-encode_to cap typ payload rest k small fits =
    ground (arith, read_full-append payload rest, length-append payload rest)

-- A frame of a known type that is no longer than the limit is decoded to its type and payload, and
-- nothing behind it is read.
pub decode_bounded-encode_to :
    (limit typ : ℕ) (payload rest : List ℕ)
    → known_type typ ≡ true
    → length payload < 2 ^ 32
    → length payload ≤ limit
    → decode_bounded limit (encode_to typ payload ++ rest) ≡ (ok (packet typ payload), rest)
unfolding decode_bounded encode_to
decode_bounded-encode_to limit typ payload rest k small fits =
    ground (arith, read_full-append payload rest, length-append payload rest)

-- A stream that breaks off inside a frame that would fit the buffer yields no packet and is used
-- up. The error is EOF if the break is before the header or right behind it, and else unexpected
-- EOF.
pub decode_truncated :
    (cap typ x : ℕ) (payload front back : List ℕ)
    → known_type typ ≡ true
    → length payload < 2 ^ 32
    → length payload ≤ cap % 2 ^ 32
    → encode_to typ payload ≡ front ++ (x ∷ back)
    → decode cap front
      ≡ (err (if length front == 0 || length front == 5 then eof else unexpected_eof), [])
unfolding decode encode_to
decode_truncated cap typ x payload [] back k small fits e = refl
decode_truncated cap typ x payload (a ∷ []) back k small fits e = refl
decode_truncated cap typ x payload (a ∷ b ∷ []) back k small fits e = refl
decode_truncated cap typ x payload (a ∷ b ∷ c ∷ []) back k small fits e = refl
decode_truncated cap typ x payload (a ∷ b ∷ c ∷ d ∷ []) back k small fits e = refl
decode_truncated cap typ x payload (a ∷ b ∷ c ∷ d ∷ f ∷ front) back k small fits e =
    ground (arith, length-append front (x ∷ back), ap length e)
