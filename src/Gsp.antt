-- ===== src/Gsp.antt =====
-- internal/gsp: the frame codec (codec.go, protocol.go, error.go).
-- A frame is a type byte, the payload's length as a little-endian uint32, and the payload.
-- A reader is the list of the bytes that it will still deliver.
pub mod RoundTrip
pub mod Inversion
use go_silver_core.Prelude.{
  ℕ, ◌+◌, ◌*◌, ◌/◌, ◌%◌, ◌^◌, Bool, ◌&&◌, not, List, [], ◌∷◌, ◌++◌, ltb, ◌==◌, if◌then◌else◌,
  length, take, drop,
}

abbrev pub type_json : ℕ
type_json = 1

abbrev pub type_file_chunk : ℕ
type_file_chunk = 2

pub data Error : Type 0 where
  eof unexpected_eof invalid_type too_large short_buffer : Error

pub data Result {ℓ} (A : Type ℓ) : Type ℓ where
  ok : A → Result A
  err : Error → Result A

pub record Packet : Type 0 where
  pub typ : ℕ
  pub len : ℕ
  pub payload : List ℕ

-- A reader's operation returns its result and the bytes that are left.
abbrev pub Reader : Type 0 → Type 0
Reader A = List ℕ → Result A × List ℕ

abbrev and_then {ℓ} :
    {A : Type 0} {B : Type ℓ}
    → Result A × List ℕ
    → (A → List ℕ → Result B × List ℕ)
    → Result B × List ℕ
and_then (ok a, rest) f = f a rest
and_then (err e, rest) f = (err e, rest)

-- `io.ReadFull` for a buffer of `n` bytes: a short stream is used up.
unfoldable pub read_full : ℕ → Reader (List ℕ)
read_full n s =
    if ltb (length s) n
    then (err (if length s == 0 then eof else unexpected_eof), [])
    else (ok (take n s), drop n s)

-- `binary.LittleEndian.PutUint32` and `Uint32`.
abbrev pub put_uint32 : ℕ → List ℕ
put_uint32 n = n % 256 ∷ n / 256 % 256 ∷ n / 65536 % 256 ∷ n / 16777216 % 256 ∷ []

abbrev pub uint32 : List ℕ → ℕ
uint32 (a ∷ b ∷ c ∷ d ∷ _) = a + b * 256 + c * 65536 + d * 16777216
uint32 _ = 0

-- The type byte and the length of a header; a header has five bytes.
abbrev pub header_type : List ℕ → ℕ
header_type (t ∷ _) = t
header_type [] = 0

abbrev pub known_type : ℕ → Bool
known_type t = not (not (t == type_json) && not (t == type_file_chunk))

-- The frame that `EncodeTo` writes to the connection.
unfoldable pub encode_to : ℕ → List ℕ → List ℕ
encode_to typ payload = typ ∷ (put_uint32 (length payload % 2 ^ 32) ++ payload)

-- `Decode` into a buffer of capacity `cap`.
unfoldable pub decode : ℕ → Reader Packet
unfolding read_full
decode cap s = and_then (read_full 5 s) λ header rest.
    let data_len = uint32 (drop 1 header) in
    if not (known_type (header_type header))
    then (err invalid_type, rest)
    else if ltb (cap % 2 ^ 32) data_len
    then (err too_large, rest)
    else and_then (read_full data_len rest) λ payload rest'.
      (ok (record { typ = header_type header; len = data_len; payload = payload }), rest')

-- `DecodeBounded`: the buffer grows for a larger frame, up to `limit`; its capacity decides only
-- whether the bytes land in the caller's buffer or in a new one.
unfoldable pub decode_bounded : ℕ → Reader Packet
unfolding read_full
decode_bounded limit s = and_then (read_full 5 s) λ header rest.
    let n = uint32 (drop 1 header) in
    if not (known_type (header_type header))
    then (err invalid_type, rest)
    else if ltb limit n
    then (err too_large, rest)
    else and_then (read_full n rest) λ payload rest'.
      (ok (record { typ = header_type header; len = n; payload = payload }), rest')
