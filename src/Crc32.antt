-- ===== src/Crc32.antt =====
-- hash/crc32: `ChecksumIEEE`, bit by bit with the reversed polynomial.
use Prim.Native.Nat.{bit_xor}
use mathlib.Core.List.{foldl}
use go_silver_core.Prelude.{ℕ, zero, suc, ◌/◌, ◌%◌, List, ◌≡◌, refl, ◌==◌, if◌then◌else◌, codes}

crc_shift : ℕ → ℕ → ℕ
crc_shift zero c = c
crc_shift (suc n) c = crc_shift n (if c % 2 == 1 then bit_xor (c / 2) 0xedb88320 else c / 2)

crc_byte : ℕ → ℕ → ℕ
unfolding crc_shift
crc_byte c b = crc_shift 8 (bit_xor c b)

unfoldable pub checksum_ieee : List ℕ → ℕ
unfolding crc_byte
checksum_ieee bytes = bit_xor (foldl crc_byte 0xffffffff bytes) 0xffffffff

check_value : checksum_ieee (codes "123456789") ≡ 0xcbf43926
unfolding checksum_ieee
check_value = refl
