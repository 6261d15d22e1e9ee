-- ===== src/Go/Crc.antt =====
-- Package hash/crc32: `ChecksumIEEE`, bit by bit with the reflected polynomial.
use Prim.Native.Nat.{bit_xor}
use ol1n_super_app.Base.{
  ℕ, zero, suc, ◌/◌, ◌%◌, ◌^◌, ◌<◌, ◌≡◌, refl, [], ◌∷◌, arith, ◌==◌, if◌then◌else◌, Bytes, codes,
}

shift : ℕ → ℕ
shift c = if c % 2 == 1 then bit_xor 0xedb88320 (c / 2) else c / 2

rounds : ℕ → ℕ → ℕ
rounds zero c = c
rounds (suc k) c = rounds k (shift c)

update : ℕ → Bytes → ℕ
update c [] = c
update c (b ∷ bs) = update (rounds 8 (bit_xor c b)) bs

-- `crc32.ChecksumIEEE(data)`, a uint32
unfoldable pub checksum_ieee : Bytes → ℕ
unfolding update rounds shift
checksum_ieee bs = bit_xor (update 0xffffffff bs) 0xffffffff % 2 ^ 32

checksum_ieee_test : checksum_ieee (codes "123456789") ≡ 0xcbf43926
unfolding checksum_ieee
checksum_ieee_test = refl

pub checksum_ieee-lt : (bs : Bytes) → checksum_ieee bs < 2 ^ 32
unfolding checksum_ieee
checksum_ieee-lt bs = omega arith
