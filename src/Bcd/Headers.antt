-- ===== src/Bcd/Headers.antt =====
-- The LLVAR, LLLVAR and LLLLVAR length headers of solomon-core/src/bcd.rs.
use project_solomon.Prelude.{ℕ, ◌/◌, ◌%◌, ◌≡◌, arith, ◌>>=◌, ok, err}
use project_solomon.Prelude.{ltb, if◌then◌else◌}
use project_solomon.Bcd.{length_overflow}
use project_solomon.Bcd.{pack_llvar_len_bcd, unpack_llvar_len_bcd, pack_lllvar_len_bcd}
use project_solomon.Bcd.{unpack_lllvar_len_bcd, pack_llllvar_len_bcd, unpack_llllvar_len_bcd}
use project_solomon.Bcd.Nibbles.{high-packed, low-packed, low_nibble-eq}

-- An LLVAR header reads back the length that was packed, and a length above 99 is refused.
pub unpack-pack_llvar :
    (len : ℕ)
    → (pack_llvar_len_bcd len >>= unpack_llvar_len_bcd)
      ≡ (if ltb 99 len then err (length_overflow len) else ok len)
unfolding pack_llvar_len_bcd unpack_llvar_len_bcd
unpack-pack_llvar len =
    ground (arith, high-packed (len / 10 % 256) (len % 10), low-packed (len / 10 % 256) (len % 10))

-- The two bytes of an LLLVAR header read back the length that was packed, and a length above 999 is
-- refused.
unpack-pack_lllvar :
    (len : ℕ)
    → (pack_lllvar_len_bcd len >>= unpack_lllvar_len_bcd)
      ≡ (if ltb 999 len then err (length_overflow len) else ok len)
unfolding pack_lllvar_len_bcd unpack_lllvar_len_bcd
unpack-pack_lllvar len = ground (
  arith,
  low_nibble-eq (len / 100 % 256),
  high-packed (len % 100 / 10 % 256) (len % 100 % 10),
  low-packed (len % 100 / 10 % 256) (len % 100 % 10),
)

-- The two bytes of an LLLLVAR header read back the length that was packed, and a length above 9999 is
-- refused.
pub unpack-pack_llllvar :
    (len : ℕ)
    → (pack_llllvar_len_bcd len >>= unpack_llllvar_len_bcd)
      ≡ (if ltb 9999 len then err (length_overflow len) else ok len)
unfolding pack_llllvar_len_bcd unpack_llllvar_len_bcd
unpack-pack_llllvar len = ground (
  arith,
  high-packed (len / 100 % 256 / 10) (len / 100 % 256 % 10),
  low-packed (len / 100 % 256 / 10) (len / 100 % 256 % 10),
  high-packed (len % 100 / 10) (len % 100 % 10),
  low-packed (len % 100 / 10) (len % 100 % 10),
)
