-- ===== src/IpAddr.antt =====
-- roip.c, apps/httpd.c and apps/speex_udp.c: what the address macros of lwIP that they apply expand to. An `ip_addr_t` is its
-- `addr`, a 32-bit number whose lowest byte is the first octet (the processor is little-endian).
use Prim.Native.Nat.{bit_and}
use roip.Prelude.{ℕ, ◌+◌, ◌*◌, ◌/◌, ◌%◌, Bool, ◌==◌, ◌≡◌, ◌<◌, arith}

-- `ip_addr_cmp`
abbrev pub ip_addr_cmp : ℕ → ℕ → Bool
ip_addr_cmp a b = a == b

-- `ip_addr_netcmp`
unfoldable pub ip_addr_netcmp : ℕ → ℕ → ℕ → Bool
ip_addr_netcmp a b mask = bit_and a mask == bit_and b mask

-- `IP4_ADDR`
abbrev pub ip4_addr : ℕ → ℕ → ℕ → ℕ → ℕ
ip4_addr a b c d = d % 256 * 16777216 + c % 256 * 65536 + b % 256 * 256 + a % 256

-- `ip4_addr1` to `ip4_addr4`
abbrev pub ip4_addr1 : ℕ → ℕ
ip4_addr1 ip = ip % 256

abbrev pub ip4_addr2 : ℕ → ℕ
ip4_addr2 ip = ip / 256 % 256

abbrev pub ip4_addr3 : ℕ → ℕ
ip4_addr3 ip = ip / 65536 % 256

abbrev pub ip4_addr4 : ℕ → ℕ
ip4_addr4 ip = ip / 16777216 % 256

-- An address is determined by its four octets.
pub ip4_addr-octets :
    (ip : ℕ)
    → ip < 4294967296
    → ip4_addr (ip4_addr1 ip) (ip4_addr2 ip) (ip4_addr3 ip) (ip4_addr4 ip) ≡ ip
ip4_addr-octets ip h = omega arith
