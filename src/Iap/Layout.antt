-- ===== src/Iap/Layout.antt =====
-- apps/iap.h: `struct flash_data`, laid over the 256 bytes of `flash_buff`. An address is stored with
-- its first octet first.
use roip.Prelude.{
  ℕ, ◌+◌, ◌-◌, ◌*◌, ◌/◌, ◌%◌, ◌≤◌, ◌<◌, ◌≡◌, refl, ◌⊎◌, inl, inr, ◌∙◌, ap, List, [], ◌∷◌, arith,
  length, slice, write_at, slice-write_at, slice-write_at_before, slice-write_at_after,
}

-- The members of the struct.
pub data Member : Type 0 where
  ip_local ip_gw ip_nm ser1 ser2 mac_address password : Member

-- Where each begins, and how many bytes it has.
abbrev pub offset : Member → ℕ
offset ip_local = 0
offset ip_gw = 4
offset ip_nm = 8
offset ser1 = 12
offset ser2 = 16
offset mac_address = 20
offset password = 26

abbrev pub size : Member → ℕ
size mac_address = 6
size password = 256 - 20
size _ = 4

-- The number that four bytes stand for.
abbrev pub of_bytes : List ℕ → ℕ
of_bytes (a ∷ b ∷ c ∷ d ∷ _) = a + b * 256 + c * 65536 + d * 16777216
of_bytes _ = 0

abbrev pub to_bytes : ℕ → List ℕ
to_bytes n = n % 256 ∷ n / 256 % 256 ∷ n / 65536 % 256 ∷ n / 16777216 % 256 ∷ []

-- `fd->m` as an address, and an assignment to it.
unfoldable pub load : Member → List ℕ → ℕ
load m fd = of_bytes (slice (offset m) 4 fd)

unfoldable pub store : Member → ℕ → List ℕ → List ℕ
store m ip fd = write_at fd (offset m) (to_bytes ip)

-- The members that are addresses.
pub data Address : Type 0 where
  local gateway netmask server1 server2 : Address

abbrev pub member : Address → Member
member local = ip_local
member gateway = ip_gw
member netmask = ip_nm
member server1 = ser1
member server2 = ser2

of_bytes-to_bytes : (n : ℕ) → n < 4294967296 → of_bytes (to_bytes n) ≡ n
of_bytes-to_bytes n h = omega arith

-- An address that is stored is read back, when the buffer has its 256 bytes.
pub load-store :
    (a : Address) (ip : ℕ) (fd : List ℕ)
    → length fd ≡ 256
    → ip < 4294967296
    → load (member a) (store (member a) ip fd) ≡ ip
unfolding load store
load-store a ip fd w h =
    ap of_bytes (slice-write_at fd (offset (member a)) (to_bytes ip) (within a))
    ∙ of_bytes-to_bytes ip h
  where
    within : (b : Address) → offset (member b) + 4 ≤ length fd
    within local = omega arith
    within gateway = omega arith
    within netmask = omega arith
    within server1 = omega arith
    within server2 = omega arith

-- Two different members do not overlap.
apart :
    (a : Address) (m : Member)
    → (offset m ≡ offset (member a) → ⊥)
    → (offset m + size m ≤ offset (member a)) ⊎ (offset (member a) + 4 ≤ offset m)
apart a m ne = ground arith

-- Storing one address leaves the others, the station address and the password as they were.
pub slice-store :
    (a : Address) (m : Member) (ip : ℕ) (fd : List ℕ)
    → (offset m ≡ offset (member a) → ⊥)
    → slice (offset m) (size m) (store (member a) ip fd) ≡ slice (offset m) (size m) fd
unfolding store
slice-store a m ip fd ne = elim (apart a m ne) [
  | inl before ↦
      slice-write_at_before fd (offset (member a)) (to_bytes ip) (offset m) (size m) before
  | inr behind ↦
      slice-write_at_after fd (offset (member a)) (to_bytes ip) (offset m) (size m) behind
]

-- The struct does not fit the buffer: its last member ends six bytes behind it.
pub struct_overruns : offset password + size password ≡ 256 + 6
struct_overruns = refl
