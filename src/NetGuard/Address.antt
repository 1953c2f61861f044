-- ===== src/NetGuard/Address.antt =====
-- backend/internal/netguard/netguard.go: blockedPrefixes and IsPublicAddress.
use openpostfork.Prelude.{
  ℕ, ◌+◌, ◌-◌, ◌*◌, ◌/◌, ◌%◌, ◌^◌, Bool, true, false, not, ◌&&◌, ◌||◌, Option, none, some, List, [],
  ◌∷◌, eqb, if◌then◌else◌, length,
}

-- `netip.Addr`: a number of 32 or of 128 bits.
pub data Addr : Type 0 where
  v4 v6 : ℕ → Addr

-- `netip.Prefix`, with the number of bits of its addresses.
pub record Prefix : Type 0 where
  pub is_v4 : Bool
  pub address : ℕ
  pub host_bits : ℕ  -- the bits after the prefix

abbrev pub big_endian : ℕ → List ℕ → ℕ
big_endian n [] = n
big_endian n (b ∷ bs) = big_endian (n * 256 + b) bs

-- `netip.AddrFromSlice`.
unfoldable pub addr_from_slice : List ℕ → Option Addr
addr_from_slice ip =
    if eqb (length ip) 4
    then some (v4 (big_endian 0 ip))
    else if eqb (length ip) 16
    then some (v6 (big_endian 0 ip))
    else none

-- `Addr.Unmap`: an IPv4 address inside of an IPv6 one.
unfoldable pub unmap : Addr → Addr
unmap (v4 n) = v4 n
unmap (v6 n) = if eqb (n / 2 ^ 32) 0xffff then v4 (n % 2 ^ 32) else v6 n

-- `Prefix.Contains`, on addresses that are unmapped.
unfoldable pub contains : Prefix → Addr → Bool
contains p (v4 n) = p.is_v4 && eqb (n / 2 ^ p.host_bits) (p.address / 2 ^ p.host_bits)
contains p (v6 n) = not p.is_v4 && eqb (n / 2 ^ p.host_bits) (p.address / 2 ^ p.host_bits)

abbrev pub quad : ℕ → ℕ → ℕ → ℕ → ℕ
quad a b c d = big_endian 0 (a ∷ b ∷ c ∷ d ∷ [])

abbrev four : ℕ → ℕ → ℕ → ℕ → Prefix
four a b c bits = record { is_v4 = true; address = quad a b c 0; host_bits = 32 - bits }

-- The first 32 bits of the address are given; all the others are 0 in the list.
abbrev six : ℕ → ℕ → Prefix
six high bits = record { is_v4 = false; address = high * 2 ^ 96; host_bits = 128 - bits }

unfoldable pub blocked_prefixes : List Prefix
blocked_prefixes =
    four 0 0 0 8
    ∷ four 10 0 0 8
    ∷ four 100 64 0 10
    ∷ four 127 0 0 8
    ∷ four 169 254 0 16
    ∷ four 172 16 0 12
    ∷ four 192 0 0 24
    ∷ four 192 0 2 24
    ∷ four 192 168 0 16
    ∷ four 198 18 0 15
    ∷ four 198 51 100 24
    ∷ four 203 0 113 24
    ∷ four 224 0 0 4
    ∷ four 240 0 0 4
    ∷ six 0 128
    ∷ record { is_v4 = false; address = 1; host_bits = 0 }
    ∷ six 0x01000000 64
    ∷ six 0xfc000000 7
    ∷ six 0xfe800000 10
    ∷ six 0xff000000 8
    ∷ six 0x20010db8 32
    ∷ []

-- `Addr.IsGlobalUnicast`, on addresses that are unmapped.
unfoldable pub is_global_unicast : Addr → Bool
is_global_unicast (v4 n) = not (
    eqb n 0
    || eqb n 0xffffffff
    || eqb (n / 2 ^ 24) 127
    || eqb (n / 2 ^ 28) 14
    || eqb (n / 2 ^ 16) (169 * 256 + 254))
is_global_unicast (v6 n) =
    not (eqb n 0 || eqb n 1 || eqb (n / 2 ^ 120) 0xff || eqb (n / 2 ^ 118) (0xfe80 / 64))

abbrev pub any_contains : List Prefix → Addr → Bool
any_contains [] a = false
any_contains (p ∷ ps) a = contains p a || any_contains ps a

abbrev is_public_addr : Option Addr → Bool
is_public_addr none = false
is_public_addr (some a) =
    not (any_contains blocked_prefixes (unmap a)) && is_global_unicast (unmap a)

-- `IsPublicAddress`, on the bytes of the address.
unfoldable pub is_public_address : List ℕ → Bool
is_public_address ip = is_public_addr (addr_from_slice ip)
