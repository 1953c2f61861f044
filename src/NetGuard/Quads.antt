-- ===== src/NetGuard/Quads.antt =====
-- The addresses that are public, by the numbers between the dots.
use openpostfork.Prelude.{
  ℕ, ◌+◌, ◌*◌, ◌/◌, ◌%◌, ◌^◌, ◌<◌, ◌≡◌, refl, inl, inr, Bool, true, false, not, ◌&&◌, ◌||◌, List,
  [], ◌∷◌, arith, leb, eqb, Bool-cases, All,
}
use openpostfork.NetGuard.Address.{
  v4, quad, big_endian, addr_from_slice, unmap, contains, blocked_prefixes, is_global_unicast,
  any_contains, is_public_address,
}

abbrev between : ℕ → ℕ → ℕ → Bool
between low high n = leb low n && leb n high

abbrev any_of : List Bool → Bool
any_of [] = false
any_of (x ∷ xs) = x || any_of xs

-- The blocked ranges of the Internet's registries, by the numbers between the dots.
abbrev reserved_tests : ℕ → ℕ → ℕ → ℕ → List Bool
reserved_tests a b c d =
    eqb a 0
    ∷ eqb a 10
    ∷ (eqb a 100 && between 64 127 b)
    ∷ eqb a 127
    ∷ (eqb a 169 && eqb b 254)
    ∷ (eqb a 172 && between 16 31 b)
    ∷ (eqb a 192 && eqb b 0 && eqb c 0)
    ∷ (eqb a 192 && eqb b 0 && eqb c 2)
    ∷ (eqb a 192 && eqb b 168)
    ∷ (eqb a 198 && between 18 19 b)
    ∷ (eqb a 198 && eqb b 51 && eqb c 100)
    ∷ (eqb a 203 && eqb b 0 && eqb c 113)
    ∷ leb 224 a
    ∷ []

abbrev pub is_reserved : ℕ → ℕ → ℕ → ℕ → Bool
is_reserved a b c d = any_of (reserved_tests a b c d)

-- The four numbers are bytes.
abbrev pub AreBytes : ℕ → ℕ → ℕ → ℕ → Type 0
AreBytes a b c d = (a < 256) × (b < 256) × (c < 256) × (d < 256)

settled :
    (reserved : Bool) {global : Bool}
    → (reserved ≡ false → global ≡ true)
    → (not reserved && global) ≡ not reserved
settled true f = refl
settled false f = f refl

none_of : (tests : List Bool) → any_of tests ≡ false → All (λ x. x ≡ false) tests
none_of [] h = tt
none_of (true ∷ tests) h = cc
none_of (false ∷ tests) h = (refl, none_of tests h)

module _ (a b c d : ℕ) (h : AreBytes a b c d) where
  high_8 : quad a b c d / 2 ^ 24 ≡ a
  high_8 = omega (arith, h.0, h.1, h.2, h.3)

  high_4 : quad a b c d / 2 ^ 28 ≡ a / 16
  high_4 = omega (arith, h.0, h.1, h.2, h.3)

  high_10 : quad a b c d / 2 ^ 22 ≡ a * 4 + b / 64
  high_10 = omega (arith, h.0, h.1, h.2, h.3)

  high_12 : quad a b c d / 2 ^ 20 ≡ a * 16 + b / 16
  high_12 = omega (arith, h.0, h.1, h.2, h.3)

  high_15 : quad a b c d / 2 ^ 17 ≡ a * 128 + b / 2
  high_15 = omega (arith, h.0, h.1, h.2, h.3)

  high_16 : quad a b c d / 2 ^ 16 ≡ a * 256 + b
  high_16 = omega (arith, h.0, h.1, h.2, h.3)

  high_24 : quad a b c d / 2 ^ 8 ≡ (a * 256 + b) * 256 + c
  high_24 = omega (arith, h.0, h.1, h.2, h.3)

  reserved_10 : eqb (a * 4 + b / 64) 401 ≡ (eqb a 100 && between 64 127 b)
  reserved_10 = ground (arith, h.0, h.1)

  reserved_12 : eqb (a * 16 + b / 16) 2_753 ≡ (eqb a 172 && between 16 31 b)
  reserved_12 = ground (arith, h.0, h.1)

  reserved_15 : eqb (a * 128 + b / 2) 25_353 ≡ (eqb a 198 && between 18 19 b)
  reserved_15 = ground (arith, h.0, h.1)

  pair : (x y : ℕ) → y < 256 → eqb (a * 256 + b) (x * 256 + y) ≡ (eqb a x && eqb b y)
  pair x y k = ground (arith, h.0, h.1)

  triple :
      (x y z : ℕ)
      → y < 256
      → z < 256
      → eqb ((a * 256 + b) * 256 + c) ((x * 256 + y) * 256 + z) ≡ (eqb a x && eqb b y && eqb c z)
  triple x y z k l = ground (arith, h.0, h.1, h.2)

  multicast : eqb (a / 16) 14 || (eqb (a / 16) 15 || false) ≡ leb 224 a || false
  multicast = ground (arith, h.0)

  blocked_quads : any_contains blocked_prefixes (v4 (quad a b c d)) ≡ is_reserved a b c d
  unfolding contains blocked_prefixes
  blocked_quads =
      rw
        (
          high_8,
          high_10,
          high_16,
          high_12,
          high_24,
          high_15,
          high_4,
          reserved_10,
          reserved_12,
          reserved_15,
          pair 169 254 (omega arith),
          pair 192 168 (omega arith),
          triple 192 0 0 (omega arith) (omega arith),
          triple 192 0 2 (omega arith) (omega arith),
          triple 198 51 100 (omega arith) (omega arith),
          triple 203 0 113 (omega arith) (omega arith),
          multicast,
        )
        refl

  all_zero : quad a b c d ≡ 0 → a ≡ 0
  all_zero e = omega (arith, e, h.0)

  broadcast : quad a b c d ≡ 0xffffffff → a ≡ 255
  broadcast e = omega (arith, e, h.0, h.1, h.2, h.3)

  not_zero : eqb a 0 ≡ false → eqb (quad a b c d) 0 ≡ false
  not_zero e = elim (Bool-cases (eqb (quad a b c d) 0)) [
    | inr q ↦ q
    | inl q ↦ let z = all_zero (ground arith) in absurd (ground (arith, z, e))
  ]

  not_broadcast : leb 224 a ≡ false → eqb (quad a b c d) 0xffffffff ≡ false
  not_broadcast e = elim (Bool-cases (eqb (quad a b c d) 0xffffffff)) [
    | inr q ↦ q
    | inl q ↦ let z = broadcast (ground arith) in absurd (ground (arith, z, e))
  ]

  not_multicast : leb 224 a ≡ false → eqb (a / 16) 14 ≡ false
  not_multicast e = ground arith

  mapped_high :
      big_endian 0 (0 ∷ 0 ∷ 0 ∷ 0 ∷ 0 ∷ 0 ∷ 0 ∷ 0 ∷ 0 ∷ 0 ∷ 255 ∷ 255 ∷ a ∷ b ∷ c ∷ d ∷ []) / 2 ^ 32
      ≡ 0xffff
  mapped_high = omega (arith, h.0, h.1, h.2, h.3)

  mapped_low :
      big_endian 0 (0 ∷ 0 ∷ 0 ∷ 0 ∷ 0 ∷ 0 ∷ 0 ∷ 0 ∷ 0 ∷ 0 ∷ 255 ∷ 255 ∷ a ∷ b ∷ c ∷ d ∷ []) % 2 ^ 32
      ≡ quad a b c d
  mapped_low = omega (arith, h.0, h.1, h.2, h.3)

  unreserved_global : is_reserved a b c d ≡ false → is_global_unicast (v4 (quad a b c d)) ≡ true
  unfolding is_global_unicast
  unreserved_global k =
      let free = none_of (reserved_tests a b c d) k in
      let high : leb 224 a ≡ false = free.1.1.1.1.1.1.1.1.1.1.1.1.0 in
      rw
        (
          high_8,
          high_4,
          high_16,
          pair 169 254 (omega arith),
          not_zero free.0,
          not_broadcast high,
          free.1.1.1.0,
          not_multicast high,
          free.1.1.1.1.0,
        )
        refl

  -- An IPv4 address is public exactly when the numbers between its dots are in none of the reserved
  -- ranges, whether it is written in four bytes or in the IPv4-mapped form ::ffff:a.b.c.d of IPv6.
  -- (The numbers are bytes. The other forms that carry an IPv4 address in an IPv6 one are not meant.)
  pub is_public_address-is_reserved :
      (is_public_address (a ∷ b ∷ c ∷ d ∷ []) ≡ not (is_reserved a b c d))
      × (is_public_address (0 ∷ 0 ∷ 0 ∷ 0 ∷ 0 ∷ 0 ∷ 0 ∷ 0 ∷ 0 ∷ 0 ∷ 255 ∷ 255 ∷ a ∷ b ∷ c ∷ d ∷ [])
          ≡ not (is_reserved a b c d))
  unfolding is_public_address addr_from_slice unmap
  is_public_address-is_reserved = (
    rw blocked_quads (settled (is_reserved a b c d) (λ e. unreserved_global e)),
    rw (mapped_high, mapped_low, blocked_quads)
        (settled (is_reserved a b c d) (λ e. unreserved_global e)),
  )
