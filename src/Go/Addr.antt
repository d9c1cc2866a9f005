-- ===== src/Go/Addr.antt =====
-- `netip.Addr`: the zero value, IPv4, and IPv6 with its zone. An address is the number that its
-- bytes spell.
use proxy_sampler.Prelude.{
  ℕ, ◌/◌, ◌%◌, ◌^◌, ◌≡◌, refl, ◌↔◌, Bool, true, false, ◌&&◌, ◌==◌, arith, Eq, nat_eq, Text,
  list_beq, list_beq_iff, if◌then◌else◌,
}

pub data Addr : Type 0 where
  invalid : Addr
  v4 : ℕ → Addr
  v6 : ℕ → Text → Addr

abbrev pub is_valid : Addr → Bool
is_valid invalid = false
is_valid (v4 n) = true
is_valid (v6 n zone) = true

-- An IPv4 address that IPv6 maps, ::ffff:a.b.c.d, loses its prefix and its zone.
unfoldable pub unmap : Addr → Addr
unmap invalid = invalid
unmap (v4 n) = v4 n
unmap (v6 n zone) = if (n / 2 ^ 32) == 0xffff then v4 (n % 2 ^ 32) else v6 n zone

unfoldable pub addr_beq : Addr → Addr → Bool
addr_beq invalid invalid = true
addr_beq (v4 n) (v4 m) = n == m
addr_beq (v6 n z) (v6 m w) = (n == m) && list_beq z w
addr_beq _ _ = false

pub addr_beq_iff : (a b : Addr) → (addr_beq a b ≡ true) ↔ (a ≡ b)
unfolding addr_beq
addr_beq_iff invalid invalid = ground arith
addr_beq_iff (v4 n) (v4 m) = ground arith
addr_beq_iff (v6 n z) (v6 m w) = ground (arith, list_beq_iff z w)
addr_beq_iff _ _ = ground arith

instance abbrev pub addr_eq : Eq Addr
addr_eq = record { beq = addr_beq; beq_iff = addr_beq_iff }

pub unmap-unmap : (a : Addr) → unmap (unmap a) ≡ unmap a
unfolding unmap
unmap-unmap invalid = refl
unmap-unmap (v4 n) = refl
unmap-unmap (v6 n zone) = ground arith

pub is_valid-unmap : (a : Addr) → is_valid (unmap a) ≡ is_valid a
unfolding unmap
is_valid-unmap invalid = refl
is_valid-unmap (v4 n) = refl
is_valid-unmap (v6 n zone) = ground arith
