-- ===== src/Auth/Cidr.antt =====
-- `CIDRPolicy` of internal/auth/auth.go, over the addresses and prefixes of Go's net/netip: an IPv4
-- address is a number below 2^32, an IPv6 address one below 2^128 (zones are not modelled). `parse`
-- stands for `netip.ParsePrefix`.
use native.Mathlib.Nat.{mul-div_cancel, one-le-pow}
use silent_devops.Prelude.{
  ℕ, ◌+◌, ◌-◌, ◌*◌, ◌/◌, ◌%◌, ◌^◌, ◌<◌, String, ◌≡◌, refl, ap, Bool, true, false, ◌||◌, Option,
  none, some, List, [], ◌∷◌, arith, ◌==◌, if◌then◌else◌, Result, ok, err, ◌>>=◌, or_fail, >>=-eq-ok,
}

pub data Addr : Type 0 where
  v4 v6 : ℕ → Addr

pub record Prefix : Type 0 where
  pub base : Addr
  pub bits : ℕ

pub data Error : Type 0 where
  no_cidr invalid_cidr : Error

-- `addr.Unmap()`: an IPv4 address in IPv6 clothes is that IPv4 address.
unfoldable pub unmap : Addr → Addr
unmap (v4 n) = v4 n
unmap (v6 n) = if n / 2 ^ 32 == 0xffff then v4 (n % 2 ^ 32) else v6 n

-- Whether two addresses of `width` bits agree in the first `bits` of them.
agree : ℕ → ℕ → ℕ → ℕ → Bool
agree width bits a b = a / 2 ^ (width - bits) == b / 2 ^ (width - bits)

-- `prefix.Contains(addr)`: never across the families.
contains_in : ℕ → Addr → Addr → Bool
unfolding agree
contains_in bits (v4 p) (v4 a) = agree 32 bits p a
contains_in bits (v6 p) (v6 a) = agree 128 bits p a
contains_in bits (v4 p) (v6 a) = false
contains_in bits (v6 p) (v4 a) = false

unfoldable pub contains : Prefix → Addr → Bool
unfolding contains_in
contains p a = contains_in p.bits p.base a

-- The bits behind the prefix set to zero.
clear : ℕ → ℕ → ℕ → ℕ
clear width bits n = n / 2 ^ (width - bits) * 2 ^ (width - bits)

mask_addr : ℕ → Addr → Addr
unfolding clear
mask_addr bits (v4 n) = v4 (clear 32 bits n)
mask_addr bits (v6 n) = v6 (clear 128 bits n)

-- `prefix.Masked()`
unfoldable pub masked : Prefix → Prefix
unfolding mask_addr
masked p = record p { base = mask_addr p.bits p.base }

any_contains : List Prefix → Addr → Bool
any_contains [] a = false
any_contains (p ∷ ps) a = let rest = any_contains ps a in if contains p a then true else rest

-- `CIDRPolicy.Allows`
unfoldable pub allows : List Prefix → Addr → Bool
unfolding any_contains
allows ps addr = any_contains ps (unmap addr)

module _ (parse : String → Option Prefix) where
  parse_all : List String → Result Error (List Prefix)
  parse_all [] = ok []
  parse_all (value ∷ values) = do
    prefix ← or_fail (parse value) invalid_cidr
    rest ← parse_all values
    ok (masked prefix ∷ rest)

  -- `ParseCIDRs`
  unfoldable pub parse_cidrs : List String → Result Error (List Prefix)
  unfolding parse_all
  parse_cidrs [] = err no_cidr
  parse_cidrs (value ∷ values) = parse_all (value ∷ values)

pow_pos : (n : ℕ) → 0 < 2 ^ n
pow_pos n = one-le-pow n 2 (omega arith)

agree-clear : (width bits n a : ℕ) → agree width bits (clear width bits n) a ≡ agree width bits n a
unfolding agree clear
agree-clear width bits n a = rw (mul-div_cancel (n / 2 ^ (width - bits)) (pow_pos (width - bits)))

contains_in-mask_addr :
    (bits : ℕ) (p a : Addr) → contains_in bits (mask_addr bits p) a ≡ contains_in bits p a
unfolding contains_in mask_addr
contains_in-mask_addr bits (v4 p) (v4 a) = agree-clear 32 bits p a
contains_in-mask_addr bits (v6 p) (v6 a) = agree-clear 128 bits p a
contains_in-mask_addr bits (v4 p) (v6 a) = refl
contains_in-mask_addr bits (v6 p) (v4 a) = refl

contains-masked : (p : Prefix) (a : Addr) → contains (masked p) a ≡ contains p a
unfolding contains masked
contains-masked p a = contains_in-mask_addr p.bits p.base a

-- One of the configured texts is a prefix that has the address.
abbrev pub covered : (String → Option Prefix) → Addr → List String → Bool
covered parse a [] = false
covered parse a (value ∷ values) =
    elim (parse value) [ none ↦ false | some p ↦ contains p a ] || covered parse a values

module _ (parse : String → Option Prefix) where
  parse_all_lem :
      (values : List String) (ps : List Prefix) (a : Addr)
      → parse_all parse values ≡ ok ps
      → any_contains ps a ≡ covered parse a values
  unfolding parse_all any_contains
  parse_all_lem [] ps a h = ground arith
  parse_all_lem (value ∷ values) ps a h =
      let (p, parsed, then_rest) = >>=-eq-ok (or_fail (parse value) invalid_cidr) _ h in
      let (rest, all, result) = >>=-eq-ok (parse_all parse values) _ then_rest in
      ground (arith, parse_all_lem values rest a all, contains-masked p a)

-- A policy that was parsed without an error allows exactly the addresses, with IPv4 addresses taken
-- out of their IPv6 form, that one of the configured prefixes contains, host bits in the
-- configuration or not.
pub allows-parse_cidrs :
    (parse : String → Option Prefix) (values : List String) (ps : List Prefix) (a : Addr)
    → parse_cidrs parse values ≡ ok ps
    → allows ps a ≡ covered parse (unmap a) values
unfolding parse_cidrs allows
allows-parse_cidrs parse [] ps a h = cc
allows-parse_cidrs parse (value ∷ values) ps a h =
    parse_all_lem parse (value ∷ values) ps (unmap a) h

-- A policy treats the IPv6 form of an IPv4 address as that IPv4 address.
pub allows_mapped :
    (ps : List Prefix) (n : ℕ)
    → n < 2 ^ 32
    → allows ps (v6 (0xffff * 2 ^ 32 + n)) ≡ allows ps (v4 n)
unfolding allows unmap
allows_mapped ps n h = ap (any_contains ps) (ground arith)
