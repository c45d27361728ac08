-- ===== src/Alerting/Webhook.antt =====
-- internal/alerting/notifications.go: which webhook addresses are refused.
use wavecontrol.Prelude.{
  ℕ, ◌+◌, ◌-◌, ◌*◌, ◌/◌, ◌%◌, ◌^◌, Bool, true, false, ◌||◌, not, List, [], ◌∷◌, Option, none, some,
  nat_beq, if◌then◌else◌, length, Text,
}

-- What `url.Parse` answers, with `Hostname()` and whether there is userinfo.
pub record Url : Type 0 where
  pub scheme : Text
  pub hostname : Text
  pub user : Bool

-- `netip.Addr` without zone, as a number of 32 or 128 bits.
pub data Addr : Type 0 where
  v4 : ℕ → Addr
  v6 : ℕ → Addr

unfoldable pub big_endian : ℕ → List ℕ → ℕ
big_endian acc [] = acc
big_endian acc (b ∷ bytes) = big_endian (acc * 256 + b) bytes

-- `netip.AddrFromSlice`
unfoldable pub addr_from_slice : List ℕ → Option Addr
unfolding big_endian
addr_from_slice ip =
    if nat_beq (length ip) 4
    then some (v4 (big_endian 0 ip))
    else if nat_beq (length ip) 16
    then some (v6 (big_endian 0 ip))
    else none

-- `Addr.Unmap`: an IPv4 address that is written as an IPv6 address counts as itself.
unfoldable pub unmap : Addr → Addr
unmap (v4 n) = v4 n
unmap (v6 n) = if nat_beq (n / 2 ^ 32) 65535 then v4 (n % 2 ^ 32) else v6 n

-- `Addr.IsGlobalUnicast` of an address that is valid.
unfoldable pub is_global_unicast : Addr → Bool
is_global_unicast (v4 n) = not (
    nat_beq n 0
    || nat_beq n 4294967295
    || nat_beq (n / 2 ^ 24) 127
    || nat_beq (n / 2 ^ 28) 14
    || nat_beq (n / 2 ^ 16) 43518)
is_global_unicast (v6 n) =
    not (nat_beq n 0 || nat_beq n 1 || nat_beq (n / 2 ^ 120) 255 || nat_beq (n / 2 ^ 118) 1018)

-- `Prefix.Contains`; a prefix has an address and a number of bits.
unfoldable pub prefix_contains : Addr → ℕ → Addr → Bool
prefix_contains (v4 p) bits (v4 n) = nat_beq (p / 2 ^ (32 - bits)) (n / 2 ^ (32 - bits))
prefix_contains (v4 p) bits (v6 n) = false
prefix_contains (v6 p) bits (v4 n) = false
prefix_contains (v6 p) bits (v6 n) = nat_beq (p / 2 ^ (128 - bits)) (n / 2 ^ (128 - bits))

abbrev ip4 : ℕ → ℕ → ℕ → ℕ → Addr
ip4 a b c d = v4 (((a * 256 + b) * 256 + c) * 256 + d)

-- An IPv6 address by its first two groups; the other ones are zero.
abbrev ip6 : ℕ → ℕ → Addr
ip6 a b = v6 ((a * 65536 + b) * 2 ^ 96)

abbrev pub forbidden_webhook_prefixes : List (Addr × ℕ)
forbidden_webhook_prefixes =
    (ip4 0 0 0 0, 8)
    ∷ (ip4 10 0 0 0, 8)
    ∷ (ip4 100 64 0 0, 10)
    ∷ (ip4 127 0 0 0, 8)
    ∷ (ip4 169 254 0 0, 16)
    ∷ (ip4 172 16 0 0, 12)
    ∷ (ip4 192 0 0 0, 24)
    ∷ (ip4 192 0 2 0, 24)
    ∷ (ip4 192 168 0 0, 16)
    ∷ (ip4 198 18 0 0, 15)
    ∷ (ip4 198 51 100 0, 24)
    ∷ (ip4 203 0 113 0, 24)
    ∷ (ip4 240 0 0 0, 4)
    ∷ (v6 0, 128)
    ∷ (v6 1, 128)
    ∷ (ip6 256 0, 64)
    ∷ (ip6 8193 3512, 32)
    ∷ (ip6 64512 0, 7)
    ∷ (ip6 65152 0, 10)
    ∷ []

unfoldable pub some_prefix : List (Addr × ℕ) → Addr → Bool
unfolding prefix_contains
some_prefix [] addr = false
some_prefix ((p, bits) ∷ prefixes) addr = prefix_contains p bits addr || some_prefix prefixes addr

abbrev pub unsafe_addr : Option Addr → Bool
unsafe_addr none = true
unsafe_addr (some a) =
    let addr = unmap a in
    if not (is_global_unicast addr) then true else some_prefix forbidden_webhook_prefixes addr

-- A nil address is the empty slice, which is no address either.
unfoldable pub unsafe_webhook_ip : List ℕ → Bool
unfolding addr_from_slice
unsafe_webhook_ip ip = unsafe_addr (addr_from_slice ip)
