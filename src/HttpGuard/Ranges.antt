-- ===== src/HttpGuard/Ranges.antt =====
-- http-guard.ts: the verdicts on an address, `ipv4Reason`, `ipv6Reason` and `ipReason`.
use Prim.Native.Nat.{bit_and}
use we_chat_ai.Base.{
  ℕ, Bool, ◌&&◌, ◌||◌, Option, none, some, List, [], ◌∷◌, Text, take, drop, every, leb, ◌==◌,
  if◌then◌else◌,
}
use we_chat_ai.HttpGuard.Address.{normalize_host, parse_ipv4, parse_ipv6}

-- The texts of the verdicts, by name; `internal_suffix` and `resolves_to` carry what they print.
pub data Reason : Type 0 where
  unparseable : Reason
  loopback : Reason
  private_10 : Reason
  private_172 : Reason
  private_192 : Reason
  link_local : Reason
  carrier_nat : Reason
  unspecified_range : Reason
  ietf_reserved : Reason
  benchmarking : Reason
  multicast : Reason
  unspecified_address : Reason
  unique_local : Reason
  site_local : Reason
  multicast_v6 : Reason
  outside_unicast : Reason
  metadata_host : Reason
  single_label : Reason
  internal_suffix : Text → Reason
  resolves_to : Text → Reason → Reason

unfoldable pub ipv4_verdict : ℕ → ℕ → Option Reason
ipv4_verdict a c =
    if a == 127
    then some loopback
    else if a == 10
    then some private_10
    else if a == 172 && leb 16 c && leb c 31
    then some private_172
    else if a == 192 && c == 168
    then some private_192
    else if a == 169 && c == 254
    then some link_local
    else if a == 100 && leb 64 c && leb c 127
    then some carrier_nat
    else if a == 0
    then some unspecified_range
    else if a == 192 && c == 0
    then some ietf_reserved
    else if a == 198 && (c == 18 || c == 19)
    then some benchmarking
    else if leb 224 a
    then some multicast
    else none

-- `b[0]` and `b[1]`; every list that reaches this code has four bytes
abbrev pub ipv4_reason : List ℕ → Option Reason
ipv4_reason (a ∷ c ∷ rest) = ipv4_verdict a c
ipv4_reason [] = none
ipv4_reason (a ∷ []) = none

-- `b[n]`, of a list of sixteen
abbrev pub byte_at : ℕ → List ℕ → ℕ
byte_at n b = first (drop n b)
  where
    first : List ℕ → ℕ
    first [] = 0
    first (x ∷ xs) = x

abbrev pub all_zero : List ℕ → Bool
all_zero b = every (λ x. x == 0) b

-- `::ffff:a.b.c.d` and `64:ff9b::/96`
abbrev pub is_mapped : List ℕ → Bool
is_mapped b = all_zero (take 10 b) && byte_at 10 b == 255 && byte_at 11 b == 255

abbrev pub is_nat64 : List ℕ → Bool
is_nat64 b =
    byte_at 0 b == 0
    && byte_at 1 b == 100
    && byte_at 2 b == 255
    && byte_at 3 b == 155
    && all_zero (take 8 (drop 4 b))

-- the verdict on `::a.b.c.d`
abbrev pub compatible_reason : List ℕ → Option Reason
compatible_reason last =
    if all_zero last
    then some unspecified_address
    else if all_zero (take 3 last) && byte_at 3 last == 1
    then some loopback
    else ipv4_reason last

unfoldable pub prefix_reason : ℕ → Option Reason
prefix_reason b0 =
    if bit_and b0 0xfe == 0xfc
    then some unique_local
    else if b0 == 0xfe
    then some site_local
    else if b0 == 0xff
    then some multicast_v6
    else if bit_and b0 0xe0 == 0x20
    then none
    else some outside_unicast

unfoldable pub ipv6_reason : List ℕ → Option Reason
ipv6_reason b =
    if is_mapped b
    then ipv4_reason (drop 12 b)
    else if is_nat64 b
    then ipv4_reason (drop 12 b)
    else if all_zero (take 12 b)
    then compatible_reason (drop 12 b)
    else prefix_reason (byte_at 0 b)

abbrev pub literal_v6 : Option (List ℕ) → Option (Option Reason)
literal_v6 none = none
literal_v6 (some b) = some (ipv6_reason b)

-- The verdict on a host that is an address, and `none` for one that is none.
abbrev pub literal_reason : Text → Option (Option Reason)
literal_reason host = of_v4 host (parse_ipv4 host)
  where
    of_v4 : Text → Option (List ℕ) → Option (Option Reason)
    of_v4 host (some b) = some (ipv4_reason b)
    of_v4 host none = literal_v6 (parse_ipv6 host)

abbrev pub or_public : Option (Option Reason) → Option Reason
or_public none = none
or_public (some verdict) = verdict

unfoldable pub ip_reason : Text → Option Reason
ip_reason address = or_public (literal_reason (normalize_host address))
