-- ===== src/HttpGuard/Blocks.antt =====
-- The ranges of the guard against blocks of addresses in the notation base/length.
use we_chat_ai.Base.{
  ℕ, zero, suc, ◌+◌, ◌-◌, ◌*◌, ◌/◌, ◌%◌, ◌^◌, ◌<◌, ◌≡◌, refl, ◌⊎◌, inl, inr, Bool, true, false, not,
  ◌&&◌, ◌||◌, Option, none, some, List, [], ◌∷◌, ◌++◌, arith, Text, take, drop, any_of, leb, ltb,
  ◌==◌, if◌then◌else◌, split,
}
use we_chat_ai.HttpGuard.Address.{parse_ipv4, octet}
use we_chat_ai.HttpGuard.Ranges.{
  Reason, ipv4_verdict, ipv4_reason, ipv6_reason, prefix_reason, is_mapped, is_nat64, all_zero,
  compatible_reason, byte_at, unspecified_address, loopback,
}

pub record Block : Type 0 where
  pub base : ℕ
  pub size : ℕ

-- an address as a number of 32 bits
abbrev pub number_of : ℕ → ℕ → ℕ → ℕ → ℕ
number_of a b c d = ((a * 256 + b) * 256 + c) * 256 + d

-- a.b.0.0 with a prefix of the given length
unfoldable pub block : ℕ → ℕ → ℕ → Block
block a b prefix = record { base = number_of a b 0 0; size = 2 ^ (32 - prefix) }

unfoldable pub covers : ℕ → Block → Bool
covers n b = leb b.base n && ltb n (b.base + b.size)

-- The blocks that nothing public lies in: 127/8, 10/8, 172.16/12, 192.168/16, 169.254/16, 100.64/10, 0/8,
-- 192.0/16, 198.18/15, and 224/3.
abbrev pub internal_blocks : List Block
internal_blocks =
    block 127 0 8
    ∷ block 10 0 8
    ∷ block 172 16 12
    ∷ block 192 168 16
    ∷ block 169 254 16
    ∷ block 100 64 10
    ∷ block 0 0 8
    ∷ block 192 0 16
    ∷ block 198 18 15
    ∷ block 224 0 3
    ∷ []

abbrev pub is_none {ℓ} : {A : Type ℓ} → Option A → Bool
is_none none = true
is_none (some a) = false

module _ (a b c d : ℕ) (ha : a < 256) (hb : b < 256) (hc : c < 256) (hd : d < 256) where
  covers-block_8 : (k : ℕ) → covers (number_of a b c d) (block k 0 8) ≡ (a == k)
  unfolding covers block
  covers-block_8 k = ground arith

  covers-block_16 :
      (k l : ℕ) → l < 256 → covers (number_of a b c d) (block k l 16) ≡ (a == k && b == l)
  unfolding covers block
  covers-block_16 k l h = ground arith

  covers-block_172 :
      covers (number_of a b c d) (block 172 16 12) ≡ (a == 172 && leb 16 b && leb b 31)
  unfolding covers block
  covers-block_172 = ground arith

  covers-block_100 :
      covers (number_of a b c d) (block 100 64 10) ≡ (a == 100 && leb 64 b && leb b 127)
  unfolding covers block
  covers-block_100 = ground arith

  covers-block_198 :
      covers (number_of a b c d) (block 198 18 15) ≡ (a == 198 && (b == 18 || b == 19))
  unfolding covers block
  covers-block_198 = ground arith

  covers-block_224 : covers (number_of a b c d) (block 224 0 3) ≡ leb 224 a
  unfolding covers block
  covers-block_224 = ground arith

  -- An IPv4 address is let through exactly if it lies in none of the ten internal blocks.
  pub ipv4_reason-blocks :
      is_none (ipv4_reason (a ∷ b ∷ c ∷ d ∷ []))
      ≡ not (any_of (covers (number_of a b c d)) internal_blocks)
  unfolding ipv4_verdict
  ipv4_reason-blocks =
      rw
        (
          covers-block_8 127,
          covers-block_8 10,
          covers-block_172,
          covers-block_16 192 168 (omega arith),
          covers-block_16 169 254 (omega arith),
          covers-block_100,
          covers-block_8 0,
          covers-block_16 192 0 (omega arith),
          covers-block_198,
          covers-block_224,
        )
        (ground arith)

-- Over a small range, check every value by evaluation.
holds_below : ℕ → (ℕ → Bool) → Bool
holds_below zero p = true
holds_below (suc n) p = p n && holds_below n p

holds_below_sound : (n : ℕ) (p : ℕ → Bool) (x : ℕ) → holds_below n p ≡ true → x < n → p x ≡ true
unfolding holds_below
holds_below_sound zero p x h lt = absurd (omega arith)
holds_below_sound (suc n) p x h lt = ground (arith, holds_below_sound n p x)

-- The first byte of an address that its prefix lets through begins with the bits 001.
prefix_table : holds_below 256 (λ x. not (is_none (prefix_reason x)) || x / 32 == 1) ≡ true
unfolding holds_below prefix_reason
prefix_table = refl

prefix_reason-none : (x : ℕ) → x < 256 → prefix_reason x ≡ none → x / 32 ≡ 1
prefix_reason-none x h e =
    let t : (not (is_none (prefix_reason x)) || x / 32 == 1) ≡ true =
      holds_below_sound 256 _ x prefix_table h in
    ground (arith, t, e)

which_form :
    (mapped nat64 low : Bool) (embedded compatible other : Option Reason)
    → (if mapped then embedded else if nat64 then embedded else if low then compatible else other)
      ≡ none
    → (((mapped ≡ true) ⊎ (nat64 ≡ true)) × (embedded ≡ none))
      ⊎ ((low ≡ true) × (compatible ≡ none))
      ⊎ (other ≡ none)
which_form true nat64 low embedded compatible other e = inl (inl refl, e)
which_form false true low embedded compatible other e = inl (inr refl, e)
which_form false false true embedded compatible other e = inr (inl (refl, e))
which_form false false false embedded compatible other e = inr (inr e)

compatible_reason-none : (last : List ℕ) → compatible_reason last ≡ none → ipv4_reason last ≡ none
compatible_reason-none last e =
    choose (all_zero last) (all_zero (take 3 last) && byte_at 3 last == 1) e
  where
    choose :
        (zero_address one_address : Bool)
        → (if zero_address
            then some unspecified_address
            else if one_address
            then some loopback
            else ipv4_reason last)
          ≡ none
        → ipv4_reason last ≡ none
    choose true one_address e = absurd (ground (arith, e))
    choose false true e = absurd (ground (arith, e))
    choose false false e = e

-- Where an IPv6 address of sixteen bytes is let through, it is global unicast, 2000::/3; or its first
-- twelve bytes are those of one of the three forms that embed an IPv4 address, and that one is let
-- through as well.
pub ipv6_reason_lem :
    (b0 : ℕ) (rest : List ℕ)
    → b0 < 256
    → ipv6_reason (b0 ∷ rest) ≡ none
    → (b0 / 32 ≡ 1)
      ⊎ (((is_mapped (b0 ∷ rest) ≡ true)
            ⊎ (is_nat64 (b0 ∷ rest) ≡ true)
            ⊎ (all_zero (take 12 (b0 ∷ rest)) ≡ true))
          × (ipv4_reason (drop 12 (b0 ∷ rest)) ≡ none))
unfolding ipv6_reason
ipv6_reason_lem b0 rest h e =
    elim (which_form (is_mapped (b0 ∷ rest)) (is_nat64 (b0 ∷ rest)) (all_zero (take 12 (b0 ∷ rest)))
      (ipv4_reason (drop 12 (b0 ∷ rest))) (compatible_reason (drop 12 (b0 ∷ rest)))
      (prefix_reason b0) e) [
        | inl (inl m, v) ↦ inr (inl m, v)
        | inl (inr n, v) ↦ inr (inr (inl n), v)
        | inr (inl (z, c)) ↦ inr (inr (inr z), compatible_reason-none (drop 12 (b0 ∷ rest)) c)
        | inr (inr p) ↦ inl (prefix_reason-none b0 h p)
      ]

unfoldable pub digits_of : ℕ → Text
digits_of n =
    if ltb n 10
    then (n + 48) ∷ []
    else if ltb n 100
    then (n / 10 + 48) ∷ (n % 10 + 48) ∷ []
    else (n / 100 + 48) ∷ (n / 10 % 10 + 48) ∷ (n % 10 + 48) ∷ []

abbrev pub print_ipv4 : ℕ → ℕ → ℕ → ℕ → Text
print_ipv4 a b c d =
    digits_of a ++ (b'.' ∷ (digits_of b ++ (b'.' ∷ (digits_of c ++ (b'.' ∷ digits_of d)))))

octet-digits_of : (n : ℕ) → n < 256 → octet (digits_of n) ≡ some n
unfolding octet digits_of
octet-digits_of n h = ground arith

split-digits_of :
    (n : ℕ) (rest : Text)
    → n < 256
    → split b'.' (digits_of n ++ (b'.' ∷ rest)) ≡ digits_of n ∷ split b'.' rest
unfolding split digits_of
split-digits_of n rest h = ground arith

split-last : (n : ℕ) → n < 256 → split b'.' (digits_of n) ≡ digits_of n ∷ []
unfolding split digits_of
split-last n h = ground arith

-- The printed form of four bytes is read as those bytes.
pub parse_ipv4-print_ipv4 :
    (a b c d : ℕ)
    → a < 256
    → b < 256
    → c < 256
    → d < 256
    → parse_ipv4 (print_ipv4 a b c d) ≡ some (a ∷ b ∷ c ∷ d ∷ [])
unfolding parse_ipv4
parse_ipv4-print_ipv4 a b c d ha hb hc hd =
    rw
      (
        split-digits_of a (digits_of b ++ (b'.' ∷ (digits_of c ++ (b'.' ∷ digits_of d)))) ha,
        split-digits_of b (digits_of c ++ (b'.' ∷ digits_of d)) hb,
        split-digits_of c (digits_of d) hc,
        split-last d hd,
        octet-digits_of a ha,
        octet-digits_of b hb,
        octet-digits_of c hc,
        octet-digits_of d hd,
      )
      (ground arith)
