-- ===== src/HttpGuard/Tests.antt =====
-- Concrete addresses and hosts.
use we_chat_ai.Base.{
  ◌/◌, ◌≡◌, refl, ◌⊎◌, true, not, none, some, [], ◌∷◌, arith, units, any_of, trim_start, trim_end,
  is_space, lower_case, split, same, ends_with,
}
use we_chat_ai.HttpGuard.Address.{
  normalize_host, drop_dots, before_bracket, octet, parse_ipv4, parse_ipv6, hex_value, part_groups,
  all_groups, split_double, group_bytes,
}
use we_chat_ai.HttpGuard.Ranges.{
  ipv4_verdict, ipv4_reason, ipv6_reason, prefix_reason, ip_reason, loopback, link_local, is_mapped,
  is_nat64, all_zero, internal_suffix,
}
use we_chat_ai.HttpGuard.Guard.{name_reason, suffix_reason}
use we_chat_ai.HttpGuard.Blocks.{
  covers, number_of, internal_blocks, is_none, ipv4_reason-blocks, ipv6_reason_lem, print_ipv4,
  parse_ipv4-print_ipv4,
}

mapped_loopback : ip_reason (units "[::FFFF:127.0.0.1]") ≡ some loopback
unfolding ip_reason normalize_host drop_dots before_bracket octet parse_ipv4 parse_ipv6 hex_value
    part_groups all_groups split_double group_bytes ipv4_verdict ipv6_reason trim_start trim_end
    is_space lower_case split
mapped_loopback = refl

metadata_service : ip_reason (units "169.254.169.254") ≡ some link_local
unfolding ip_reason normalize_host drop_dots before_bracket octet parse_ipv4 ipv4_verdict trim_start
    trim_end is_space lower_case split
metadata_service = refl

intranet_name : name_reason (units "db.prod.corp") ≡ some (internal_suffix (units ".corp"))
unfolding name_reason suffix_reason same ends_with
intranet_name = refl

ipv4_reason-blocks_example :
    is_none (ipv4_reason (169 ∷ 254 ∷ 169 ∷ 254 ∷ []))
    ≡ not (any_of (covers (number_of 169 254 169 254)) internal_blocks)
ipv4_reason-blocks_example =
    ipv4_reason-blocks 169 254 169 254 (omega arith) (omega arith) (omega arith) (omega arith)

-- 2606:4700::1111
ipv6_reason_lem_example :
    (38 / 32 ≡ 1)
    ⊎ (((is_mapped (38 ∷ 6 ∷ 71 ∷ 0 ∷ 0 ∷ 0 ∷ 0 ∷ 0 ∷ 0 ∷ 0 ∷ 0 ∷ 0 ∷ 0 ∷ 0 ∷ 17 ∷ 17 ∷ []) ≡ true)
          ⊎ (is_nat64 (38 ∷ 6 ∷ 71 ∷ 0 ∷ 0 ∷ 0 ∷ 0 ∷ 0 ∷ 0 ∷ 0 ∷ 0 ∷ 0 ∷ 0 ∷ 0 ∷ 17 ∷ 17 ∷ [])
              ≡ true)
          ⊎ (all_zero (38 ∷ 6 ∷ 71 ∷ 0 ∷ 0 ∷ 0 ∷ 0 ∷ 0 ∷ 0 ∷ 0 ∷ 0 ∷ 0 ∷ []) ≡ true))
        × (ipv4_reason (0 ∷ 0 ∷ 17 ∷ 17 ∷ []) ≡ none))
unfolding ipv6_reason prefix_reason
ipv6_reason_lem_example =
    ipv6_reason_lem 38 (6 ∷ 71 ∷ 0 ∷ 0 ∷ 0 ∷ 0 ∷ 0 ∷ 0 ∷ 0 ∷ 0 ∷ 0 ∷ 0 ∷ 0 ∷ 17 ∷ 17 ∷ [])
      (omega arith) refl

parse_ipv4-print_ipv4_example : parse_ipv4 (print_ipv4 8 8 4 255) ≡ some (8 ∷ 8 ∷ 4 ∷ 255 ∷ [])
parse_ipv4-print_ipv4_example =
    parse_ipv4-print_ipv4 8 8 4 255 (omega arith) (omega arith) (omega arith) (omega arith)
