-- ===== src/HttpGuard/Address.antt =====
-- http-guard.ts: `normalizeHost`, and the readers of IPv4 and IPv6 addresses. An address is the list of
-- its bytes.
use we_chat_ai.Base.{
  ℕ, zero, suc, ◌+◌, ◌-◌, ◌*◌, ◌/◌, ◌%◌, Bool, true, false, not, ◌&&◌, Option, none, some, List, [],
  ◌∷◌, ◌++◌, Text, trim, length, leb, ltb, ◌==◌, if◌then◌else◌, any_of, split, prepend, includes,
  lower_case,
}

-- `while (h.endsWith(".")) h = h.slice(0, -1)`
unfoldable pub drop_dots : Text → Text
drop_dots [] = []
drop_dots (c ∷ text) = drop_dot c (drop_dots text)
  where
    drop_dot : ℕ → Text → Text
    drop_dot c [] = if c == b'.' then [] else c ∷ []
    drop_dot c (d ∷ rest) = c ∷ d ∷ rest

-- the text less its last unit, where that unit is a closing bracket
unfoldable pub before_bracket : Text → Option Text
before_bracket [] = none
before_bracket (c ∷ []) = if c == b']' then some [] else none
before_bracket (c ∷ d ∷ text) = cons_some c (before_bracket (d ∷ text))
  where
    cons_some : ℕ → Option Text → Option Text
    cons_some c none = none
    cons_some c (some text) = some (c ∷ text)

abbrev pub or_text : Option Text → Text → Text
or_text none default = default
or_text (some text) default = text

-- `if (h.startsWith("[") && h.endsWith("]")) h = h.slice(1, -1)`
abbrev pub unbracket : Text → Text
unbracket [] = []
unbracket (c ∷ text) = if c == b'[' then or_text (before_bracket text) (c ∷ text) else c ∷ text

unfoldable pub normalize_host : Text → Text
normalize_host raw = drop_dots (unbracket (lower_case (trim raw)))

abbrev pub is_digit : ℕ → Bool
is_digit c = leb b'0' c && leb c b'9'

-- `\d{1,3}` over the whole part, as a number
unfoldable pub octet : Text → Option ℕ
octet [] = none
octet (a ∷ []) = if is_digit a then some (a - 48) else none
octet (a ∷ b ∷ []) = if is_digit a && is_digit b then some ((a - 48) * 10 + (b - 48)) else none
octet (a ∷ b ∷ c ∷ []) =
    if is_digit a && is_digit b && is_digit c
    then some ((a - 48) * 100 + (b - 48) * 10 + (c - 48))
    else none
octet (a ∷ b ∷ c ∷ d ∷ text) = none

abbrev pub four : Option ℕ → Option ℕ → Option ℕ → Option ℕ → Option (List ℕ)
four (some a) (some b) (some c) (some d) =
    if any_of (λ n. ltb 255 n) (a ∷ b ∷ c ∷ d ∷ []) then none else some (a ∷ b ∷ c ∷ d ∷ [])
four none b c d = none
four (some a) none c d = none
four (some a) (some b) none d = none
four (some a) (some b) (some c) none = none

abbrev pub of_parts : List Text → Option (List ℕ)
of_parts (a ∷ b ∷ c ∷ d ∷ []) = four (octet a) (octet b) (octet c) (octet d)
of_parts [] = none
of_parts (a ∷ []) = none
of_parts (a ∷ b ∷ []) = none
of_parts (a ∷ b ∷ c ∷ []) = none
of_parts (a ∷ b ∷ c ∷ d ∷ e ∷ parts) = none

unfoldable pub parse_ipv4 : Text → Option (List ℕ)
parse_ipv4 host = of_parts (split b'.' host)

-- `[0-9a-f]`, with its value
abbrev pub hex_digit : ℕ → Option ℕ
hex_digit c =
    if is_digit c then some (c - 48) else if leb b'a' c && leb c b'f' then some (c - 87) else none

abbrev pub hex_step : Option ℕ → Option ℕ → Option ℕ
hex_step (some n) (some digit) = some (n * 16 + digit)
hex_step (some n) none = none
hex_step none digit = none

unfoldable pub hex_value : Option ℕ → Text → Option ℕ
hex_value n [] = n
hex_value n (c ∷ text) = hex_value (hex_step n (hex_digit c)) text

-- `^[0-9a-f]{1,4}$` and `parseInt(part, 16)`
abbrev pub hex_group : Text → Option ℕ
hex_group part =
    if leb 1 (length part) && leb (length part) 4 then hex_value (some 0) part else none

abbrev pub join : Option (List ℕ) → Option (List ℕ) → Option (List ℕ)
join (some xs) (some ys) = some (xs ++ ys)
join (some xs) none = none
join none ys = none

-- the two groups of an embedded IPv4 address
abbrev pub v4_groups : Option (List ℕ) → Option (List ℕ)
v4_groups (some (a ∷ b ∷ c ∷ d ∷ [])) = some ((a * 256 + b) ∷ (c * 256 + d) ∷ [])
v4_groups _ = none

abbrev pub one_group : Option ℕ → Option (List ℕ)
one_group none = none
one_group (some g) = some (g ∷ [])

-- the groups of one part between colons
unfoldable pub part_groups : Text → Option (List ℕ)
part_groups [] = none
part_groups (c ∷ part) =
    if includes b'.' (c ∷ part)
    then v4_groups (parse_ipv4 (c ∷ part))
    else one_group (hex_group (c ∷ part))

unfoldable pub all_groups : List Text → Option (List ℕ)
all_groups [] = some []
all_groups (part ∷ parts) = join (part_groups part) (all_groups parts)

abbrev pub to_groups : Text → Option (List ℕ)
to_groups [] = some []
to_groups (c ∷ text) = all_groups (split b':' (c ∷ text))

-- `host.split("::")`
unfoldable pub split_double : Text → List Text
split_double [] = [] ∷ []
split_double (c ∷ []) = (c ∷ []) ∷ []
split_double (c ∷ d ∷ text) = elim (c == b':' && d == b':') [
  | true ↦ [] ∷ split_double text
  | false ↦ prepend c (split_double (d ∷ text))
]

abbrev pub zeros : ℕ → List ℕ
zeros zero = []
zeros (suc n) = 0 ∷ zeros n

-- the groups where `::` stands for at least one group of zeros
abbrev pub filled : Option (List ℕ) → Option (List ℕ) → Option (List ℕ)
filled (some front) (some back) =
    if ltb (length front + length back) 8
    then some (front ++ (zeros (8 - length front - length back) ++ back))
    else none
filled (some front) none = none
filled none back = none

abbrev pub groups_of : List Text → Option (List ℕ)
groups_of [] = none
groups_of (whole ∷ []) = to_groups whole
groups_of (front ∷ back ∷ []) = filled (to_groups front) (to_groups back)
groups_of (a ∷ b ∷ c ∷ rest) = none

unfoldable pub group_bytes : List ℕ → List ℕ
group_bytes [] = []
group_bytes (g ∷ groups) = (g / 256 % 256) ∷ (g % 256) ∷ group_bytes groups

abbrev pub eight : Option (List ℕ) → Option (List ℕ)
eight none = none
eight (some groups) = if length groups == 8 then some (group_bytes groups) else none

unfoldable pub parse_ipv6 : Text → Option (List ℕ)
parse_ipv6 host =
    if includes b':' host && not (includes b'%' host)
    then eight (groups_of (split_double host))
    else none
