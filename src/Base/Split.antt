-- ===== src/Base/Split.antt =====
-- More of the JavaScript strings: `split` at one unit, `endsWith`, `includes` and `toLowerCase`, the
-- last on the letters of ASCII.
use Prim.Native.Nat.{ℕ, ◌+◌, ◌-◌}
use mathlib.Core.Bool.{Bool, ◌&&◌}
use mathlib.Core.List.{List, [], ◌∷◌}
use we_chat_ai.Base.Tests.{leb, ◌==◌, if◌then◌else◌}
use we_chat_ai.Base.Lists.{length, drop, any_of}
use we_chat_ai.Base.Texts.{Text}
use we_chat_ai.Base.Trim.{same}

-- a unit in front of the first part
abbrev pub prepend : ℕ → List Text → List Text
prepend c [] = (c ∷ []) ∷ []
prepend c (part ∷ parts) = (c ∷ part) ∷ parts

unfoldable pub split : ℕ → Text → List Text
split separator [] = [] ∷ []
split separator (c ∷ text) =
    let parts = split separator text in if c == separator then [] ∷ parts else prepend c parts

abbrev pub includes : ℕ → Text → Bool
includes c text = any_of (λ d. c == d) text

-- `text.endsWith(suffix)`
unfoldable pub ends_with : Text → Text → Bool
ends_with suffix text =
    leb (length suffix) (length text) && same (drop (length text - length suffix) text) suffix

unfoldable pub lower_case : Text → Text
lower_case [] = []
lower_case (c ∷ text) = (if leb b'A' c && leb c b'Z' then c + 32 else c) ∷ lower_case text
