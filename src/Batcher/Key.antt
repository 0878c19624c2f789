-- ===== src/Batcher/Key.antt =====
-- `batchKey` of apps/api/src/adaptive-reply-batcher.ts: the length of the bot id in decimal, a colon,
-- and the two ids.
use we_chat_ai.Base.{
  ℕ, zero, suc, ◌+◌, ◌-◌, ◌*◌, ◌/◌, ◌%◌, ◌<◌, ◌≡◌, refl, ap, [], ◌∷◌, ◌++◌, arith, Text, length,
  ltb, if◌then◌else◌, All, All-append,
}

-- `String(n)` in base ten; the fuel is above the number of digits.
digits : ℕ → ℕ → Text
digits zero n = []
digits (suc fuel) n =
    let rest = digits fuel (n / 10) in
    if ltb n 10 then (n + b'0') ∷ [] else rest ++ (n % 10 + b'0') ∷ []

unfoldable pub decimal : ℕ → Text
unfolding digits
decimal n = digits (n + 1) n

unfoldable pub batch_key : Text → Text → Text
batch_key bot_id peer_id = decimal (length bot_id) ++ (b':' ∷ (bot_id ++ peer_id))

-- What a run of digits stands for.
value : ℕ → Text → ℕ
value acc [] = acc
value acc (c ∷ s) = value (acc * 10 + (c - b'0')) s

value-append :
    (acc : ℕ) (s : Text) (c : ℕ) → value acc (s ++ c ∷ []) ≡ value acc s * 10 + (c - b'0')
unfolding value
value-append acc [] c = refl
value-append acc (d ∷ s) c = value-append (acc * 10 + (d - b'0')) s c

value-digits : (fuel n : ℕ) → n < fuel → value 0 (digits fuel n) ≡ n
unfolding digits
value-digits zero n h = absurd (omega arith)
value-digits (suc fuel) n h = ground (
  arith,
  value-digits fuel (n / 10),
  value-append 0 (digits fuel (n / 10)) (n % 10 + b'0'),
  value-one n,
)
  where
    value-one : (m : ℕ) → value 0 ((m + b'0') ∷ []) ≡ m
    value-one m = unfold value in omega arith

abbrev IsDigit : ℕ → Type 0
IsDigit c = c < b':'

digits-IsDigit : (fuel n : ℕ) → All IsDigit (digits fuel n)
unfolding digits
digits-IsDigit zero n = tt
digits-IsDigit (suc fuel) n = ground (
  arith,
  All-append IsDigit (digits fuel (n / 10)) ((n % 10 + b'0') ∷ []) (digits-IsDigit fuel (n / 10))
      (omega arith, tt),
)

-- A text splits at its first colon in one way.
split_unique :
    (s t u v : Text)
    → All IsDigit s
    → All IsDigit t
    → s ++ b':' ∷ u ≡ t ++ b':' ∷ v
    → (s ≡ t) × (u ≡ v)
split_unique [] [] u v hs ht e = (refl, cc)
split_unique [] (d ∷ t) u v hs (p, ht) e = absurd (ground arith)
split_unique (c ∷ s) [] u v (p, hs) ht e = absurd (ground arith)
split_unique (c ∷ s) (d ∷ t) u v (p, hs) (q, ht) e =
    let (same, rest) = split_unique s t u v hs ht (cc) in (cc, rest)

append_split : (s t u v : Text) → length s ≡ length t → s ++ u ≡ t ++ v → (s ≡ t) × (u ≡ v)
append_split [] [] u v n e = (refl, e)
append_split [] (d ∷ t) u v n e = absurd (omega arith)
append_split (c ∷ s) [] u v n e = absurd (omega arith)
append_split (c ∷ s) (d ∷ t) u v n e =
    let (same, rest) = append_split s t u v (omega arith) (cc) in (cc, rest)

-- Two pairs of a bot and a peer share a key only if they are the same pair, whatever the ids are.
pub batch_key-injective :
    (bot peer bot' peer' : Text)
    → batch_key bot peer ≡ batch_key bot' peer'
    → (bot ≡ bot') × (peer ≡ peer')
unfolding batch_key decimal
batch_key-injective bot peer bot' peer' e =
    let n = length bot in
    let n' = length bot' in
    let (same, rest) =
      split_unique (digits (n + 1) n) (digits (n' + 1) n') (bot ++ peer) (bot' ++ peer')
        (digits-IsDigit (n + 1) n) (digits-IsDigit (n' + 1) n') e in
    append_split bot bot' peer peer'
      (omega (arith, ap (value 0) same, value-digits (n + 1) n, value-digits (n' + 1) n')) rest
