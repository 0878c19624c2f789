-- ===== src/HotCache/Ttl.antt =====
-- `TtlCache` of packages/db/src/hot-cache.ts. `enabled` is the switch `REDIS_L1_CACHE`, `ceil_tenth`
-- stands for `Math.ceil(n * 0.1)`, and the clock is an argument of each call.
pub mod History
pub mod Bounds
use we_chat_ai.Base.{
  ℕ, ◌+◌, max, Bool, Option, none, some, [], Text, text_discrete, length, leb, ltb, if◌then◌else◌,
}
use we_chat_ai.JsMap.{Map}
use we_chat_ai.JsMap
use we_chat_ai.JsMap.Evict.{evict_from}

pub record Entry (V : Type 0) : Type 0 where
  pub value : V
  pub exp : ℕ

pub record TtlCache (V : Type 0) : Type 0 where
  pub entries : Map Text (Entry V)
  pub ttl_ms : ℕ
  pub bound : ℕ

-- the constructor; `max = 4000` is its default
abbrev pub new : {V : Type 0} → ℕ → ℕ → TtlCache V
new ttl_ms bound = record { entries = []; ttl_ms = max 100 ttl_ms; bound = max 32 bound }

module _ {V : Type 0} where
  unfoldable pub del : Text → TtlCache V → TtlCache V
  del key c = record c { entries = JsMap.delete text_discrete key c.entries }

  unfoldable pub clear : TtlCache V → TtlCache V
  clear c = record c { entries = [] }

  pub get_found : ℕ → Text → TtlCache V → Option (Entry V) → TtlCache V × Option V
  unfolding del
  get_found now key c none = (c, none)
  get_found now key c (some e) = if ltb e.exp now then (del key c, none) else (c, some e.value)

  unfoldable pub get : Bool → ℕ → Text → TtlCache V → TtlCache V × Option V
  unfolding get_found
  get enabled now key c =
      if enabled then get_found now key c (JsMap.get text_discrete key c.entries) else (c, none)

  -- the `if (this.map.size >= this.max)` block
  pub make_room : (ℕ → ℕ) → TtlCache V → Map Text (Entry V)
  make_room ceil_tenth c =
      if leb c.bound (length c.entries)
      then evict_from (ceil_tenth c.bound) 0 c.entries
      else c.entries

  unfoldable pub set : (ℕ → ℕ) → Bool → ℕ → Text → V → TtlCache V → TtlCache V
  unfolding make_room
  set ceil_tenth enabled now key value c =
      if enabled
      then record c {
        entries =
            JsMap.set text_discrete key (record { value = value; exp = now + c.ttl_ms })
              (make_room ceil_tenth c);
      }
      else c
