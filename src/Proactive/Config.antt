-- ===== src/Proactive/Config.antt =====
-- proactive.ts, `isTruthyFlag` and `mergeBotProactiveConfig`. Of the numbers that are not finite only
-- NaN is in the model of the idle hours.
use we_chat_ai.Base.{
  same, ℕ, Bool, false, ◌||◌, Option, none, some, Text, units, Number, not_finite, negative,
  natural, ltb, ◌==◌, if◌then◌else◌, [],
}

-- A flag as the stores hold it: absent, a boolean, a number or a text.
pub data Flag : Type 0 where
  absent : Flag
  boolean : Bool → Flag
  number : Number → Flag
  text_of : Text → Flag

abbrev pub is_one : Number → Bool
is_one not_finite = false
is_one (negative n) = false
is_one (natural n) = n == 1

unfoldable pub is_truthy_flag : Flag → Bool
is_truthy_flag absent = false
is_truthy_flag (boolean b) = b
is_truthy_flag (number n) = is_one n
is_truthy_flag (text_of text) = same text (units "1") || same text (units "true")

-- `proactive_quiet_hours`: undefined takes the default, null turns it off
pub data QuietSetting : Type 0 where
  undefined : QuietSetting
  null : QuietSetting
  given : Text → QuietSetting

pub record BotConfig : Type 0 where
  pub enabled : Flag
  pub idle_hours : Option Number
  pub min_interval_hours : Option Number
  pub max_per_day : Option Number
  pub quiet_hours : QuietSetting

pub record Defaults : Type 0 where
  pub idle_hours : ℕ
  pub min_interval_hours : ℕ
  pub max_per_day : ℕ
  pub quiet_hours : Text

pub record Merged : Type 0 where
  pub enabled : Bool
  pub idle_hours : ℕ
  pub min_interval_hours : ℕ
  pub max_per_day : ℕ
  pub quiet_hours : Text

abbrev pub quiet_or : QuietSetting → Text → Text
quiet_or undefined default = default
quiet_or null default = []
quiet_or (given text) default = text

-- `x != null && x > 0 ? x : default`
abbrev pub positive_or : Option Number → ℕ → ℕ
positive_or none default = default
positive_or (some not_finite) default = default
positive_or (some (negative n)) default = default
positive_or (some (natural n)) default = if ltb 0 n then n else default

-- `x != null && Number.isFinite(x) ? Math.max(0, x) : default`
abbrev pub finite_or : Option Number → ℕ → ℕ
finite_or none default = default
finite_or (some not_finite) default = default
finite_or (some (negative n)) default = 0
finite_or (some (natural n)) default = n

unfoldable pub merge_bot_proactive_config : BotConfig → Defaults → Merged
merge_bot_proactive_config bot defaults = record {
  enabled = is_truthy_flag bot.enabled;
  idle_hours = positive_or bot.idle_hours defaults.idle_hours;
  min_interval_hours = finite_or bot.min_interval_hours defaults.min_interval_hours;
  max_per_day = finite_or bot.max_per_day defaults.max_per_day;
  quiet_hours = quiet_or bot.quiet_hours defaults.quiet_hours;
}
