-- ===== src/Proactive/Tests.antt =====
-- Concrete pairs of a bot and a peer. Times are printed and read back in decimal, and the hour is that
-- of UTC.
use we_chat_ai.Base.{
  ℕ, ◌*◌, ◌/◌, ◌%◌, ◌≡◌, refl, ◌↔◌, true, Option, none, some, [], ◌∷◌, arith, Text, units, same,
  trim_end, trim_start, is_space, natural, negative, ltb,
}
use we_chat_ai.Proactive.Quiet.{
  Formatted, hour_number, parse_quiet_hours, hour_in_time_zone, is_in_quiet_hours,
  one_or_two_digits, check_window, is_in_quiet_hours-clock, Window, steps_from,
}
use we_chat_ai.Proactive.Config.{is_truthy_flag, boolean, number, BotConfig, Defaults, given}
use we_chat_ai.Proactive.Eligible.{
  EligibilityInput, is_proactive_eligible, resolve_activity_ms, hours, eligible, zone_or_default,
}
use we_chat_ai.Proactive.Promises.{IsEligible, is_proactive_eligible-IsEligible}

abbrev read : Text → Option ℕ
read [] = none
read (c ∷ text) = some (c * 3600000)

abbrev utc : ℕ → Text → Formatted
utc date time_zone = hour_number (date / 3600000 % 24)

abbrev local : ℕ → ℕ
local date = date / 3600000 % 24

-- idle since hour 10, written to at hour 5, awake from hour 8 on
abbrev peer : EligibilityInput
peer = record {
  bot_status = units "active";
  bot_proactive_enabled = number (natural 1);
  peer_approved = boolean true;
  peer_proactive_enabled = boolean true;
  has_context_token = true;
  last_activity_at = some (10 ∷ []);
  peer_created_at = none;
  last_proactive_at = some (5 ∷ []);
  last_proactive_attempt_at = some (5 ∷ []);
  day_count = 1;
  idle_hours = 6;
  min_interval_hours = 12;
  max_per_day = 2;
  quiet_hours = some (units "22-8");
  quiet_time_zone = none;
  attempt_cooldown_hours = none;
}

abbrev talkative : BotConfig
talkative = record {
  enabled = boolean true;
  idle_hours = some (natural 0);
  min_interval_hours = some (negative 4);
  max_per_day = none;
  quiet_hours = given (units "0-8");
}

abbrev usual : Defaults
usual = record {
  idle_hours = 24;
  min_interval_hours = 48;
  max_per_day = 1;
  quiet_hours = units "0-8";
}

at_hour : hour_in_time_zone utc local (hours 18) (zone_or_default peer.quiet_time_zone) ≡ 18
unfolding hour_in_time_zone
at_hour = refl

is_proactive_eligible-IsEligible_example :
    (is_proactive_eligible read utc local peer (hours 18) ≡ eligible (hours 18, hours 10))
    ↔ IsEligible read utc local peer (hours 18) (hours 10)
is_proactive_eligible-IsEligible_example =
    is_proactive_eligible-IsEligible read utc local peer (hours 18) (hours 10)
      (omega (arith, at_hour))

eligible_at_18 :
    is_proactive_eligible read utc local peer (hours 18) ≡ eligible (hours 18, hours 10)
unfolding is_proactive_eligible is_truthy_flag same parse_quiet_hours one_or_two_digits check_window
    trim_end trim_start is_space hour_in_time_zone is_in_quiet_hours resolve_activity_ms
eligible_at_18 = refl

abbrev night : Window
night = record { start = 22; end = 8 }

night_read : parse_quiet_hours (some (units "22-8")) ≡ some night
unfolding parse_quiet_hours one_or_two_digits check_window trim_end trim_start is_space
night_read = refl

is_in_quiet_hours-clock_example :
    is_in_quiet_hours 3 night ≡ ltb (steps_from night.start 3) (steps_from night.start night.end)
is_in_quiet_hours-clock_example =
    is_in_quiet_hours-clock (some (units "22-8")) night 3 night_read (omega arith)
