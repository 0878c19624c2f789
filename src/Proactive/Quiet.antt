-- ===== src/Proactive/Quiet.antt =====
-- proactive.ts: `parseQuietHours`, `hourInTimeZone` and `isInQuietHours`.
use we_chat_ai.Base.{
  none_ne_some, ℕ, ◌+◌, ◌-◌, ◌*◌, ◌/◌, ◌%◌, ◌≤◌, ◌<◌, ◌≡◌, ◌≢◌, refl, Bool, true, false, ◌&&◌, ◌||◌,
  Option, none, some, [], ◌∷◌, ◌++◌, arith, Text, leb, ltb, ◌==◌, if◌then◌else◌, trim, trim_end,
  trim_start, is_space, All, All-append,
}

pub record Window : Type 0 where
  pub start : ℕ
  pub end : ℕ

abbrev pub is_digit : ℕ → Bool
is_digit c = leb 48 c && leb c 57

-- `\d{1,2}` at the head of a text, with the rest
unfoldable pub one_or_two_digits : Text → Option (ℕ × Text)
one_or_two_digits [] = none
one_or_two_digits (c ∷ []) = if is_digit c then some (c - 48, []) else none
one_or_two_digits (c ∷ d ∷ text) =
    if is_digit c
    then (if is_digit d then some ((c - 48) * 10 + (d - 48), text) else some (c - 48, d ∷ text))
    else none

-- the tests on the two numbers of a match
unfoldable pub check_window : ℕ → ℕ → Option Window
check_window start end =
    if ltb 23 start || ltb 23 end
    then none
    else if start == end
    then none
    else some record { start = start; end = end }

abbrev pub end_of_match : ℕ → Option (ℕ × Text) → Option Window
end_of_match start none = none
end_of_match start (some (end, [])) = check_window start end
end_of_match start (some (end, c ∷ text)) = none

abbrev pub after_start : Option (ℕ × Text) → Option Window
after_start none = none
after_start (some (start, [])) = none
after_start (some (start, c ∷ text)) =
    if c == 45 then end_of_match start (one_or_two_digits text) else none

-- `^(\d{1,2})-(\d{1,2})$` on the trimmed text; the blank text does not match
unfoldable pub parse_quiet_hours : Option Text → Option Window
parse_quiet_hours none = none
parse_quiet_hours (some raw) = after_start (one_or_two_digits (trim raw))

unfoldable pub is_in_quiet_hours : ℕ → Window → Bool
is_in_quiet_hours hour window =
    if ltb window.start window.end
    then leb window.start hour && ltb hour window.end
    else leb window.start hour || ltb hour window.end

-- What `Intl.DateTimeFormat` gives for the hour: it throws, it has no hour or one that is no number,
-- or a number.
pub data Formatted : Type 0 where
  throws : Formatted
  no_number : Formatted
  hour_number : ℕ → Formatted

module _ (format_hour : ℕ → Text → Formatted) (local_hour : ℕ → ℕ) where
  abbrev pub hour_of : ℕ → Formatted → ℕ
  hour_of date throws = local_hour date
  hour_of date no_number = local_hour date
  hour_of date (hour_number n) = if n == 24 then 0 else n

  unfoldable pub hour_in_time_zone : ℕ → Text → ℕ
  hour_in_time_zone date time_zone = hour_of date (format_hour date time_zone)

check_window_range :
    (start end : ℕ) (window : Window)
    → check_window start end ≡ some window
    → (window.start < 24) × (window.end < 24) × (window.start ≢ window.end)
unfolding check_window
check_window_range start end window h = ground arith

after_start_range :
    (match : Option (ℕ × Text)) (window : Window)
    → after_start match ≡ some window
    → (window.start < 24) × (window.end < 24) × (window.start ≢ window.end)
unfolding one_or_two_digits
after_start_range none window h = absurd (none_ne_some h)
after_start_range (some (start, [])) window h = absurd (none_ne_some h)
after_start_range (some (start, c ∷ text)) window h = go (c == 45) h
  where
    matched :
        (end : Option (ℕ × Text))
        → end_of_match start end ≡ some window
        → (window.start < 24) × (window.end < 24) × (window.start ≢ window.end)
    matched none e = absurd (none_ne_some e)
    matched (some (end, [])) e = check_window_range start end window e
    matched (some (end, d ∷ more)) e = absurd (none_ne_some e)

    go :
        (dash : Bool)
        → (if dash then end_of_match start (one_or_two_digits text) else none) ≡ some window
        → (window.start < 24) × (window.end < 24) × (window.start ≢ window.end)
    go true e = matched (one_or_two_digits text) e
    go false e = absurd (none_ne_some e)

-- A setting that is read at all gives two different hours of the day.
pub parse_quiet_hours_range :
    (raw : Option Text) (window : Window)
    → parse_quiet_hours raw ≡ some window
    → (window.start < 24) × (window.end < 24) × (window.start ≢ window.end)
unfolding parse_quiet_hours
parse_quiet_hours_range none window h = absurd (none_ne_some h)
parse_quiet_hours_range (some raw) window h =
    after_start_range (one_or_two_digits (trim raw)) window h

-- the hours of the clock from the one to the other, around midnight
abbrev pub steps_from : ℕ → ℕ → ℕ
steps_from start hour = (hour + 24 - start) % 24

-- For a setting that is read, the quiet hours are those that the clock shows from the start on, around
-- midnight, before the end: an hour of the day is quiet exactly when it takes fewer steps from the start to
-- it than from the start to the end.
pub is_in_quiet_hours-clock :
    (raw : Option Text) (window : Window) (hour : ℕ)
    → parse_quiet_hours raw ≡ some window
    → hour < 24
    → is_in_quiet_hours hour window
      ≡ ltb (steps_from window.start hour) (steps_from window.start window.end)
unfolding is_in_quiet_hours
is_in_quiet_hours-clock raw window hour e h =
    let (s, t, differ) = parse_quiet_hours_range raw window e in ground (arith, s, t, differ, h)

-- the decimal print of an hour
abbrev pub print_hour : ℕ → Text
print_hour n = if ltb n 10 then (n + 48) ∷ [] else (n / 10 + 48) ∷ (n % 10 + 48) ∷ []

printable : (c : ℕ) → 33 ≤ c → c ≤ 126 → is_space c ≡ false
unfolding is_space
printable c h k = ground arith

abbrev IsPrintable : ℕ → Type 0
IsPrintable c = (33 ≤ c) × (c ≤ 126)

trim_start-IsPrintable : (text : Text) → All IsPrintable text → trim_start text ≡ text
unfolding trim_start
trim_start-IsPrintable [] h = refl
trim_start-IsPrintable (c ∷ text) ((low, high), h) = ground (arith, printable c low high)

trim_end-IsPrintable : (text : Text) → All IsPrintable text → trim_end text ≡ text
unfolding trim_end
trim_end-IsPrintable [] h = refl
trim_end-IsPrintable (c ∷ []) ((low, high), h) = ground (arith, printable c low high)
trim_end-IsPrintable (c ∷ d ∷ text) (p, h) = rw (trim_end-IsPrintable (d ∷ text) h) refl

one_or_two_digits-print_hour : (n : ℕ) → n < 24 → one_or_two_digits (print_hour n) ≡ some (n, [])
unfolding one_or_two_digits
one_or_two_digits-print_hour n h = ground arith

one_or_two_digits-append_dash :
    (n : ℕ) (text : Text)
    → n < 24
    → one_or_two_digits (print_hour n ++ (45 ∷ text)) ≡ some (n, 45 ∷ text)
unfolding one_or_two_digits
one_or_two_digits-append_dash n text h = ground arith

print_hour-IsPrintable : (n : ℕ) → n < 24 → All IsPrintable (print_hour n)
print_hour-IsPrintable n h = ground arith

-- Two different hours that are printed with a dash between them are read back.
pub parse_quiet_hours-print_hour :
    (start end : ℕ)
    → start < 24
    → end < 24
    → start ≢ end
    → parse_quiet_hours (some (print_hour start ++ (45 ∷ print_hour end)))
      ≡ some record { start = start; end = end }
unfolding parse_quiet_hours check_window
parse_quiet_hours-print_hour start end s e ne =
    let printed =
      All-append IsPrintable (print_hour start) (45 ∷ print_hour end)
        (print_hour-IsPrintable start s)
        ((omega arith, omega arith), print_hour-IsPrintable end e) in
    rw
      (
        trim_start-IsPrintable (print_hour start ++ (45 ∷ print_hour end)) printed,
        trim_end-IsPrintable (print_hour start ++ (45 ∷ print_hour end)) printed,
        one_or_two_digits-append_dash start (print_hour end) s,
        one_or_two_digits-print_hour end e,
      )
      (ground arith)
