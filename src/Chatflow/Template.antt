-- ===== src/Chatflow/Template.antt =====
-- chatflow/validate.ts: `renderTemplate`, `lookupVar` and `evalCondition`. The regular expressions are
-- written as scans; a line terminator is what `.` does not match.
use we_chat_ai.Base.{
  ℕ, zero, suc, ◌+◌, ◌-◌, Bool, true, false, not, ◌&&◌, ◌||◌, Option, none, some, List, [], ◌∷◌,
  ◌++◌, Text, units, trim, trim_start, text_discrete, is_space, same, any_of, take, drop, length,
  split, ends_with, lower_case, ◌==◌, if◌then◌else◌, not_finite, negative, natural,
}
use we_chat_ai.JsMap.{Map, get}
use we_chat_ai.Chatflow.Value.{
  Value, undefined, null, number, string, Printing, get_key, is_empty_text, to_text_or_empty,
  print_value, truthy,
}

abbrev pub Vars : Type 0
Vars = Map Text Value

abbrev pub or_undefined : Option Value → Value
or_undefined none = undefined
or_undefined (some v) = v

-- the walk along the parts of a dotted path below the variables
unfoldable pub walk : Value → List Text → Value
walk v [] = v
walk v (part ∷ parts) = walk (get_key part v) parts

abbrev pub walk_vars : Vars → List Text → Value
walk_vars vars [] = undefined
walk_vars vars (part ∷ parts) = walk (or_undefined (get text_discrete part vars)) parts

abbrev pub found_or_walk : Option Value → Vars → Text → Value
found_or_walk (some v) vars path = v
found_or_walk none vars path = walk_vars vars (split b'.' path)

unfoldable pub lookup_var : Vars → Text → Value
lookup_var vars path = found_or_walk (get text_discrete path vars) vars path

-- The key of a placeholder that opens before a text, `[^}]+` and then `}}`, with what follows it.
unfoldable pub placeholder : Text → Option (Text × Text)
placeholder [] = none
placeholder (c ∷ text) = if c == b'}' then none else go c text
  where
    closed : ℕ → Text → Option (Text × Text)
    closed c [] = none
    closed c (d ∷ rest) = if d == b'}' then some (c ∷ [], rest) else none

    key_more : ℕ → Option (Text × Text) → Option (Text × Text)
    key_more c none = none
    key_more c (some (key, rest)) = some (c ∷ key, rest)

    go : ℕ → Text → Option (Text × Text)
    go c [] = none
    go c (d ∷ text) = let more = go d text in if d == b'}' then closed c text else key_more c more

-- the key of a placeholder that stands at the head of a text
abbrev pub placeholder_at : Text → Option Text
placeholder_at (c ∷ d ∷ text) = if c == b'{' && d == b'{' then key_of (placeholder text) else none
  where
    key_of : Option (Text × Text) → Option Text
    key_of none = none
    key_of (some (key, rest)) = some key
placeholder_at [] = none
placeholder_at (c ∷ []) = none

module _ (io : Printing) (vars : Vars) where
  -- what stands for a placeholder: nothing for a blank key
  abbrev pub render_key : Text → Text
  render_key [] = []
  render_key (c ∷ key) = print_value io (lookup_var vars (c ∷ key))

  -- The text from here on, after `skipped` units that belong to a placeholder.
  unfoldable pub render_from : ℕ → Text → Text
  render_from skipped [] = []
  render_from (suc skipped) (c ∷ text) = render_from skipped text
  render_from zero (c ∷ text) = elim (placeholder_at (c ∷ text)) [
    | none ↦ c ∷ render_from zero text
    | some key ↦ render_key (trim key) ++ render_from (length key + 3) text
  ]

  abbrev pub render_template : Text → Text
  render_template template = render_from 0 template

infixl 5 ◌>>=◌
abbrev pub ◌>>=◌ : {A B : Type 0} → Option A → (A → Option B) → Option B
none >>= f = none
some a >>= f = f a

abbrev pub is_line_end : ℕ → Bool
is_line_end c = c == 10 || c == 13 || c == 8232 || c == 8233

-- a word at the head of a text, letters in any case; the text after it
unfoldable pub after_word : Text → Text → Option Text
after_word word text =
    if same (lower_case (take (length word) text)) word
    then some (drop (length word) text)
    else none

-- `\s+` at the head of a text
abbrev pub after_spaces : Text → Option Text
after_spaces [] = none
after_spaces (c ∷ text) = if is_space c then some (trim_start text) else none

-- `(.+)$`
abbrev pub one_line : Text → Option Text
one_line [] = none
one_line (c ∷ text) = if any_of is_line_end (c ∷ text) then none else some (c ∷ text)

-- `^(.+?)` and then what `f` finds: the shortest text in front of it, of one unit at least
unfoldable pub scan : {A : Type 0} → (Text → Option A) → Text → Option (Text × A)
scan f [] = none
scan f (c ∷ text) = if is_line_end c then none else first_of c (f text) (scan f text)
  where
    first_of : {A : Type 0} → ℕ → Option A → Option (Text × A) → Option (Text × A)
    first_of c (some a) rest = some (c ∷ [], a)
    first_of c none none = none
    first_of c none (some (front, a)) = some (c ∷ front, a)

abbrev pub empty_operand : Text → Option Text
empty_operand s = after_word (units "empty") s >>= λ t. after_spaces t >>= one_line

abbrev pub or_option : {A : Type 0} → Option A → Option A → Option A
or_option none b = b
or_option (some a) b = some a

abbrev pub not_empty_operand : Text → Option Text
not_empty_operand s =
    or_option (after_word (units "not") s >>= λ t. after_spaces t >>= empty_operand)
      (after_word (units "!empty") s >>= λ t. after_spaces t >>= one_line)

abbrev pub contains_operand : Text → Option Text
contains_operand s =
    after_spaces s >>= λ t. after_word (units "contains") t >>= λ u. after_spaces u >>= one_line

-- `\s*(==|!=)\s*(.+)$`, with whether the operator is `==`
abbrev pub equals_operand : Text → Option (Bool × Text)
equals_operand s =
    or_option
      (after_word (units "==") (trim_start s) >>= λ t.
        one_line (trim_start t) >>= λ v. some (true, v))
      (after_word (units "!=") (trim_start s) >>= λ t.
        one_line (trim_start t) >>= λ v. some (false, v))

abbrev pub is_blank_value : Value → Bool
is_blank_value undefined = true
is_blank_value null = true
is_blank_value (string []) = true
is_blank_value _ = false

-- `left.includes(right)`
unfoldable pub includes_text : Text → Text → Bool
includes_text right [] = is_empty_text right
includes_text right (c ∷ left) =
    same (take (length right) (c ∷ left)) right || includes_text right left

abbrev pub is_quoted : ℕ → Text → Bool
is_quoted quote token = same (take 1 token) (quote ∷ []) && ends_with (quote ∷ []) token

-- `token.slice(n, -n)`
abbrev pub slice_both : ℕ → Text → Text
slice_both n token = take (length token - n - n) (drop n token)

abbrev pub is_bare_true : Value → Bool
is_bare_true (number (natural n)) = not (n == 0)
is_bare_true (number (negative n)) = not (n == 0)
is_bare_true (number not_finite) = true
is_bare_true v = truthy v

module _ (io : Printing) (vars : Vars) where
  abbrev pub bare_token : Value → Text → Text
  bare_token undefined token = token
  bare_token v token = to_text_or_empty io v

  unfoldable pub unquote : Text → Text
  unquote token =
      if is_quoted b'"' token || is_quoted 39 token
      then slice_both 1 token
      else if same (take 2 token) (units "{{") && ends_with (units "}}") token
      then to_text_or_empty io (lookup_var vars (trim (slice_both 2 token)))
      else bare_token (lookup_var vars token) token

  abbrev pub bare : Text → Bool
  bare s = is_bare_true (lookup_var vars s)

  abbrev pub eval_equals : Text → Option (Text × (Bool × Text)) → Bool
  eval_equals s none = bare s
  eval_equals s (some (left, (positive, right))) =
      let equal = same (to_text_or_empty io (lookup_var vars (trim left))) (unquote (trim right)) in
      if positive then equal else not equal

  abbrev pub eval_contains : Text → Option (Text × Text) → Bool
  eval_contains s none = eval_equals s (scan equals_operand s)
  eval_contains s (some (left, right)) =
      includes_text (unquote (trim right)) (to_text_or_empty io (lookup_var vars (trim left)))

  abbrev pub eval_not_empty : Text → Option Text → Bool
  eval_not_empty s none = eval_contains s (scan contains_operand s)
  eval_not_empty s (some operand) = not (is_blank_value (lookup_var vars (trim operand)))

  abbrev pub eval_empty : Text → Option Text → Bool
  eval_empty s none = eval_not_empty s (not_empty_operand s)
  eval_empty s (some operand) = is_blank_value (lookup_var vars (trim operand))

  abbrev pub eval_trimmed : Text → Bool
  eval_trimmed [] = false
  eval_trimmed (c ∷ s) = eval_empty (c ∷ s) (empty_operand (c ∷ s))

  unfoldable pub eval_condition : Text → Bool
  eval_condition expr = eval_trimmed (trim expr)
