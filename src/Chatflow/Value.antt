-- ===== src/Chatflow/Value.antt =====
-- The JavaScript values that a chatflow works on: what JSON gives, and `undefined`. Objects have their
-- own properties only; a key of Object.prototype reads as `undefined`.
use we_chat_ai.Base.{
  ℕ, zero, suc, ◌+◌, ◌-◌, ◌*◌, Bool, true, false, not, ◌&&◌, Option, none, some, [], ◌∷◌, Text,
  units, text_discrete, same, leb, ◌==◌, if◌then◌else◌, ite, Number, not_finite, negative, natural,
}

mutual
  pub data Value : Type 0 where
    undefined : Value
    null : Value
    boolean : Bool → Value
    number : Number → Value
    string : Text → Value
    array : Values → Value
    object : Fields → Value

  pub data Values : Type 0 where
    nil : Values
    cons : Value → Values → Values

  pub data Fields : Type 0 where
    end : Fields
    field : Text → Value → Fields → Fields

-- What prints values: `String(n)`, `String(v)` of an array or an object, and `JSON.stringify`.
pub record Printing : Type 0 where
  pub print_number : Number → Text
  pub print_composite : Value → Text
  pub stringify : Value → Text

unfoldable pub get_field : Text → Fields → Value
get_field key end = undefined
get_field key (field k v fields) = ite (text_discrete k key) v (get_field key fields)

unfoldable pub count : Values → ℕ
count nil = 0
count (cons v values) = suc (count values)

unfoldable pub get_elem : ℕ → Values → Value
get_elem n nil = undefined
get_elem zero (cons v values) = v
get_elem (suc n) (cons v values) = get_elem n values

abbrev pub index_step : Option ℕ → ℕ → Option ℕ
index_step none c = none
index_step (some n) c = if leb b'0' c && leb c b'9' then some (n * 10 + (c - 48)) else none

unfoldable pub read_index : Option ℕ → Text → Option ℕ
read_index n [] = n
read_index n (c ∷ text) = read_index (index_step n c) text

-- the index that a key of an array names: digits, with no zero in front of others
abbrev pub index_of : Text → Option ℕ
index_of [] = none
index_of (c ∷ []) = read_index (some 0) (c ∷ [])
index_of (c ∷ d ∷ text) = if c == b'0' then none else read_index (some 0) (c ∷ d ∷ text)

abbrev pub elem_at : Option ℕ → Values → Value
elem_at none values = undefined
elem_at (some n) values = get_elem n values

-- `value[key]` of an object or an array, and `undefined` of anything else
abbrev pub get_key : Text → Value → Value
get_key key (object fields) = get_field key fields
get_key key (array values) =
    if same key (units "length")
    then number (natural (count values))
    else elem_at (index_of key) values
get_key key undefined = undefined
get_key key null = undefined
get_key key (boolean b) = undefined
get_key key (number n) = undefined
get_key key (string text) = undefined

abbrev pub is_zero_or_nan : Number → Bool
is_zero_or_nan not_finite = true
is_zero_or_nan (negative n) = n == 0
is_zero_or_nan (natural n) = n == 0

abbrev pub is_empty_text : Text → Bool
is_empty_text [] = true
is_empty_text (c ∷ text) = false

-- `Boolean(value)`; of the numbers that are not finite only NaN is in the model
abbrev pub truthy : Value → Bool
truthy undefined = false
truthy null = false
truthy (boolean b) = b
truthy (number n) = not (is_zero_or_nan n)
truthy (string text) = not (is_empty_text text)
truthy (array values) = true
truthy (object fields) = true

-- `a || b`
abbrev pub or_value : Value → Value → Value
or_value a b = if truthy a then a else b

-- `typeof value === "object"` and not null
abbrev pub is_object : Value → Bool
is_object (object fields) = true
is_object (array values) = true
is_object _ = false

abbrev pub print_boolean : Bool → Text
print_boolean true = units "true"
print_boolean false = units "false"

module _ (io : Printing) where
  -- `String(value)`
  abbrev pub to_text : Value → Text
  to_text undefined = units "undefined"
  to_text null = units "null"
  to_text (boolean b) = print_boolean b
  to_text (number n) = io.print_number n
  to_text (string text) = text
  to_text (array values) = io.print_composite (array values)
  to_text (object fields) = io.print_composite (object fields)

  -- `String(value ?? "")`
  abbrev pub to_text_or_empty : Value → Text
  to_text_or_empty undefined = []
  to_text_or_empty null = []
  to_text_or_empty v = to_text v

  -- what a template prints for a value
  abbrev pub print_value : Value → Text
  print_value undefined = []
  print_value null = []
  print_value (boolean b) = print_boolean b
  print_value (number n) = io.print_number n
  print_value (string text) = text
  print_value (array values) = io.stringify (array values)
  print_value (object fields) = io.stringify (object fields)
