-- ===== src/P2p/Command.antt =====
-- p2p-service.ts: the commands that a message may be. The text is trimmed, so that the white space around a
-- command is gone before its pattern is tried.
use we_chat_ai.Base.{
  ℕ, Bool, ◌&&◌, ◌||◌, Option, none, some, [], ◌∷◌, Text, units, trim, trim_start, false, true,
  every, same, take, drop, length, leb, ◌==◌, is_space, if◌then◌else◌,
}

pub data Command : Type 0 where
  bind : Text → Command
  unbind : Command
  whoami : Command
  accept : Command
  reject : Command
  disconnect : Command
  cancel : Command
  block : Text → Command
  unblock : Text → Command
  block_list : Command
  mention : Text → Command

abbrev pub is_alnum : ℕ → Bool
is_alnum c = (leb b'0' c && leb c b'9') || (leb b'A' c && leb c b'Z') || (leb b'a' c && leb c b'z')

abbrev pub is_name_unit : ℕ → Bool
is_name_unit c = is_alnum c || c == b'_' || c == b'.' || c == b'-'

-- `([A-Za-z0-9_.-]{1,64})` to the end
abbrev pub user_name : Text → Option Text
user_name text =
    if leb 1 (length text) && leb (length text) 64 && every is_name_unit text
    then some text
    else none

-- `([A-Za-z0-9]{4,12})` to the end
abbrev pub code_name : Text → Option Text
code_name text =
    if leb 4 (length text) && leb (length text) 12 && every is_alnum text then some text else none

-- what follows a word and one white space or more
abbrev pub spaced : Text → Option Text
spaced [] = none
spaced (c ∷ text) = if is_space c then some (trim_start text) else none

abbrev pub after_word : Text → Text → Option Text
after_word word text =
    if same (take (length word) text) word then spaced (drop (length word) text) else none

abbrev pub without_at : Text → Text
without_at [] = []
without_at (c ∷ text) = if c == b'@' then text else c ∷ text

abbrev pub with : (Text → Option Text) → (Text → Command) → Option Text → Option Command
with name command none = none
with name command (some text) = named command (name text)
  where
    named : (Text → Command) → Option Text → Option Command
    named command none = none
    named command (some text) = some (command text)

abbrev pub exactly : Text → Command → Text → Option Command
exactly word command text = if same text word then some command else none

abbrev pub at_name : Text → Option Text
at_name [] = none
at_name (c ∷ text) = if c == b'@' then user_name text else none

abbrev pub mentioned : Option Text → Option Command
mentioned none = none
mentioned (some name) = some (mention name)

abbrev pub or_command : Option Command → Option Command → Option Command
or_command none b = b
or_command (some a) b = some a

-- the patterns in the order in which they are tried
unfoldable pub parse_command : Text → Option Command
parse_command text = or_command (with code_name bind (after_word (units "/绑定") text)) (
    or_command (exactly (units "/解绑") unbind text) (
      or_command (exactly (units "/我的身份") whoami text) (
        or_command (exactly (units "/同意") accept text) (
          or_command (exactly (units "/拒绝") reject text) (
            or_command (exactly (units "/断开") disconnect text) (
              or_command (exactly (units "/取消请求") cancel text) (
                or_command
                  (with (λ t. user_name (without_at t)) block (after_word (units "/拉黑") text))
                  (or_command
                    (with (λ t. user_name (without_at t)) unblock (after_word (units "/取消拉黑") text))
                    (or_command (exactly (units "/黑名单") block_list text)
                      (mentioned (at_name text)))))))))))

-- `parseAtUsername`
abbrev pub parse_at_username : Text → Option Text
parse_at_username text = at_name (trim text)

-- `isP2PCommand`
unfoldable pub is_p2p_command : Text → Bool
is_p2p_command text = is_command (parse_command (trim text))
  where
    is_command : Option Command → Bool
    is_command none = false
    is_command (some command) = true
