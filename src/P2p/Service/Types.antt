-- ===== src/P2p/Service/Types.antt =====
-- p2p-service.ts: what the service is given and what it answers. The texts of its replies are constructors
-- with what they name; the users and the tokens of repos.ts are a directory, and a new id and the key of the
-- day are read from the environment.
use we_chat_ai.Base.{
  false, not, ◌&&◌, ℕ, ◌+◌, ◌/◌, max, Bool, true, Option, none, some, List, [], ◌∷◌, Text,
  if◌then◌else◌,
}
use we_chat_ai.P2p.Store.{Endpoint, PeerIdentity, Store}
use we_chat_ai.P2p.Repos.{is_empty_text}

pub record User : Type 0 where
  pub id : Text
  pub username : Text

-- what the service asks of repos.ts, `getUser`, `getUserByUsername`, `getContextToken` and the token of
-- `getBotCredentials`, and of Redis: the members of a set in an order of its own
pub record Directory : Type 0 where
  pub get_user : Text → Option User
  pub get_user_by_username : Text → Option User
  pub get_context_token : Endpoint → Option Text
  pub get_bot_token : Text → Option Text
  pub smembers : (Text → Bool) → List Text

abbrev pub is_filled : Option Text → Bool
is_filled none = false
is_filled (some text) = not (is_empty_text text)

unfoldable pub is_peer_reachable : Directory → Endpoint → Bool
is_peer_reachable d k = is_filled (d.get_context_token k) && is_filled (d.get_bot_token k.bot_id)

pub record P2pServiceOptions : Type 0 where
  pub request_ttl_sec : ℕ
  pub session_idle_sec : ℕ
  pub relay_max_chars : ℕ
  pub max_requests_per_day : ℕ

-- what an inbound message meets: the time, the day, and the id that is made next
pub record Moment : Type 0 where
  pub now : ℕ
  pub day : Text
  pub new_id : Text

pub record Inbound : Type 0 where
  pub at : Endpoint
  pub text : Text
  pub media_only : Bool

pub data State : Type 0 where
  idle : State
  talking : Option Text → State
  waiting : Text → State
  asked : Text → State

pub data Reply : Type 0 where
  bad_code : Reply
  no_account : Reply
  bound : Text → Reply
  not_bound : Reply
  unbound : Text → Reply
  who : Text → State → Reply
  no_such_user : Text → Reply
  is_self : Reply
  already_blocked : Text → Reply
  has_blocked : Text → Reply
  not_blocked : Text → Reply
  has_unblocked : Text → Reply
  no_blocks : Reply
  blocks : List (Text × Option Text) → Reply
  busy_talking : Option Text → Reply
  busy_waiting : Text → Reply
  busy_asked : Text → Reply
  blocked_by_list : Text → Reply
  target_unbound : Text → Reply
  unreachable : Text → Reply
  day_limit : ℕ → Reply
  target_busy : Text → Reply
  self_busy : Reply
  not_created : Reply
  request_sent : Text → ℕ → Reply
  closed_by_list : Text → Reply
  nothing_asked : Reply
  talk_begins : Text → ℕ → Reply
  rejected : Text → Reply
  nothing_to_cancel : Reply
  cancelled : Text → Reply
  not_talking : Reply
  talk_ended : Reply
  session_broken : Reply
  empty_message : Reply
  no_media : Reply

pub data Remote : Type 0 where
  asks_you : Text → ℕ → Remote
  has_accepted : Text → Remote
  has_rejected : Text → Remote
  has_cancelled : Text → Remote
  has_left : Text → Remote
  -- the name of the sender and what it says
  relayed : Text → Text → Remote

pub record RemoteSend : Type 0 where
  pub to : Endpoint
  pub message : Remote

pub record HandleResult : Type 0 where
  pub handled : Bool
  pub local_replies : List Reply
  pub remote_sends : List RemoteSend

abbrev pub local_only : Reply → HandleResult
local_only reply = record { handled = true; local_replies = reply ∷ []; remote_sends = [] }

abbrev pub fall_through : HandleResult
fall_through = record { handled = false; local_replies = []; remote_sends = [] }

abbrev pub replying : Reply → Endpoint → Remote → HandleResult
replying reply to message = record {
  handled = true;
  local_replies = reply ∷ [];
  remote_sends = record { to = to; message = message } ∷ [];
}

-- `Math.max(1, Math.round(sec / 60))`
abbrev pub fmt_min : ℕ → ℕ
fmt_min sec = max 1 ((sec + 30) / 60)

abbrev pub username_of : Option PeerIdentity → Option Text
username_of none = none
username_of (some other) = some other.username

-- `liveSelf?.username` where it is there and not empty
abbrev pub or_username : Text → Option User → Text
or_username username none = username
or_username username (some user) = if is_empty_text user.username then username else user.username

abbrev pub Handled : Type 0
Handled = Store × HandleResult
