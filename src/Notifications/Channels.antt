-- ===== src/Notifications/Channels.antt =====
-- app/src/apps/notifications/channels.py. The environment, the webhook table and the HTTP client are
-- the fields of `World`; what was posted so far is the `Outbox`, the newest request first.
use Prim.Native.Char.{code}
use Prim.Native.String.{String}
use text.Mathlib.Text.{◌==◌ as str_eq}
use sentinel_tower.Prelude.{
  ℕ, Bool, true, false, not, ◌&&◌, ◌||◌, Option, none, some, List, [], ◌∷◌, map, length, filter,
  leb, ◌==◌, if◌then◌else◌,
}
use sentinel_tower.Json.{Json, Result, ok, raised}

pub record Webhook : Type 0 where
  pub netuid : ℕ
  pub url : String
  pub enabled : Bool

-- `deliver n url` tells whether the n-th request, to that URL, gets a reply that is no error; any
-- exception of the client counts as an error.
pub record World : Type 0 where
  pub environ : String → String
  pub webhooks : List Webhook
  pub deliver : ℕ → String → Bool
  -- Django's conversion of a value for the netuid column
  pub to_column : Json → Option ℕ

abbrev pub Outbox : Type 0
Outbox = List (String × Json)

-- The characters that `str.strip` takes off.
is_space : ℕ → Bool
is_space c =
    (leb 9 c && leb c 13)
    || (leb 28 c && leb c 32)
    || (c == 133)
    || (c == 160)
    || (c == 5760)
    || (leb 8192 c && leb c 8202)
    || (c == 8232)
    || (c == 8233)
    || (c == 8239)
    || (c == 8287)
    || (c == 12288)

unfoldable pub strip_left : String → String
unfolding is_space
strip_left String.[] = String.[]
strip_left (String.◌∷◌ c s) = if is_space (code c) then strip_left s else String.◌∷◌ c s

-- Takes the space off the end: a suffix is dropped if nothing else stands in it.
unfoldable pub strip_right : String → String
unfolding is_space
strip_right String.[] = String.[]
strip_right (String.◌∷◌ c s) =
    let rest = strip_right s in
    if is_space (code c) && str_eq rest "" then String.[] else String.◌∷◌ c rest

unfoldable pub strip : String → String
unfolding strip_left strip_right
strip s = strip_right (strip_left s)

-- Puts a character on the first part.
abbrev push : List String → (String → String) → List String
push [] f = f String.[] ∷ []
push (part ∷ parts) f = f part ∷ parts

-- `raw.split(",")`: one part more than there are commas.
unfoldable pub split_commas : String → List String
split_commas String.[] = String.[] ∷ []
split_commas (String.◌∷◌ c s) =
    let parts = split_commas s in
    if code c == b',' then String.[] ∷ parts else push parts (λ part. String.◌∷◌ c part)

unfoldable pub is_prefix : String → String → Bool
is_prefix String.[] s = true
is_prefix (String.◌∷◌ c p) String.[] = false
is_prefix (String.◌∷◌ c p) (String.◌∷◌ d s) = (code c == code d) && is_prefix p s

-- `p in s`
unfoldable pub contains : String → String → Bool
unfolding is_prefix
contains p String.[] = is_prefix p String.[]
contains p (String.◌∷◌ c s) = is_prefix p (String.◌∷◌ c s) || contains p s

-- The second pattern contains the first, as the source has it.
unfoldable pub is_disabled : String → Bool
unfolding contains
is_disabled url =
    contains "disabled" url || contains "https://discord.com/api/webhooks/0/disabled" url

unfoldable pub environment_urls : String → List String
unfolding strip split_commas is_disabled
environment_urls raw =
    if str_eq raw ""
    then []
    else filter (λ u. not (str_eq u "") && not (is_disabled u)) (map strip (split_commas raw))

unfoldable pub enabled_urls : ℕ → List Webhook → List String
enabled_urls n [] = []
enabled_urls n (w ∷ ws) =
    if (w.netuid == n) && w.enabled then w.url ∷ enabled_urls n ws else enabled_urls n ws

pub data Channel : Type 0 where
  -- `DiscordWebhookChannel(env_var)`
  discord : String → Channel
  -- `DatabaseWebhookChannel(netuid)`
  database : Json → Channel

unfoldable pub get_webhook_urls : World → Channel → Result (List String)
unfolding environment_urls enabled_urls
get_webhook_urls w (discord env_var) = ok (environment_urls (w.environ env_var))
get_webhook_urls w (database netuid) = elim (w.to_column netuid) [
  | none ↦ raised
  | some n ↦ ok (enabled_urls n w.webhooks)
]

-- Every URL is tried; true if at least one request succeeds.
unfoldable pub send_to_urls : World → List String → Json → Outbox → Bool × Outbox
send_to_urls w [] payload box = (false, box)
send_to_urls w (url ∷ urls) payload box =
    let sent = w.deliver (length box) url in
    let (others, box') = send_to_urls w urls payload ((url, payload) ∷ box) in
    (sent || others, box')

-- `if not urls: return False` is the first clause of `send_to_urls`.
unfoldable pub send : World → Channel → Json → Outbox → Result Bool × Outbox
unfolding get_webhook_urls send_to_urls
send w channel payload box = elim (get_webhook_urls w channel) [
  | raised ↦ (raised, box)
  | ok urls ↦ let (sent, box') = send_to_urls w urls payload box in (ok sent, box')
]
