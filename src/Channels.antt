-- ===== src/Channels.antt =====
-- server-web/api/handlers/channels.go: the checks of a notification channel, and the client that
-- tests one. Its host names come from a user, so that it must not call into the private network.
pub mod Public
pub mod Accepted
mod Tests
use server_monitor.Base.{
  ℕ, String, len, Bool, true, false, not, ◌&&◌, ◌||◌, Option, none, some, List, [], ◌∷◌, ◌==◌, ltb,
  leb, if◌then◌else◌,
}
use server_monitor.Base.Text.{trim_space, to_lower, has_suffix}
use server_monitor.Errors.{GoError, message, Result, ok, err}

-- What url.Parse tells: the scheme, `Host`, `Hostname()` and whether there is user info.
pub record ParsedUrl : Type 0 where
  pub scheme : String
  pub host : String
  pub hostname : String
  pub has_user : Bool

-- The packages net and net/url; `none` is an error, and for net.ParseIP a nil address.
pub record Net : Type 1 where
  pub Ip : Type 0
  pub parse_ip : String → Option Ip
  pub is_loopback : Ip → Bool
  pub is_private : Ip → Bool
  pub is_unspecified : Ip → Bool
  pub is_link_local_unicast : Ip → Bool
  pub is_link_local_multicast : Ip → Bool
  pub is_multicast : Ip → Bool
  pub parse_url : String → Option ParsedUrl
  -- net.SplitHostPort
  pub split_host_port : String → Result (String × String)
  -- the addresses that the resolver finds for a name
  pub lookup_ip_addr : String → Result (List Ip)

pub record NotificationChannel : Type 0 where
  pub name : String
  pub type_name : String
  pub url : String
  pub enabled : Bool

pub record NotificationChannelRequest : Type 0 where
  pub name : String
  pub type_name : String
  pub url : String
  pub enabled : Option Bool

pub record NotificationChannelTestResponse : Type 0 where
  pub success : Bool
  pub status_code : ℕ

-- strings.TrimSuffix of a dot
unfoldable pub trim_dot : String → String
trim_dot String.[] = String.[]
trim_dot (String.◌∷◌ c s) =
    let rest = trim_dot s in if String.◌∷◌ c s == "." then String.[] else String.◌∷◌ c rest

-- The name that validateNotificationHost looks at.
abbrev pub normalized_host : String → String
normalized_host host = trim_dot (to_lower (trim_space host))

module _ (net : Net) where
  unfoldable pub is_restricted_ip : net.Ip → Bool
  is_restricted_ip ip =
      net.is_loopback ip
      || (net.is_private ip
          || (net.is_unspecified ip
              || (net.is_link_local_unicast ip
                  || (net.is_link_local_multicast ip || net.is_multicast ip))))

  restricted_parsed : Option net.Ip → Option GoError
  unfolding is_restricted_ip
  restricted_parsed none = none
  restricted_parsed (some ip) =
      if is_restricted_ip ip then some (message "url host is restricted") else none

  unfoldable pub validate_notification_host : String → Option GoError
  unfolding restricted_parsed has_suffix
  validate_notification_host host =
      let normalized = normalized_host host in
      if normalized == ""
      then some (message "url host is required")
      else if (normalized == "localhost")
          || (has_suffix normalized ".localhost" || (normalized == "0"))
      then some (message "url host is restricted")
      else restricted_parsed (net.parse_ip normalized)

  checked_url : Option ParsedUrl → Option GoError
  unfolding validate_notification_host
  checked_url none = some (message "invalid url")
  checked_url (some parsed) =
      if not (parsed.scheme == "http") && not (parsed.scheme == "https")
      then some (message "url scheme must be http or https")
      else if (parsed.host == "") || (parsed.hostname == "")
      then some (message "url host is required")
      else if parsed.has_user
      then some (message "url user info is not allowed")
      else validate_notification_host parsed.hostname

  unfoldable pub validate_notification_channel_url : String → Option GoError
  unfolding checked_url
  validate_notification_channel_url raw = checked_url (net.parse_url (trim_space raw))

  -- The loop over the addresses of a name.
  any_restricted : List net.Ip → Bool
  unfolding is_restricted_ip
  any_restricted [] = false
  any_restricted (addr ∷ addrs) = if is_restricted_ip addr then true else any_restricted addrs

  first_of : List net.Ip → Result net.Ip
  first_of [] = err (message "url host did not resolve")
  first_of (addr ∷ addrs) = ok addr

  looked_up : Result (List net.Ip) → Result net.Ip
  unfolding any_restricted first_of
  looked_up (err e) = err e
  looked_up (ok addrs) =
      if any_restricted addrs
      then err (message "url resolves to restricted address")
      else first_of addrs

  resolved : String → Option net.Ip → Result net.Ip
  unfolding looked_up
  resolved host (some ip) = ok ip
  resolved host none = looked_up (net.lookup_ip_addr host)

  validated : String → Option GoError → Result net.Ip
  unfolding resolved
  validated host (some e) = err e
  validated host none = resolved host (net.parse_ip host)

  unfoldable pub resolve_public_ip : String → Result net.Ip
  unfolding validated validate_notification_host
  resolve_public_ip host =
      validated (trim_space host) (validate_notification_host (trim_space host))

  with_port : String → Result net.Ip → Result (net.Ip × String)
  with_port port (err e) = err e
  with_port port (ok ip) = ok (ip, port)

  split_address : Result (String × String) → Result (net.Ip × String)
  unfolding resolve_public_ip with_port
  split_address (err e) = err e
  split_address (ok (host, port)) = with_port port (resolve_public_ip host)

  -- DialContext of newSafeNotificationHTTPClient: the address and port that are dialled
  unfoldable pub dial_target : String → Result (net.Ip × String)
  unfolding split_address
  dial_target address = split_address (net.split_host_port address)

  channel_of : NotificationChannelRequest → NotificationChannel
  channel_of req =
      let channel_type = trim_space req.type_name in
      record {
        name = trim_space req.name;
        type_name = if channel_type == "" then "webhook" else channel_type;
        url = trim_space req.url;
        enabled = elim req.enabled [ none ↦ true | some b ↦ b ];
      }

  checked_channel : NotificationChannel → Result NotificationChannel
  unfolding validate_notification_channel_url
  checked_channel channel =
      if (channel.name == "") || ltb 128 (len channel.name)
      then err (message "name must be 1-128 characters")
      else if not (channel.type_name == "webhook")
      then err (message "unsupported notification channel type")
      else if (channel.url == "") || ltb 512 (len channel.url)
      then err (message "url must be 1-512 characters")
      else elim (validate_notification_channel_url channel.url) [
        | some e ↦ err e
        | none ↦ ok channel
      ]

  -- An error is answered with status 400.
  unfoldable pub normalize_notification_channel_request :
      NotificationChannelRequest → Result NotificationChannel
  unfolding channel_of checked_channel
  normalize_notification_channel_request req = checked_channel (channel_of req)

  -- What testNotificationChannel answers but for the latency, and its error. The client has the
  -- status of the reply.
  unfoldable pub test_answered : Result ℕ → NotificationChannelTestResponse × Option GoError
  test_answered (err e) = (record { success = false; status_code = 0 }, some e)
  test_answered (ok status) =
      if leb 200 status && ltb status 300
      then (record { success = true; status_code = status }, none)
      else (record { success = false; status_code = status }, some (message "unexpected status"))

  test_validated :
      (String → Result ℕ)
      → String
      → Option GoError
      → NotificationChannelTestResponse × Option GoError
  unfolding test_answered
  test_validated post url (some e) = (record { success = false; status_code = 0 }, some e)
  test_validated post url none = test_answered (post url)

  unfoldable pub test_notification_channel :
      (String → Result ℕ) → NotificationChannel → NotificationChannelTestResponse × Option GoError
  unfolding test_validated validate_notification_channel_url
  test_notification_channel post channel =
      test_validated post channel.url (validate_notification_channel_url channel.url)
