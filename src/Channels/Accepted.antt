-- ===== src/Channels/Accepted.antt =====
-- What is known of a channel that the API accepted.
use server_monitor.Base.{
  ℕ, String, len, ◌≡◌, refl, sym, ◌∙◌, subst, true, false, not, ◌&&◌, ◌||◌, Option, none, some,
  ◌==◌, ltb, Bool-cases, Option-cases, inl, inr, arith,
}
use server_monitor.Base.Text.{trim_space}
use server_monitor.Errors.{Result, ok, err}
use server_monitor.Channels.{
  Net, ParsedUrl, NotificationChannel, NotificationChannelRequest, is_restricted_ip,
  validate_notification_host, checked_url, validate_notification_channel_url, checked_channel,
  channel_of, normalize_notification_channel_request, test_answered, test_validated,
  test_notification_channel,
}
use server_monitor.Channels.Public.{HostLaws, validate_notification_host-public}

module _ (net : Net) where
  checked_channel-inv :
      (made channel : NotificationChannel)
      → checked_channel net made ≡ ok channel
      → (made ≡ channel) × (validate_notification_channel_url net made.url ≡ none)
  unfolding checked_channel
  checked_channel-inv made channel h =
      elim (Bool-cases ((made.name == "") || ltb 128 (len made.name))) [
        | inl bad ↦ absurd (ground arith)
        | inr p ↦ elim (Bool-cases (not (made.type_name == "webhook"))) [
          | inl bad ↦ absurd (ground arith)
          | inr q ↦ elim (Bool-cases ((made.url == "") || ltb 512 (len made.url))) [
            | inl bad ↦ absurd (ground arith)
            | inr r ↦ elim (Option-cases (validate_notification_channel_url net made.url)) [
              | inr (e, bad) ↦
                  let refused : checked_channel net made ≡ err e =
                    simp (checked_channel, p, q, r, bad) in
                  cc
              | inl v ↦
                  let same : checked_channel net made ≡ ok made =
                    simp (checked_channel, p, q, r, v) in
                  (cc, v)
            ]
          ]
        ]
      ]

  checked_url-inv :
      (parsed : Option ParsedUrl)
      → checked_url net parsed ≡ none
      → (u : ParsedUrl) × (parsed ≡ some u)
        × (((u.scheme == "http") || (u.scheme == "https")) ≡ true)
        × (u.has_user ≡ false)
        × (validate_notification_host net u.hostname ≡ none)
  unfolding checked_url
  checked_url-inv none h = cc
  checked_url-inv (some u) h =
      elim (Bool-cases (not (u.scheme == "http") && not (u.scheme == "https"))) [
        | inl bad ↦ absurd (ground arith)
        | inr p ↦ elim (Bool-cases ((u.host == "") || (u.hostname == ""))) [
          | inl bad ↦ absurd (ground arith)
          | inr q ↦ elim (Bool-cases u.has_user) [
            | inl bad ↦ absurd (ground arith)
            | inr r ↦ (u, refl, ground arith, r, sym (simp (checked_url, p, q, r)) ∙ h)
          ]
        ]
      ]

  -- The tests call the URL of the channel, which is one of http or https without user info and,
  -- where its host is an address, of one that is not restricted.
  abbrev pub IsCallable : NotificationChannel → Type 0
  IsCallable channel =
      ((post : String → Result ℕ)
        → test_notification_channel net post channel ≡ test_answered net (post channel.url))
      × ((u : ParsedUrl) × (net.parse_url (trim_space channel.url) ≡ some u)
          × (((u.scheme == "http") || (u.scheme == "https")) ≡ true)
          × (u.has_user ≡ false)
          × ((ip : net.Ip) → net.parse_ip u.hostname ≡ some ip → is_restricted_ip net ip ≡ false))

  url-IsCallable :
      (channel : NotificationChannel)
      → HostLaws net
      → validate_notification_channel_url net channel.url ≡ none
      → IsCallable channel
  unfolding validate_notification_channel_url test_notification_channel test_validated
  url-IsCallable channel laws valid =
      let (u, found, scheme, user, host) =
        checked_url-inv (net.parse_url (trim_space channel.url)) valid in
      (
        λ post. simp (test_notification_channel, test_validated, valid),
        (
          u,
          found,
          scheme,
          user,
          λ ip h.
              validate_notification_host-public net u.hostname ip host
                (laws.parse_ip-normalized u.hostname ip h),
        ),
      )

  -- A channel that the API accepts can be tested: the test calls its URL, whatever the answer. The
  -- URL has the scheme http or https and no user info, and if its host is an address, the address
  -- is not restricted. This needs that an address is read the same with its letters lowered, and
  -- not at all with spaces around it or a dot at its end.
  pub accepted-IsCallable :
      (req : NotificationChannelRequest) (channel : NotificationChannel)
      → HostLaws net
      → normalize_notification_channel_request net req ≡ ok channel
      → IsCallable channel
  unfolding normalize_notification_channel_request
  accepted-IsCallable req channel laws h =
      let (same, valid) = checked_channel-inv (channel_of net req) channel h in
      url-IsCallable channel laws
        (subst (λ c. validate_notification_channel_url net c.url ≡ none) same valid)
