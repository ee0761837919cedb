-- ===== src/Channels/Public.antt =====
-- What the client of the tests dials, and what it is given.
use server_monitor.Base.{
  String, ◌≡◌, refl, sym, ◌∙◌, ap, subst, Bool, true, false, Option, none, some, List, [], ◌∷◌,
  ◌==◌, if◌then◌else◌, Bool-cases, Option-cases, inl, inr, arith,
}
use server_monitor.Base.Text.{trim_space}
use server_monitor.Errors.{GoError, Result, ok, err}
use server_monitor.Channels.{
  Net, normalized_host, is_restricted_ip, restricted_parsed, validate_notification_host,
  any_restricted, first_of, looked_up, resolved, validated, resolve_public_ip, with_port,
  split_address, dial_target,
}

-- net.ParseIP reads an address with letters of either case, and none with spaces around it or a dot
-- at its end.
pub record HostLaws (net : Net) : Type 0 where
  pub parse_ip-normalized :
      (host : String) (ip : net.Ip)
      → net.parse_ip host ≡ some ip
      → net.parse_ip (normalized_host host) ≡ some ip

both_passed :
    (e f : GoError) (b c : Bool) (o : Option GoError)
    → (if b then some e else if c then some f else o) ≡ none
    → o ≡ none
both_passed e f true c o h = cc
both_passed e f false true o h = cc
both_passed e f false false o h = h

module _ (net : Net) where
  restricted_parsed-public :
      (ip : net.Ip) → restricted_parsed net (some ip) ≡ none → is_restricted_ip net ip ≡ false
  unfolding restricted_parsed
  restricted_parsed-public ip h = elim (Bool-cases (is_restricted_ip net ip)) [
    | inl bad ↦ absurd (ground arith)
    | inr good ↦ good
  ]

  pub validate_notification_host-public :
      (host : String) (ip : net.Ip)
      → validate_notification_host net host ≡ none
      → net.parse_ip (normalized_host host) ≡ some ip
      → is_restricted_ip net ip ≡ false
  unfolding validate_notification_host
  validate_notification_host-public host ip h p = restricted_parsed-public ip (
      ap (restricted_parsed net) (sym p)
      ∙ both_passed _ _ (normalized_host host == "") _
          (restricted_parsed net (net.parse_ip (normalized_host host))) h)

  looked_up-public :
      (found : Result (List net.Ip)) (ip : net.Ip)
      → looked_up net found ≡ ok ip
      → is_restricted_ip net ip ≡ false
  unfolding looked_up any_restricted first_of
  looked_up-public (err e) ip h = cc
  looked_up-public (ok []) ip h = cc
  looked_up-public (ok (addr ∷ addrs)) ip h = elim (Bool-cases (is_restricted_ip net addr)) [
    | inl bad ↦ absurd (ground arith)
    | inr good ↦ elim (Bool-cases (any_restricted net addrs)) [
      | inl bad ↦ absurd (ground arith)
      | inr rest ↦
          let same : looked_up net (ok (addr ∷ addrs)) ≡ ok addr =
            simp (looked_up, any_restricted, first_of, good, rest) in
          let e : addr ≡ ip = cc in subst (λ i. is_restricted_ip net i ≡ false) e good
    ]
  ]

  module _ (laws : HostLaws net) where
    validated-public :
        (host : String) (answer : Option GoError) (ip : net.Ip)
        → validate_notification_host net host ≡ answer
        → validated net host answer ≡ ok ip
        → is_restricted_ip net ip ≡ false
    unfolding validated resolved
    validated-public host (some e) ip v h = cc
    validated-public host none ip v h = elim (Option-cases (net.parse_ip host)) [
      | inl p ↦ looked_up-public (net.lookup_ip_addr host) ip (rw p at h)
      | inr (found, p) ↦
          let same : validated net host none ≡ ok found = simp (validated, resolved, p) in
          let e : found ≡ ip = cc in
          validate_notification_host-public host ip v
            (laws.parse_ip-normalized host ip (p ∙ ap some e))
    ]

    resolve_public_ip-public :
        (host : String) (ip : net.Ip)
        → resolve_public_ip net host ≡ ok ip
        → is_restricted_ip net ip ≡ false
    unfolding resolve_public_ip
    resolve_public_ip-public host ip h =
        validated-public (trim_space host) (validate_notification_host net (trim_space host)) ip
          refl h

    with_port-inv :
        (found : Result net.Ip) (port q : String) (ip : net.Ip)
        → with_port net port found ≡ ok (ip, q)
        → found ≡ ok ip
    unfolding with_port
    with_port-inv (err e) port q ip h = cc
    with_port-inv (ok found) port q ip h = cc

    split_address-public :
        (answer : Result (String × String)) (ip : net.Ip) (port : String)
        → split_address net answer ≡ ok (ip, port)
        → is_restricted_ip net ip ≡ false
    unfolding split_address
    split_address-public (err e) ip port h = cc
    split_address-public (ok (host, p)) ip port h =
        resolve_public_ip-public host ip (with_port-inv (resolve_public_ip net host) p port ip h)

    -- The client of the tests dials no restricted address: no loopback, private, unspecified,
    -- link-local or multicast address, whatever the resolver answers and whether the host is a
    -- name or an address. This needs that an address is read the same with its letters lowered,
    -- and not at all with spaces around it or a dot at its end.
    pub dial_target-public :
        (address : String) (ip : net.Ip) (port : String)
        → dial_target net address ≡ ok (ip, port)
        → is_restricted_ip net ip ≡ false
    unfolding dial_target
    dial_target-public address ip port h =
        split_address-public (net.split_host_port address) ip port h
