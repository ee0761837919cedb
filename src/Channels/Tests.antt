-- ===== src/Channels/Tests.antt =====
-- One public address, one of the loopback, and a name that has the public one.
use server_monitor.Base.{
  String, ◌≡◌, refl, sym, true, false, Bool, none, some, [], ◌∷◌, ◌==◌, eq_iff, Bool-cases, inl,
  inr, if◌then◌else◌, subst, arith,
}
use server_monitor.Base.Text.{trim_space, to_lower}
use server_monitor.Errors.{ok}
use server_monitor.Channels.{
  Net, NotificationChannel, NotificationChannelRequest, trim_dot, normalized_host, is_restricted_ip,
  dial_target, normalize_notification_channel_request,
}
use server_monitor.Channels.Public.{HostLaws, dial_target-public}
use server_monitor.Channels.Accepted.{IsCallable, accepted-IsCallable}

abbrev pub network : Net
network = record {
  Ip = Bool;
  parse_ip =
      λ h. if h == "203.0.113.7" then some true else if h == "127.0.0.1" then some false else none;
  is_loopback = λ ip. if ip then false else true;
  is_private = λ ip. false;
  is_unspecified = λ ip. false;
  is_link_local_unicast = λ ip. false;
  is_link_local_multicast = λ ip. false;
  is_multicast = λ ip. false;
  parse_url = λ s. some (record {
    scheme = "https";
    host = "hooks.test:443";
    hostname = "hooks.test";
    has_user = false;
  });
  split_host_port = λ s. ok ("hooks.test", "443");
  lookup_ip_addr = λ s. ok (true ∷ []);
}

abbrev ReadsWell : String → Type 0
ReadsWell host =
    (ip : Bool)
    → network.parse_ip host ≡ some ip
    → network.parse_ip (normalized_host host) ≡ some ip

public_well : ReadsWell "203.0.113.7"
unfolding trim_dot trim_space to_lower
public_well ip h = h

loopback_well : ReadsWell "127.0.0.1"
unfolding trim_dot trim_space to_lower
loopback_well ip h = h

network-HostLaws : HostLaws network
network-HostLaws = record {
  parse_ip-normalized = λ host. elim (Bool-cases (host == "203.0.113.7")) [
    | inl y ↦ subst ReadsWell (sym ((eq_iff host "203.0.113.7").0 y)) public_well
    | inr n ↦ elim (Bool-cases (host == "127.0.0.1")) [
      | inl y ↦ subst ReadsWell (sym ((eq_iff host "127.0.0.1").0 y)) loopback_well
      | inr m ↦ λ ip h. absurd (ground (arith))
    ]
  ];
}

-- The name is resolved, and the address found is dialled.
dialled : dial_target network "hooks.test:443" ≡ ok (true, "443")
unfolding dial_target trim_dot to_lower trim_space
dialled = refl

dial_target-public_example : is_restricted_ip network true ≡ false
dial_target-public_example =
    dial_target-public network network-HostLaws "hooks.test:443" true "443" dialled

abbrev hook : NotificationChannel
hook = record {
  name = "ops";
  type_name = "webhook";
  url = "https://hooks.test:443";
  enabled = true;
}

abbrev hook_request : NotificationChannelRequest
hook_request = record {
  name = "ops ";
  type_name = "";
  url = " https://hooks.test:443";
  enabled = none;
}

hook_accepted : normalize_notification_channel_request network hook_request ≡ ok hook
unfolding normalize_notification_channel_request trim_space trim_dot to_lower
hook_accepted = refl

accepted-IsCallable_example : IsCallable network hook
accepted-IsCallable_example =
    accepted-IsCallable network hook_request hook network-HostLaws hook_accepted
