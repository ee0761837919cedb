-- ===== src/Config/Start/Accepted.antt =====
-- A configuration that passes Validate is accepted by the constructors that initApp calls.
use server_monitor.Base.{
  ℕ, ◌≤◌, ◌<◌, ◌*◌, ◌^◌, ◌%◌, String, len, ◌≡◌, refl, Bool, true, false, none, List, [], ◌∷◌, ◌==◌,
  leb, arith, lt→ltb,
}
use server_monitor.Base.Int.{ℤ, pos, negsuc, pos_part, leb_ℤ}
use server_monitor.Base.Text.{trim_space}
use server_monitor.Errors.{ok}
use server_monitor.Auth.Token.{TokenManager, new_token_manager}
use server_monitor.Auth.Accounts.{Users, Passwords, Outcome, success, failure, ensure_initial_admin}
use server_monitor.AlertService.Consumer.{check_consumer_args}
use server_monitor.Config.Env.{times, wrap_int64}
use server_monitor.Config.Addresses.{Addresses, first_error-check_at, refuse_if-none}
use server_monitor.Config.Web
use server_monitor.Config.Web.Checked.{secret_long, hours_positive}
use server_monitor.Config.Consumer
use server_monitor.Config.Start.{
  AuthInit, service_ready, setup_failed, new_service, after_setup, after_service, init_auth_service,
}

pub times-within : (n unit : ℕ) → n * unit < 2 ^ 63 → times (pos n) unit ≡ pos (n * unit)
unfolding times wrap_int64
times-within n unit h =
    rw (modulo_small (n * unit) (omega (arith, h)), lt→ltb (n * unit) (2 ^ 63) h) refl
  where
    modulo_small : (m : ℕ) → m < 2 ^ 64 → m % 2 ^ 64 ≡ m
    modulo_small m p = omega (arith, p)

hours_within :
    (hours : ℤ)
    → leb_ℤ hours (pos 0) ≡ false
    → pos_part hours ≤ 2562047
    → (times hours 3600000000000 ≡ pos (pos_part hours * 3600000000000))
      × (leb_ℤ (pos (pos_part hours * 3600000000000)) (pos 0) ≡ false)
hours_within (pos n) h small = (times-within n 3600000000000 (omega (arith, small)), ground arith)
hours_within (negsuc n) h small = absurd (ground arith)

-- The token manager of a configuration, with a time to live of its hours.
abbrev pub tokens_of : {Float : Type 0} → Web.Config Float → TokenManager
tokens_of c = record {
  secret = trim_space c.jwt_secret;
  ttl = pos (pos_part c.jwt_expire_hours * 3600000000000);
}

tokens_made :
    {Float : Type 0} (A : Addresses) (c : Web.Config Float)
    → Web.validate A c ≡ none
    → c.auth_enabled ≡ true
    → pos_part c.jwt_expire_hours ≤ 2562047
    → new_service true c.jwt_secret (times c.jwt_expire_hours 3600000000000) ≡ ok (tokens_of c)
unfolding new_service new_token_manager
tokens_made A c h on small =
    let (exact, positive) = hours_within c.jwt_expire_hours (hours_positive A c h) small in
    rw (exact, new_token_manager, secret_long A c h on, positive) refl

module _ (U : Users) (P : Passwords) where
  -- What initAuthService makes of what EnsureInitialAdmin returns.
  abbrev pub SetUp : TokenManager → Outcome Bool → AuthInit → Type 0
  SetUp tokens (success created) init = init ≡ service_ready tokens
  SetUp tokens (failure e) init = init ≡ setup_failed e

  after_setup-SetUp :
      (tokens : TokenManager) (r : Outcome Bool × U.State)
      → SetUp tokens r.0 (after_setup tokens r).0 × ((after_setup tokens r).1 ≡ r.1)
  unfolding after_setup
  after_setup-SetUp tokens (success created, t) = (refl, refl)
  after_setup-SetUp tokens (failure e, t) = (refl, refl)

  -- A configuration of server-web with authentication on and at most 2562047 hours, which passes
  -- Validate, is one from which initAuthService makes a service, given a database: its secret is the
  -- one configured, trimmed, and its tokens live for exactly the hours configured. Only an error of
  -- EnsureInitialAdmin ends it otherwise, and the table of users is as EnsureInitialAdmin leaves it.
  pub init_auth_service-SetUp :
      {Float : Type 0} (A : Addresses) (c : Web.Config Float) (s : U.State)
      → Web.validate A c ≡ none
      → c.auth_enabled ≡ true
      → pos_part c.jwt_expire_hours ≤ 2562047
      → let init = init_auth_service U P true c s in
        let admin = ensure_initial_admin U P c.admin_password s in
        SetUp (tokens_of c) admin.0 init.0 × (init.1 ≡ admin.1)
  unfolding init_auth_service after_service
  init_auth_service-SetUp A c s h on small =
      rw (long, tokens_made A c h on small)
        (after_setup-SetUp (tokens_of c) (ensure_initial_admin U P c.admin_password s))
    where
      long : leb 32 (len (trim_space c.jwt_secret)) ≡ true
      long = ground (arith, secret_long A c h on)

accepted :
    (brokers : List String) (group_id : String)
    → Consumer.is_empty brokers ≡ false
    → (group_id == "") ≡ false
    → check_consumer_args brokers group_id true ≡ none
unfolding check_consumer_args Consumer.is_empty
accepted [] group_id h named = absurd cc
accepted (b ∷ bs) group_id h named = rw named refl

-- A configuration of alert-service that passes Validate has brokers and a group, so NewConsumer does
-- not refuse its arguments.
validate-check_consumer_args :
    {Float : Type 0} (A : Addresses) (c : Consumer.Config Float)
    → Consumer.validate A c ≡ none
    → check_consumer_args c.kafka_brokers c.kafka_group_id true ≡ none
unfolding Consumer.validate Consumer.checks
validate-check_consumer_args A c h =
    accepted c.kafka_brokers c.kafka_group_id
      (refuse_if-none _ _ (first_error-check_at 2 (Consumer.checks A c) h))
      (refuse_if-none _ _ (first_error-check_at 4 (Consumer.checks A c) h))
