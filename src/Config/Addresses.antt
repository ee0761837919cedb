-- ===== src/Config/Addresses.antt =====
-- The checks of addresses that the config packages share: validateHostPort, validatePort and
-- validateHTTPURL of server-web/config/config.go. A message leaves the value out.
use server_monitor.Base.{
  ℕ, String, Bool, true, false, not, ◌&&◌, ◌||◌, Option, none, some, List, [], ◌∷◌, ◌==◌,
  if◌then◌else◌, ◌≡◌, refl, zero, suc,
}
use server_monitor.Base.Int.{ℤ, pos, ltb_ℤ}
use server_monitor.Base.Text.{trim_space, append}
use server_monitor.Base.Numbers.{parse_int}
use server_monitor.Errors.{GoError, message, wrapped, Result, ok, err}

-- net.SplitHostPort, and what url.Parse tells: the scheme, the host and the port. `none` is an
-- error.
pub record Addresses : Type 0 where
  pub split_host_port : String → Result (String × String)
  pub parse_url : String → Option (String × String × String)

-- The first of the checks that fails.
unfoldable pub first_error : List (Option GoError) → Option GoError
first_error [] = none
first_error (check ∷ checks) =
    let rest = first_error checks in elim check [ some e ↦ some e | none ↦ rest ]

unfoldable pub refuse_if : Bool → String → Option GoError
refuse_if bad text = if bad then some (message text) else none

-- A check that is made under a condition.
unfoldable pub when : Bool → Option GoError → Option GoError
when needed check = if needed then check else none

-- The check at a place, or one that passes if there is none.
abbrev pub check_at : ℕ → List (Option GoError) → Option GoError
check_at i [] = none
check_at zero (check ∷ checks) = check
check_at (suc i) (check ∷ checks) = check_at i checks

-- Where no check fails, each of them passes.
pub first_error-check_at :
    (i : ℕ) (checks : List (Option GoError)) → first_error checks ≡ none → check_at i checks ≡ none
unfolding first_error
first_error-check_at i [] h = refl
first_error-check_at zero (none ∷ checks) h = refl
first_error-check_at (suc i) (none ∷ checks) h = first_error-check_at i checks h
first_error-check_at i (some e ∷ checks) h = absurd cc

pub refuse_if-none : (bad : Bool) (text : String) → refuse_if bad text ≡ none → bad ≡ false
unfolding refuse_if
refuse_if-none true text h = absurd cc
refuse_if-none false text h = refl

pub when-none :
    (needed : Bool) (check : Option GoError)
    → when needed check ≡ none
    → needed ≡ true
    → check ≡ none
unfolding when
when-none true check h e = h
when-none false check h e = absurd cc

unfoldable pub port_in_range : Option ℤ → Bool
port_in_range none = false
port_in_range (some port) = not (ltb_ℤ port (pos 1) || ltb_ℤ (pos 65535) port)

unfoldable pub validate_port : String → String → Option GoError
unfolding port_in_range
validate_port name raw =
    if port_in_range (parse_int raw)
    then none
    else some (message (append name " port must be in range 1-65535"))

module _ (A : Addresses) where
  checked_host_port : String → Result (String × String) → Option GoError
  unfolding validate_port
  checked_host_port name (err e) = some (wrapped (append name " must use host:port format") e)
  checked_host_port name (ok (host, port)) =
      if not (trim_space host == host) || not (trim_space port == port)
      then some (message (append name " must not contain surrounding spaces"))
      else validate_port name port

  unfoldable pub validate_host_port : String → String → Option GoError
  unfolding checked_host_port
  validate_host_port name raw = checked_host_port name (A.split_host_port raw)

  checked_url : String → Option (String × String × String) → Option GoError
  unfolding validate_port
  checked_url name none = some (message (append name " must be a valid http or https URL"))
  checked_url name (some (scheme, host, port)) =
      if (scheme == "") || (host == "")
      then some (message (append name " must be a valid http or https URL"))
      else if not (scheme == "http") && not (scheme == "https")
      then some (message (append name " must use http or https scheme"))
      else if not (port == "")
      then validate_port name port
      else none

  unfoldable pub validate_http_url : String → String → Option GoError
  unfolding checked_url
  validate_http_url name raw = checked_url name (A.parse_url raw)

  -- The loop over the brokers.
  unfoldable pub validate_brokers : List String → Option GoError
  unfolding validate_host_port
  validate_brokers [] = none
  validate_brokers (broker ∷ brokers) =
      let rest = validate_brokers brokers in
      elim (validate_host_port "KAFKA_BROKERS" broker) [ some e ↦ some e | none ↦ rest ]
