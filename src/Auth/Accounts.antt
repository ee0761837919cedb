-- ===== src/Auth/Accounts.antt =====
-- server-web/auth/service.go and server-web/auth/password.go, over the table of users.
pub mod Laws
use Prim.Native.Char.{code}
use server_monitor.Base.{
  ℕ, String, len, Bool, true, false, not, ◌&&◌, ◌||◌, Option, none, some, List, [], ◌∷◌, map, ◌==◌,
  eqb, ltb, leb, if◌then◌else◌,
}
use server_monitor.Base.Text.{trim_space, to_lower, has_prefix, trim_prefix, contains}
use server_monitor.Base.Int.{ℤ, pos, pos_part, neg_part}
use server_monitor.Errors.{GoError, message, Result, ok, err, error_text}
use server_monitor.Times.{Time}
use server_monitor.Auth.Token.{
  Identity, TokenCodec, TokenManager, Parsed, parsed, invalid_token, expired_token, generate, parse,
}

pub record User : Type 0 where
  pub id : ℕ
  pub username : String
  pub password : String
  pub role : String
  pub token_version : ℤ

-- The errors that the package names, and those that it passes on.
pub data AuthError : Type 0 where
  invalid_credentials bearer_token_missing username_invalid password_too_short : AuthError
  role_invalid user_exists token_revoked token_invalid token_expired : AuthError
  failed : GoError → AuthError

pub data Outcome {ℓ} (A : Type ℓ) : Type ℓ where
  success : A → Outcome A
  failure : AuthError → Outcome A

-- The table of users as the database library gives it: `ok none` is ErrRecordNotFound.
pub record Users : Type 1 where
  pub State : Type 0
  pub count : State → Result ℕ
  pub find_by_username : String → State → Result (Option User)
  pub find_by_id : ℕ → State → Result (Option User)
  -- username, password and role; the table adds the id and a token version of 0
  pub create : String → String → String → State → Result User × State
  pub find_all : State → Result (List User)
  pub delete : ℕ → State → Option GoError × State

-- bcrypt
pub record Passwords : Type 0 where
  pub hash_password : String → Result String
  pub verify_password : String → String → Bool

abbrev pub identity_of : User → Identity
identity_of user = record {
  id = user.id;
  username = user.username;
  role = user.role;
  token_version = user.token_version;
}

is_username_char : ℕ → Bool
is_username_char c =
    (leb b'a' c && leb c b'z')
    || (leb b'A' c && leb c b'Z')
    || (leb b'0' c && leb c b'9')
    || eqb c b'_'

all_username_chars : String → Bool
unfolding is_username_char
all_username_chars String.[] = true
all_username_chars (String.◌∷◌ c s) =
    let rest = all_username_chars s in if not (is_username_char (code c)) then false else rest

unfoldable pub is_valid_username : String → Bool
unfolding all_username_chars
is_valid_username username =
    if ltb (len username) 3 || ltb 64 (len username) then false else all_username_chars username

-- The error that Register makes of an error of Create.
create_error : GoError → AuthError
unfolding contains error_text
create_error e =
    if contains (error_text e) "Duplicate"
      || contains (error_text e) "duplicate"
      || contains (error_text e) "1062"
    then user_exists
    else failed e

unfoldable pub from_parsed : Parsed → Outcome Identity
from_parsed (parsed identity) = success identity
from_parsed invalid_token = failure token_invalid
from_parsed expired_token = failure token_expired

module _ (U : Users) (P : Passwords) where
  open U use {State}

  create_admin : Result String → State → Outcome Bool × State
  create_admin (err e) s = (failure (failed e), s)
  create_admin (ok hashed) s =
      let (created, t) = U.create "admin" hashed "admin" s in
      elim created [ ok user ↦ (success true, t) | err e ↦ (failure (failed e), t) ]

  ensure_counted : Result ℕ → String → State → Outcome Bool × State
  unfolding create_admin
  ensure_counted (err e) admin_password s = (failure (failed e), s)
  ensure_counted (ok count) admin_password s =
      if ltb 0 count || (trim_space admin_password == "")
      then (success false, s)
      else create_admin (P.hash_password admin_password) s

  unfoldable pub ensure_initial_admin : String → State → Outcome Bool × State
  unfolding ensure_counted
  ensure_initial_admin admin_password s = ensure_counted (U.count s) admin_password s

  register_created : Result User × State → Outcome Identity × State
  unfolding create_error
  register_created (ok user, t) = (success (identity_of user), t)
  register_created (err e, t) = (failure (create_error e), t)

  register_hashed : String → String → Result String → State → Outcome Identity × State
  unfolding register_created
  register_hashed username role (err e) s = (failure (failed e), s)
  register_hashed username role (ok hashed) s = register_created (U.create username hashed role s)

  unfoldable pub register : String → String → String → State → Outcome Identity × State
  unfolding register_hashed is_valid_username
  register username password role s =
      let name = trim_space username in
      let wanted = trim_space (to_lower role) in
      if not (is_valid_username name)
      then (failure username_invalid, s)
      else if ltb (len password) 8
      then (failure password_too_short, s)
      else if not (wanted == "admin") && not (wanted == "viewer")
      then (failure role_invalid, s)
      else register_hashed name wanted (P.hash_password password) s

  listed : Result (List User) → Outcome (List Identity)
  listed (err e) = failure (failed e)
  listed (ok users) = success (map identity_of users)

  unfoldable pub list_users : State → Outcome (List Identity)
  unfolding listed
  list_users s = listed (U.find_all s)

  unfoldable pub delete_user : ℕ → State → Option GoError × State
  delete_user id s = U.delete id s

  version_checked : Identity → Result (Option User) → Option AuthError
  version_checked identity (err e) = some (failed e)
  version_checked identity (ok none) = some token_revoked
  version_checked identity (ok (some user)) =
      if eqb (pos_part user.token_version) (pos_part identity.token_version)
        && eqb (neg_part user.token_version) (neg_part identity.token_version)
      then none
      else some token_revoked

  -- `none` is a nil error
  unfoldable pub verify_token_version : Identity → State → Option AuthError
  unfolding version_checked
  verify_token_version identity s = version_checked identity (U.find_by_id identity.id s)

  module _ (codec : TokenCodec) (tokens : TokenManager) where
    login_generated : User → Result (String × Time) → Outcome (String × (Time × Identity))
    login_generated user (err e) = failure (failed e)
    login_generated user (ok (token, expires_at)) = success (token, (expires_at, identity_of user))

    login_found : Time → String → Result (Option User) → Outcome (String × (Time × Identity))
    unfolding login_generated
    login_found now password (err e) = failure (failed e)
    login_found now password (ok none) = failure invalid_credentials
    login_found now password (ok (some user)) =
        if not (P.verify_password user.password password)
        then failure invalid_credentials
        else login_generated user (generate codec tokens now (identity_of user))

    -- Login at the time `now`: the token, its expiry and the user
    unfoldable pub login : Time → String → String → State → Outcome (String × (Time × Identity))
    unfolding login_found
    login now username password s =
        let name = trim_space username in
        if (name == "") || (password == "")
        then failure invalid_credentials
        else login_found now password (U.find_by_username name s)

    unfoldable pub authenticate_token : Time → String → Outcome Identity
    unfolding from_parsed
    authenticate_token now token =
        let trimmed = trim_space token in
        if trimmed == ""
        then failure bearer_token_missing
        else from_parsed (parse codec tokens now trimmed)

    unfoldable pub authenticate_bearer : Time → String → Outcome Identity
    unfolding from_parsed
    authenticate_bearer now header =
        if not (has_prefix header "Bearer ")
        then failure bearer_token_missing
        else (let token = trim_space (trim_prefix header "Bearer ") in
            if token == ""
            then failure bearer_token_missing
            else from_parsed (parse codec tokens now token))
