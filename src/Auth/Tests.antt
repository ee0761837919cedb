-- ===== src/Auth/Tests.antt =====
-- Logins and requests over a table with one administrator.
use server_monitor.Base.{
  ◌+◌, ◌*◌, String, ◌≡◌, refl, true, none, some, [], ◌∷◌, arith, if◌then◌else◌,
}
use server_monitor.Base.Text.{append, trim_space, split}
use server_monitor.Base.Numbers.{format_uint}
use server_monitor.Base.Int.{pos, leb_ℤ}
use server_monitor.Errors.{ok}
use server_monitor.Times.{Time, unix}
use server_monitor.Auth.Token.{expired_token, parsed, sign, join_dot, signed, generate, parse}
use server_monitor.Auth.Token.Roundtrip.{parse-generate, parse-only_signed}
use server_monitor.Auth.Accounts.{
  User, success, failure, token_expired, identity_of, login, authenticate_bearer,
}
use server_monitor.Auth.Accounts.Laws.{login-authenticates}
use server_monitor.Auth.Guards.{Context}
use server_monitor.Auth.Toy.Table.{root_user, users, passwords}
use server_monitor.Auth.Toy.{toy_codec, root, manager, made_at}
use server_monitor.Auth.Guards

abbrev the_token : String
the_token = signed toy_codec manager 0 1

abbrev expires_at : Time
expires_at = made_at + 3600 * 1000000000

generated : generate toy_codec manager made_at root ≡ ok (the_token, expires_at)
unfolding generate format_uint unix
generated = refl

parse-generate_example :
    parse toy_codec manager made_at the_token
    ≡ (if leb_ℤ (unix expires_at) (unix made_at) then expired_token else parsed root)
parse-generate_example =
    parse-generate toy_codec manager root made_at made_at the_token expires_at (omega arith)
      generated

parsed_root : parse toy_codec manager made_at the_token ≡ parsed root
unfolding unix trim_space format_uint
parsed_root =
    parse-generate toy_codec manager root made_at made_at the_token expires_at (omega arith)
      generated

parse-only_signed_example :
    (a b c : String) × (split the_token b'.' ≡ a ∷ b ∷ c ∷ [])
    × (toy_codec.decode_segment c ≡ some (sign toy_codec manager (join_dot toy_codec a b)))
parse-only_signed_example = parse-only_signed toy_codec manager made_at the_token root parsed_root

login-authenticates_example :
    (user : User) × (users.find_by_username (trim_space " root") root_user ≡ ok (some user))
    × (root ≡ identity_of user)
    × (passwords.verify_password user.password "secret77" ≡ true)
    × (authenticate_bearer users passwords toy_codec manager expires_at (append "Bearer " the_token)
        ≡ (if leb_ℤ (unix expires_at) (unix expires_at)
            then failure token_expired
            else success root))
unfolding login trim_space generate format_uint unix
login-authenticates_example =
    login-authenticates users passwords toy_codec manager made_at expires_at " root" "secret77"
      root_user the_token expires_at root refl (omega arith)

abbrev new_user : User
new_user = record {
  id = 8;
  username = "ann_1";
  password = "#password";
  role = "viewer";
  token_version = pos 0;
}

abbrev nobody : Context
nobody = record { identity = none; role = none }

abbrev as_root : Context
as_root = record { identity = some root; role = some "admin" }

abbrev root_header : String
root_header = append "Bearer " the_token
