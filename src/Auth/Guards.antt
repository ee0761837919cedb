-- ===== src/Auth/Guards.antt =====
-- server-web/api/middleware/auth.go and rbac.go, and the chain that server-web/api/router.go puts
-- before every writing route. A gin handler ends the request with a status, or passes it on.
pub mod Chain
use server_monitor.Base.{
  ℕ, String, Bool, true, false, Option, none, some, List, [], ◌∷◌, ◌==◌, if◌then◌else◌,
}
use server_monitor.Base.Keyed.{member}
use server_monitor.Auth.Token.{Identity}
use server_monitor.Auth.Accounts.{AuthError, bearer_token_missing, Outcome, success, failure}

-- What the middleware keeps in the gin context: the identity, and the role once more.
pub record Context : Type 0 where
  pub identity : Option Identity
  pub role : Option String

pub data Guard : Type 0 where
  aborted : ℕ → String → Guard
  next : Context → Guard

-- The interfaces authVerifier and tokenVersionVerifier.
pub record AuthVerifier : Type 0 where
  pub authenticate_bearer : String → Outcome Identity
  pub authenticate_token : String → Outcome Identity

abbrev with_identity : Identity → Context → Context
with_identity identity c = record c { identity = some identity; role = some identity.role }

authenticated : Outcome Identity → Context → Guard
authenticated (failure e) c = aborted 401 "invalid or expired token"
authenticated (success identity) c = next (with_identity identity c)

unfoldable pub auth : Option AuthVerifier → String → Context → Guard
unfolding authenticated
auth none header c = aborted 503 "auth service unavailable"
auth (some verifier) header c = authenticated (verifier.authenticate_bearer header) c

websocket_authenticated : AuthVerifier → String → Outcome Identity → Context → Guard
unfolding authenticated
websocket_authenticated verifier query_token (failure bearer_token_missing) c =
    if query_token == ""
    then aborted 401 "authorization header required"
    else authenticated (verifier.authenticate_token query_token) c
websocket_authenticated verifier query_token (failure e) c = aborted 401 "invalid or expired token"
websocket_authenticated verifier query_token (success identity) c = next (with_identity identity c)

unfoldable pub auth_web_socket : Option AuthVerifier → String → String → Context → Guard
unfolding websocket_authenticated
auth_web_socket none header query_token c = aborted 503 "auth service unavailable"
auth_web_socket (some verifier) header query_token c =
    websocket_authenticated verifier query_token (verifier.authenticate_bearer header) c

version_answer : Option AuthError → Context → Guard
version_answer none c = next c
version_answer (some e) c = aborted 401 "token has been revoked"

version_of : (Identity → Option AuthError) → Option Identity → Context → Guard
unfolding version_answer
version_of verify none c = aborted 401 "identity not found in context"
version_of verify (some identity) c = version_answer (verify identity) c

unfoldable pub verify_token_version : Option (Identity → Option AuthError) → Context → Guard
unfolding version_of
verify_token_version none c = next c
verify_token_version (some verify) c = version_of verify c.identity c

role_allowed : List String → Option String → Context → Guard
unfolding member
role_allowed roles none c = aborted 403 "role not found in context"
role_allowed roles (some role) c =
    if member role roles then next c else aborted 403 "insufficient permissions"

unfoldable pub require_role : List String → Context → Guard
unfolding role_allowed
require_role roles c = role_allowed roles c.role c

-- A handler runs if the one before it has passed the request on.
abbrev pub then_guard : Guard → (Context → Guard) → Guard
then_guard (aborted status error) f = aborted status error
then_guard (next c) f = f c

-- Use(Auth, VerifyTokenVersion, RequireRole("admin"))
unfoldable pub admin_only :
    Option AuthVerifier → Option (Identity → Option AuthError) → String → Context → Guard
unfolding auth verify_token_version require_role
admin_only verifier versions header c =
    then_guard (then_guard (auth verifier header c) (verify_token_version versions))
      (require_role ("admin" ∷ []))
