-- ===== src/Auth/Guards/Chain.antt =====
-- Who gets past the guards of the writing routes.
use server_monitor.Times.{Time}
use server_monitor.Auth.Token.{TokenCodec, TokenManager}
use server_monitor.Auth.Accounts.{Users, Passwords, authenticate_bearer, authenticate_token}
use server_monitor.Auth.Guards.{AuthVerifier}
use server_monitor.Auth.Accounts

module _ (U : Users) (P : Passwords) (codec : TokenCodec) (tokens : TokenManager) where
  -- The service as the middleware's verifier, at one moment.
  abbrev pub service_verifier : Time → AuthVerifier
  service_verifier now = record {
    authenticate_bearer = authenticate_bearer U P codec tokens now;
    authenticate_token = authenticate_token U P codec tokens now;
  }
