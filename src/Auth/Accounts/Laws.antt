-- ===== src/Auth/Accounts/Laws.antt =====
-- What a login is good for, and what a registration has checked.
use server_monitor.Base.{
  ◌<◌, ◌^◌, String, ◌≡◌, refl, ◌∙◌, ap, Bool, true, false, ◌||◌, Option, none, some, arith, ◌==◌,
  if◌then◌else◌, Bool-cases, inl, inr,
}
use server_monitor.Base.Text.{append, trim_space, has_prefix, trim_prefix, trim_space-space_free}
use server_monitor.Base.Int.{leb_ℤ}
use server_monitor.Errors.{Result, ok, err}
use server_monitor.Times.{Time, unix}
use server_monitor.Auth.Token.{
  Identity, TokenCodec, TokenManager, parsed, expired_token, generate, parse,
}
use server_monitor.Auth.Token.Roundtrip.{
  parse-generate, generate-Generated, signed-space_free, signed-nonempty,
}
use server_monitor.Auth.Accounts.{
  User, token_expired, success, failure, Users, Passwords, identity_of, login, login_found,
  login_generated, authenticate_bearer, from_parsed,
}

module _ (U : Users) (P : Passwords) (codec : TokenCodec) (tokens : TokenManager) where
  open U use {State}

  login_generated-inv :
      (now : Time) (user : User) (r : Result (String × Time)) (token : String) (expiry : Time)
      (i : Identity)
      → login_generated U P codec tokens user r ≡ success (token, (expiry, i))
      → (r ≡ ok (token, expiry)) × (i ≡ identity_of user)
  unfolding login_generated
  login_generated-inv now user (err e) token expiry i h = cc
  login_generated-inv now user (ok (t, x)) token expiry i h = (cc, cc)

  login_found-inv :
      (now : Time) (password : String) (r : Result (Option User)) (token : String) (expiry : Time)
      (i : Identity)
      → login_found U P codec tokens now password r ≡ success (token, (expiry, i))
      → (user : User) × (r ≡ ok (some user))
        × (i ≡ identity_of user)
        × (P.verify_password user.password password ≡ true)
        × (generate codec tokens now i ≡ ok (token, expiry))
  unfolding login_found
  login_found-inv now password (err e) token expiry i h = cc
  login_found-inv now password (ok none) token expiry i h = cc
  login_found-inv now password (ok (some user)) token expiry i h =
      elim (Bool-cases (P.verify_password user.password password)) [
        | inr bad ↦ absurd (ground arith)
        | inl good ↦
            let (g, same) =
              login_generated-inv now user _ token expiry i (rw (login_found, good) at h) in
            (user, refl, same, good, rw same g)
      ]

  login-inv :
      (now : Time) (username password : String) (s : State) (token : String) (expiry : Time)
      (i : Identity)
      → login U P codec tokens now username password s ≡ success (token, (expiry, i))
      → (user : User) × (U.find_by_username (trim_space username) s ≡ ok (some user))
        × (i ≡ identity_of user)
        × (P.verify_password user.password password ≡ true)
        × (generate codec tokens now i ≡ ok (token, expiry))
  unfolding login
  login-inv now username password s token expiry i h =
      elim (Bool-cases ((trim_space username == "") || (password == ""))) [
        | inl bad ↦ absurd (ground arith)
        | inr good ↦ login_found-inv now password _ token expiry i (rw (login, good) at h)
      ]

  bearer-signed :
      (i : Identity) (made now : Time) (token : String) (expiry : Time)
      → generate codec tokens made i ≡ ok (token, expiry)
      → authenticate_bearer U P codec tokens now (append "Bearer " token)
        ≡ from_parsed (parse codec tokens now token)
  unfolding authenticate_bearer has_prefix trim_prefix
  bearer-signed i made now token expiry g =
      let made_of = generate-Generated codec tokens i made token expiry g in
      let no_space : trim_space token ≡ token =
        trim_space-space_free token (rw made_of.token_made (signed-space_free codec tokens _ _)) in
      let some_text : (token == "") ≡ false =
        rw made_of.token_made (signed-nonempty codec tokens _ _) in
      rw (no_space, some_text) refl

  -- A login that succeeds has found a user of that name with that password. Its token, as a bearer
  -- token, authenticates the user until the second of its expiry, and is refused as expired from
  -- then on.
  pub login-authenticates :
      (made now : Time) (username password : String) (s : State) (token : String) (expiry : Time)
      (i : Identity)
      → login U P codec tokens made username password s ≡ success (token, (expiry, i))
      → i.id < 2 ^ 64
      → (user : User) × (U.find_by_username (trim_space username) s ≡ ok (some user))
        × (i ≡ identity_of user)
        × (P.verify_password user.password password ≡ true)
        × (authenticate_bearer U P codec tokens now (append "Bearer " token)
            ≡ (if leb_ℤ (unix expiry) (unix now) then failure token_expired else success i))
  unfolding from_parsed
  login-authenticates made now username password s token expiry i h small =
      let (user, found, same, good, g) = login-inv made username password s token expiry i h in
      (
        user,
        found,
        same,
        good,
        bearer-signed i made now token expiry g
            ∙ ap (λ p. from_parsed p) (parse-generate codec tokens i made now token expiry small g)
            ∙ outcome (leb_ℤ (unix expiry) (unix now)),
      )
    where
      outcome :
          (b : Bool)
          → from_parsed (if b then expired_token else parsed i)
            ≡ (if b then failure token_expired else success i)
      outcome true = refl
      outcome false = refl
