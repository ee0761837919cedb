-- ===== src/Auth/Token.antt =====
-- server-web/auth/token.go: tokens of three segments, the last a keyed hash of the first two.
pub mod Roundtrip
use server_monitor.Base.{
  ℕ, ◌+◌, ◌<◌, ◌^◌, String, len, ◌≡◌, Bool, true, false, not, ◌&&◌, ◌||◌, Option, none, some, List,
  [], ◌∷◌, ◌==◌, eqb, ltb, if◌then◌else◌,
}
use server_monitor.Base.Text.{append, split, trim_space, free_of, space_free}
use server_monitor.Base.Int.{ℤ, pos, leb_ℤ, pos_part}
use server_monitor.Base.Numbers.{parse_uint, format_uint}
use server_monitor.Errors.{GoError, message, Result, ok, err}
use server_monitor.Times.{Time, unix}

pub record Identity : Type 0 where
  pub id : ℕ
  pub username : String
  pub role : String
  pub token_version : ℤ

pub record TokenClaims : Type 0 where
  pub subject : String
  pub username : String
  pub role : String
  pub token_version : ℤ
  pub issued_at : ℤ
  pub expires : ℤ

pub record TokenHeader : Type 0 where
  pub alg : String
  pub typ : String

-- The library code: HMAC-SHA256 with a secret, base64 and JSON; `none` is an error.
pub record TokenCodec : Type 1 where
  pub Bytes : Type 0
  pub hmac : String → String → Bytes
  pub hmac_equal : Bytes → Bytes → Bool
  pub encode_segment : Bytes → String
  pub decode_segment : String → Option Bytes
  pub marshal_header : TokenHeader → Option Bytes
  pub unmarshal_header : Bytes → Option TokenHeader
  pub marshal_claims : TokenClaims → Option Bytes
  pub unmarshal_claims : Bytes → Option TokenClaims
  -- what the code relies on
  pub hmac_equal-refl : (a : Bytes) → hmac_equal a a ≡ true
  pub hmac_equal-eq : (a b : Bytes) → hmac_equal a b ≡ true → a ≡ b
  pub decode-encode : (bytes : Bytes) → decode_segment (encode_segment bytes) ≡ some bytes
  pub encode_without_dot : (bytes : Bytes) → free_of b'.' (encode_segment bytes) ≡ true
  pub encode_without_space : (bytes : Bytes) → space_free (encode_segment bytes) ≡ true
  pub unmarshal-marshal_header :
      (h : TokenHeader) (bytes : Bytes)
      → marshal_header h ≡ some bytes
      → unmarshal_header bytes ≡ some h
  pub unmarshal-marshal_claims :
      (c : TokenClaims) (bytes : Bytes)
      → marshal_claims c ≡ some bytes
      → unmarshal_claims bytes ≡ some c

pub record TokenManager : Type 0 where
  pub secret : String
  pub ttl : ℤ

unfoldable pub new_token_manager : String → ℤ → Result TokenManager
new_token_manager secret ttl =
    let trimmed = trim_space secret in
    if ltb (len trimmed) 32
    then err (message "jwt secret must be at least 32 bytes")
    else if leb_ℤ ttl (pos 0)
    then err (message "jwt ttl must be positive")
    else ok (record { secret = trimmed; ttl = ttl })

-- How Parse ends: an identity, ErrInvalidToken or ErrExpiredToken.
pub data Parsed : Type 0 where
  parsed : Identity → Parsed
  invalid_token expired_token : Parsed

module _ (codec : TokenCodec) where
  abbrev pub sign : TokenManager → String → codec.Bytes
  sign m unsigned = codec.hmac m.secret unsigned

  unfoldable pub claims_of : TokenManager → Time → Identity → TokenClaims
  claims_of m now identity = record {
    subject = format_uint identity.id;
    username = identity.username;
    role = identity.role;
    token_version = identity.token_version;
    issued_at = unix now;
    expires = unix (now + pos_part m.ttl);
  }

  abbrev pub join_dot : String → String → String
  join_dot a b = append a (String.◌∷◌ "." b)

  abbrev pub header : TokenHeader
  header = record { alg = "HS256"; typ = "JWT" }

  unfoldable pub signed : TokenManager → codec.Bytes → codec.Bytes → String
  signed m header_json claims_json =
      let unsigned =
        join_dot (codec.encode_segment header_json) (codec.encode_segment claims_json) in
      join_dot unsigned (codec.encode_segment (sign m unsigned))

  marshalled :
      TokenManager → Time → Option codec.Bytes → Option codec.Bytes → Result (String × Time)
  unfolding signed
  marshalled m expires_at none claims_json = err (message "marshal header")
  marshalled m expires_at (some header_json) none = err (message "marshal claims")
  marshalled m expires_at (some header_json) (some claims_json) =
      ok (signed m header_json claims_json, expires_at)

  -- Generate at the time `now`, the token with the time of its expiry; the time to live is positive
  unfoldable pub generate : TokenManager → Time → Identity → Result (String × Time)
  unfolding claims_of marshalled
  generate m now identity =
      if eqb identity.id 0
      then err (message "identity id is required")
      else if identity.username == ""
      then err (message "identity username is required")
      else if identity.role == ""
      then err (message "identity role is required")
      else marshalled m (now + pos_part m.ttl) (codec.marshal_header header)
          (codec.marshal_claims (claims_of m now identity))

  parse_subject : TokenClaims → Option ℕ → Parsed
  parse_subject claims none = invalid_token
  parse_subject claims (some id) =
      if eqb id 0 || (claims.username == "") || (claims.role == "")
      then invalid_token
      else parsed (record {
        id = id;
        username = claims.username;
        role = claims.role;
        token_version = claims.token_version;
      })

  parse_claims : Time → Option TokenClaims → Parsed
  unfolding parse_subject
  parse_claims now none = invalid_token
  parse_claims now (some claims) =
      if leb_ℤ claims.expires (unix now)
      then expired_token
      else parse_subject claims (parse_uint claims.subject)

  parse_claims_segment : Time → Option codec.Bytes → Parsed
  unfolding parse_claims
  parse_claims_segment now none = invalid_token
  parse_claims_segment now (some bytes) = parse_claims now (codec.unmarshal_claims bytes)

  parse_header : Time → String → Option TokenHeader → Parsed
  unfolding parse_claims_segment
  parse_header now claims_segment none = invalid_token
  parse_header now claims_segment (some header) =
      if not (header.alg == "HS256") || not (header.typ == "JWT")
      then invalid_token
      else parse_claims_segment now (codec.decode_segment claims_segment)

  parse_header_segment : Time → String → Option codec.Bytes → Parsed
  unfolding parse_header
  parse_header_segment now claims_segment none = invalid_token
  parse_header_segment now claims_segment (some bytes) =
      parse_header now claims_segment (codec.unmarshal_header bytes)

  parse_signature : TokenManager → Time → String → String → Option codec.Bytes → Parsed
  unfolding parse_header_segment
  parse_signature m now a b none = invalid_token
  parse_signature m now a b (some signature) =
      if not (codec.hmac_equal signature (sign m (join_dot a b)))
      then invalid_token
      else parse_header_segment now b (codec.decode_segment a)

  parse_parts : TokenManager → Time → List String → Parsed
  unfolding parse_signature
  parse_parts m now (a ∷ b ∷ c ∷ []) = parse_signature m now a b (codec.decode_segment c)
  parse_parts m now _ = invalid_token

  -- Parse at the time `now`
  unfoldable pub parse : TokenManager → Time → String → Parsed
  unfolding parse_parts
  parse m now token = parse_parts m now (split token b'.')
