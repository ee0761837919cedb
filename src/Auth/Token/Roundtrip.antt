-- ===== src/Auth/Token/Roundtrip.antt =====
-- What Parse makes of the tokens of Generate, and of others.
use server_monitor.Base.{
  ◌+◌, ◌<◌, ◌^◌, String, ◌≡◌, refl, ◌∙◌, ap, true, false, Option, none, some, List, [], ◌∷◌, arith,
  ◌==◌, eqb, if◌then◌else◌, Bool-cases, inl, inr,
}
use server_monitor.Base.Text.{
  append, split, free_of, split-append, split-free_of, space_free, is_space, cons-ne-empty,
  space_free-append,
}
use server_monitor.Base.Int.{leb_ℤ, pos_part}
use server_monitor.Base.Numbers.{parse_uint-format_uint}
use server_monitor.Errors.{ok}
use server_monitor.Times.{Time, unix}
use server_monitor.Auth.Token.{
  Identity, TokenClaims, TokenCodec, TokenManager, parsed, expired_token, sign, claims_of, join_dot,
  header, signed, marshalled, generate, parse_subject, parse_claims, parse_claims_segment,
  parse_header, parse_header_segment, parse_signature, parse_parts, parse,
}

append_assoc : (a b c : String) → append (append a b) c ≡ append a (append b c)
append_assoc String.[] b c = refl
append_assoc (String.◌∷◌ x a) b c = ap (String.◌∷◌ x) (append_assoc a b c)

split_three :
    (a b c : String)
    → free_of b'.' a ≡ true
    → free_of b'.' b ≡ true
    → free_of b'.' c ≡ true
    → split (append (append a (String.◌∷◌ "." b)) (String.◌∷◌ "." c)) b'.' ≡ a ∷ b ∷ c ∷ []
split_three a b c p q r =
    ap (λ s. split s b'.') (append_assoc a (String.◌∷◌ "." b) (String.◌∷◌ "." c))
    ∙ split-append b'.' "." a (append b (String.◌∷◌ "." c)) p refl
    ∙ ap (a ∷◌) (split-append b'.' "." b c q refl ∙ ap (b ∷◌) (split-free_of b'.' c r))

module _ (codec : TokenCodec) (m : TokenManager) where
  parse-signed :
      (claims : TokenClaims) (now : Time) (h c : codec.Bytes)
      → codec.marshal_header (header codec) ≡ some h
      → codec.marshal_claims claims ≡ some c
      → parse codec m now (signed codec m h c) ≡ parse_claims codec now (some claims)
  unfolding parse signed parse_parts parse_signature parse_header_segment parse_header
      parse_claims_segment
  parse-signed claims now h c p q =
      let a = codec.encode_segment h in
      let b = codec.encode_segment c in
      let mac = sign codec m (join_dot codec a b) in
      rw
        (
          split_three a b (codec.encode_segment mac) (codec.encode_without_dot _)
              (codec.encode_without_dot _) (codec.encode_without_dot _),
          codec.decode-encode mac,
          codec.hmac_equal-refl mac,
          codec.decode-encode h,
          codec.unmarshal-marshal_header (header codec) h p,
          codec.decode-encode c,
          codec.unmarshal-marshal_claims claims c q,
        )
        refl

  join_dot-space_free :
      (a b : String)
      → space_free a ≡ true
      → space_free b ≡ true
      → space_free (join_dot codec a b) ≡ true
  unfolding space_free is_space
  join_dot-space_free a b p q = space_free-append a (String.◌∷◌ "." b) p q

  pub signed-space_free : (h c : codec.Bytes) → space_free (signed codec m h c) ≡ true
  unfolding signed
  signed-space_free h c =
      join_dot-space_free _ _
        (join_dot-space_free _ _ (codec.encode_without_space _) (codec.encode_without_space _))
        (codec.encode_without_space _)

  pub signed-nonempty : (h c : codec.Bytes) → (signed codec m h c == "") ≡ false
  unfolding signed
  signed-nonempty h c = go (codec.encode_segment _) _ _
    where
      go : (a b c : String) → (join_dot codec (join_dot codec a b) c == "") ≡ false
      go String.[] b c = cons-ne-empty _ _
      go (String.◌∷◌ x a) b c = cons-ne-empty _ _

  marshalled-signed :
      (expires : Time) (a b : Option codec.Bytes) (token : String) (expiry : Time)
      → marshalled codec m expires a b ≡ ok (token, expiry)
      → (h c : codec.Bytes) × (a ≡ some h)
        × (b ≡ some c)
        × (token ≡ signed codec m h c)
        × (expiry ≡ expires)
  unfolding marshalled
  marshalled-signed expires none b token expiry e = cc
  marshalled-signed expires (some h) none token expiry e = cc
  marshalled-signed expires (some h) (some c) token expiry e = (h, c, refl, refl, cc, cc)

  -- A token of Generate is made of its claims; the identity has an id, a name and a role.
  pub record Generated (identity : Identity) (made : Time) (token : String) (expiry : Time)
      : Type 0 where
    pub header_json : codec.Bytes
    pub claims_json : codec.Bytes
    pub header_made : codec.marshal_header (header codec) ≡ some header_json
    pub claims_made : codec.marshal_claims (claims_of codec m made identity) ≡ some claims_json
    pub token_made : token ≡ signed codec m header_json claims_json
    pub expiry_made : expiry ≡ made + pos_part m.ttl
    pub has_id : eqb identity.id 0 ≡ false
    pub has_username : (identity.username == "") ≡ false
    pub has_role : (identity.role == "") ≡ false

  pub generate-Generated :
      (identity : Identity) (made : Time) (token : String) (expiry : Time)
      → generate codec m made identity ≡ ok (token, expiry)
      → Generated identity made token expiry
  unfolding generate
  generate-Generated identity made token expiry g =
      let n0 : eqb identity.id 0 ≡ false = ground arith in
      let n1 : (identity.username == "") ≡ false = ground arith in
      let n2 : (identity.role == "") ≡ false = ground arith in
      let (h, c, p, q, e, f) =
        marshalled-signed _ _ _ token expiry (rw (generate, n0, n1, n2) at g) in
      record {
        header_json = h;
        claims_json = c;
        header_made = p;
        claims_made = q;
        token_made = e;
        expiry_made = f;
        has_id = n0;
        has_username = n1;
        has_role = n2;
      }

  -- A token that Generate makes of an identity with a 64-bit id gives the identity back until the
  -- second of its expiry, and is refused as expired from then on.
  pub parse-generate :
      (identity : Identity) (made now : Time) (token : String) (expiry : Time)
      → identity.id < 2 ^ 64
      → generate codec m made identity ≡ ok (token, expiry)
      → parse codec m now token
        ≡ (if leb_ℤ (unix expiry) (unix now) then expired_token else parsed identity)
  unfolding claims_of parse_claims parse_subject
  parse-generate identity made now token expiry small g =
      let made_of = generate-Generated identity made token expiry g in
      rw
        (
          made_of.token_made,
          made_of.expiry_made,
          parse-signed (claims_of codec m made identity) now _ _ made_of.header_made
              made_of.claims_made,
        )
        (elim (Bool-cases (leb_ℤ (unix (made + pos_part m.ttl)) (unix now))) [
          | inl old ↦ rw old refl
          | inr fresh ↦
              rw
                (
                  fresh,
                  parse_uint-format_uint identity.id small,
                  made_of.has_id,
                  made_of.has_username,
                  made_of.has_role,
                )
                refl
        ])

  parse_signature-inv :
      (now : Time) (a b : String) (o : Option codec.Bytes) (i : Identity)
      → parse_signature codec m now a b o ≡ parsed i
      → o ≡ some (sign codec m (join_dot codec a b))
  unfolding parse_signature
  parse_signature-inv now a b none i h = cc
  parse_signature-inv now a b (some s) i h =
      elim (Bool-cases (codec.hmac_equal s (sign codec m (join_dot codec a b)))) [
        | inl same ↦ ap some (codec.hmac_equal-eq _ _ same)
        | inr other ↦ absurd (ground arith)
      ]

  -- Parse accepts nothing without the secret: a token that gives an identity has three segments, and
  -- the third decodes to the keyed hash of the first two.
  pub parse-only_signed :
      (now : Time) (token : String) (i : Identity)
      → parse codec m now token ≡ parsed i
      → (a b c : String) × (split token b'.' ≡ a ∷ b ∷ c ∷ [])
        × (codec.decode_segment c ≡ some (sign codec m (join_dot codec a b)))
  unfolding parse parse_parts
  parse-only_signed now token i h = parts (split token b'.') refl h
    where
      parts :
          (l : List String)
          → split token b'.' ≡ l
          → parse_parts codec m now l ≡ parsed i
          → (a b c : String) × (split token b'.' ≡ a ∷ b ∷ c ∷ [])
            × (codec.decode_segment c ≡ some (sign codec m (join_dot codec a b)))
      parts [] e h = cc
      parts (a ∷ []) e h = cc
      parts (a ∷ b ∷ []) e h = cc
      parts (a ∷ b ∷ c ∷ []) e h =
          (a, b, c, e, parse_signature-inv now a b (codec.decode_segment c) i h)
      parts (a ∷ b ∷ c ∷ d ∷ l) e h = cc
