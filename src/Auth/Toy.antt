-- ===== src/Auth/Toy.antt =====
-- A codec that meets the laws, for the tests: bytes are numbers, a segment is a number in unary, and
-- the only claims that can be marshalled are those of one administrator's token.
pub mod Table
use Prim.Native.Char.{code}
use server_monitor.Base.{
  ℕ, zero, suc, ◌+◌, ◌*◌, String, len, ◌≡◌, refl, ap, Bool, true, ◌&&◌, Option, none, some, arith,
  ◌==◌, eq_iff, eqb, if◌then◌else◌, eqb_refl, eqb→eq,
}
use server_monitor.Base.Text.{free_of, space_free, is_space}
use server_monitor.Base.Int.{ℤ, pos, negsuc, pos_part, neg_part}
use server_monitor.Times.{Time}
use server_monitor.Times.Unary.{unary}
use server_monitor.Auth.Token.{Identity, TokenClaims, TokenHeader, TokenCodec, TokenManager}

abbrev plus_one : Option ℕ → Option ℕ
plus_one none = none
plus_one (some n) = some (suc n)

abbrev read_unary : String → Option ℕ
read_unary String.[] = none
read_unary (String.◌∷◌ c String.[]) = if eqb (code c) b't' then some 0 else none
read_unary (String.◌∷◌ c (String.◌∷◌ d s)) =
    let rest = read_unary (String.◌∷◌ d s) in if eqb (code c) b'i' then plus_one rest else none

pub read-unary : (n : ℕ) → read_unary (unary n) ≡ some n
unfolding unary
read-unary zero = refl
read-unary (suc zero) = refl
read-unary (suc (suc n)) = ap plus_one (read-unary (suc n))

pub unary-free_of : (n : ℕ) → free_of b'.' (unary n) ≡ true
unfolding unary free_of
unary-free_of zero = refl
unary-free_of (suc n) = unary-free_of n

pub unary-space_free : (n : ℕ) → space_free (unary n) ≡ true
unfolding unary space_free is_space
unary-space_free zero = refl
unary-space_free (suc n) = unary-space_free n

abbrev pub made_at : Time
made_at = 62135597800 * 1000000000

abbrev root_claims : TokenClaims
root_claims = record {
  subject = "7";
  username = "root";
  role = "admin";
  token_version = pos 0;
  issued_at = pos 1000;
  expires = pos 4600;
}

abbrev same_ℤ : ℤ → ℤ → Bool
same_ℤ a b = eqb (pos_part a) (pos_part b) && eqb (neg_part a) (neg_part b)

same_ℤ-eq : (a b : ℤ) → same_ℤ a b ≡ true → a ≡ b
same_ℤ-eq (pos a) (pos b) h = ap pos (ground arith)
same_ℤ-eq (pos a) (negsuc b) h = absurd (ground arith)
same_ℤ-eq (negsuc a) (pos b) h = absurd (ground arith)
same_ℤ-eq (negsuc a) (negsuc b) h = ap negsuc (ground arith)

abbrev is_root : TokenClaims → Bool
is_root c =
    (c.subject == "7")
    && ((c.username == "root")
        && ((c.role == "admin")
            && (same_ℤ c.token_version (pos 0)
                && (same_ℤ c.issued_at (pos 1000) && same_ℤ c.expires (pos 4600)))))

is_root-eq : (c : TokenClaims) → is_root c ≡ true → c ≡ root_claims
is_root-eq c h =
    let p : c.subject ≡ "7" = ground (arith, eq_iff c.subject "7") in
    let q : c.username ≡ "root" = ground (arith, eq_iff c.username "root") in
    let r : c.role ≡ "admin" = ground (arith, eq_iff c.role "admin") in
    let v : c.token_version ≡ pos 0 = same_ℤ-eq c.token_version (pos 0) (ground arith) in
    let t : c.issued_at ≡ pos 1000 = same_ℤ-eq c.issued_at (pos 1000) (ground arith) in
    let x : c.expires ≡ pos 4600 = same_ℤ-eq c.expires (pos 4600) (ground arith) in
    λ i. record {
      subject = p i;
      username = q i;
      role = r i;
      token_version = v i;
      issued_at = t i;
      expires = x i;
    }

abbrev is_header : TokenHeader → Bool
is_header h = (h.alg == "HS256") && (h.typ == "JWT")

abbrev the_header : TokenHeader
the_header = record { alg = "HS256"; typ = "JWT" }

is_header-eq : (h : TokenHeader) → is_header h ≡ true → h ≡ the_header
is_header-eq h e =
    let p : h.alg ≡ "HS256" = ground (arith, eq_iff h.alg "HS256") in
    let q : h.typ ≡ "JWT" = ground (arith, eq_iff h.typ "JWT") in
    λ i. record { alg = p i; typ = q i }

abbrev marshal_if : Bool → ℕ → Option ℕ
marshal_if b n = if b then some n else none

pub header_law :
    (h : TokenHeader) (n : ℕ)
    → marshal_if (is_header h) 0 ≡ some n
    → (if eqb n 0 then some the_header else none) ≡ some h
header_law h n e =
    let yes_header : is_header h ≡ true = ground arith in
    let zero_bytes : eqb n 0 ≡ true = ground arith in
    rw (zero_bytes, is_header-eq h yes_header) refl

pub claims_law :
    (c : TokenClaims) (n : ℕ)
    → marshal_if (is_root c) 1 ≡ some n
    → (if eqb n 1 then some root_claims else none) ≡ some c
claims_law c n e =
    let yes_root : is_root c ≡ true = ground arith in
    let one_byte : eqb n 1 ≡ true = ground arith in rw (one_byte, is_root-eq c yes_root) refl

abbrev pub toy_codec : TokenCodec
toy_codec = record {
  Bytes = ℕ;
  hmac = λ secret text. 2 + len secret;
  hmac_equal = eqb;
  encode_segment = unary;
  decode_segment = read_unary;
  marshal_header = λ h. marshal_if (is_header h) 0;
  unmarshal_header = λ n. if eqb n 0 then some the_header else none;
  marshal_claims = λ c. marshal_if (is_root c) 1;
  unmarshal_claims = λ n. if eqb n 1 then some root_claims else none;
  hmac_equal-refl = eqb_refl;
  hmac_equal-eq = eqb→eq;
  decode-encode = read-unary;
  encode_without_dot = unary-free_of;
  encode_without_space = unary-space_free;
  unmarshal-marshal_header = header_law;
  unmarshal-marshal_claims = claims_law;
}

abbrev pub root : Identity
root = record { id = 7; username = "root"; role = "admin"; token_version = pos 0 }

abbrev pub manager : TokenManager
manager = record { secret = "0123456789abcdef0123456789abcdef"; ttl = pos (3600 * 1000000000) }
