-- ===== src/Auth/Tokens.antt =====
-- The authenticator of pkg/auth/auth.go, with the JWT library as a parameter.
use astra_store_xion.Base.{
  Bool, true, false, if◌then◌else◌, [], ap, arith, ℕ, ◌+◌, ◌*◌, ◌/◌, ◌^◌, ◌≤◌, ◌<◌, ◌≡◌, String,
  Option, none, some, str_eq, ◌==◌, string_key, if◌then◌else◌,
}
use astra_store_xion.Base.Dict.{Dict, lookup, insert}
use astra_store_xion.Auth.Model.{
  AuthError, invalid_credentials, invalid_token, expired_token, user_not_found, user_exists,
  sign_failed, Verdict, accepted, refused, panicked, User, AuthConfig,
}

-- The claims of a token; times are in seconds. A claim that is missing or no string is `none`.
pub record Claims : Type 0 where
  pub sub : Option String
  pub iss : String
  pub aud : String
  pub exp : ℕ
  pub iat : ℕ
  pub nbf : ℕ
  pub username : Option String
  pub email : Option String
  pub role : Option String

-- What `jwt.Parse` comes to with the key function of `ValidateToken`, which takes HMAC only.
pub data Parsed : Type 0 where
  valid_claims : Claims → Parsed
  expired invalid : Parsed

-- github.com/golang-jwt/jwt: signing with HS256 and a secret, and parsing at a time in seconds.
pub record Jwt : Type 0 where
  pub sign : String → Claims → Option String
  pub parse : ℕ → String → String → Parsed

-- A token that was signed with the secret parses from its start until it expires, and not after.
pub record IsJwt (jwt : Jwt) : Type 0 where
  pub parse_valid :
      (now : ℕ) (secret token : String) (claims : Claims)
      → jwt.sign secret claims ≡ some token
      → claims.iat ≤ now
      → claims.nbf ≤ now
      → now < claims.exp
      → jwt.parse now secret token ≡ valid_claims claims
  pub parse_expired :
      (now : ℕ) (secret token : String) (claims : Claims)
      → jwt.sign secret claims ≡ some token
      → claims.iat ≤ now
      → claims.nbf ≤ now
      → claims.exp < now
      → jwt.parse now secret token ≡ expired

pub record Authenticator : Type 0 where
  pub config : AuthConfig
  pub user_db : Dict String User
  pub password_db : Dict String String

abbrev pub hour : ℕ
hour = 3600 * 10 ^ 9

unfoldable pub new_jwt_authenticator : AuthConfig → Authenticator
new_jwt_authenticator config = record {
  config = record config {
    token_expiry = if config.token_expiry == 0 then 24 * hour else config.token_expiry;
    refresh_expiry = if config.refresh_expiry == 0 then 7 * (24 * hour) else config.refresh_expiry;
  };
  user_db = [];
  password_db = [];
}

unfoldable pub register_user : User → String → Authenticator → Authenticator × Option AuthError
register_user user password a = elim (lookup user.username a.user_db) [
  | some old ↦ (a, some user_exists)
  | none ↦ (
    record a {
      user_db = insert user.username user a.user_db;
      password_db = insert user.username password a.password_db;
    },
    none,
  )
]

-- A missing password reads as the empty one.
abbrev pub stored_password : Option String → String
stored_password none = ""
stored_password (some p) = p

unfoldable pub authenticate : String → String → Authenticator → Verdict User
authenticate username password a = elim (lookup username a.user_db) [
  | none ↦ refused user_not_found
  | some user ↦
      if str_eq (stored_password (lookup username a.password_db)) password
      then accepted user
      else refused invalid_credentials
]

abbrev pub second : ℕ
second = 10 ^ 9

unfoldable pub claims_of : AuthConfig → ℕ → User → Claims
claims_of config now user = record {
  sub = some user.id;
  iss = config.token_issuer;
  aud = config.token_audience;
  exp = (now + config.token_expiry) / second;
  iat = now / second;
  nbf = now / second;
  username = some user.username;
  email = some user.email;
  role = some user.role;
}

abbrev pub signed : Option String → Verdict String
signed none = refused sign_failed
signed (some token) = accepted token

-- `claims["sub"].(string)` and the like panic on a claim that is no string. The times stay zero.
abbrev pub user_of : Option String → Option String → Option String → Option String → Verdict User
user_of (some id) (some username) (some email) (some role) = accepted (record {
  id = id;
  username = username;
  email = email;
  role = role;
  created_at = 0;
  updated_at = 0;
})
user_of _ _ _ _ = panicked

abbrev pub parsed_user : Parsed → Verdict User
parsed_user (valid_claims c) = user_of c.sub c.username c.email c.role
parsed_user expired = refused expired_token
parsed_user invalid = refused invalid_token

module _ (jwt : Jwt) where
  -- The user is a pointer: reading a field of nil panics.
  unfoldable pub generate_token : ℕ → Option User → Authenticator → Verdict String
  generate_token now none a = panicked
  generate_token now (some user) a =
      signed (jwt.sign a.config.secret_key (claims_of a.config now user))

  unfoldable pub validate_token : ℕ → String → Authenticator → Verdict User
  validate_token now token a = parsed_user (jwt.parse (now / second) a.config.secret_key token)

  -- `user, err := a.ValidateToken(ctx, tokenString)`: with an error the user is nil.
  abbrev pub returned_user : Verdict User → Option User
  returned_user (accepted user) = some user
  returned_user (refused e) = none
  returned_user panicked = none

  -- `if err != nil && err != ErrExpiredToken`
  abbrev pub stops_refresh : AuthError → Bool
  stops_refresh expired_token = false
  stops_refresh e = true

  abbrev pub refreshed : ℕ → Verdict User → Authenticator → Verdict String
  refreshed now (accepted user) a = generate_token now (returned_user (accepted user)) a
  refreshed now (refused e) a =
      if stops_refresh e then refused e else generate_token now (returned_user (refused e)) a
  refreshed now panicked a = panicked

  unfoldable pub refresh_token : ℕ → String → Authenticator → Verdict String
  refresh_token now token a = refreshed now (validate_token now token a) a

module _ (jwt : Jwt) (lib : IsJwt jwt) (a : Authenticator) where
  -- The user that a token carries: the times are not in it.
  abbrev pub carried : User → User
  carried user = record user { created_at = 0; updated_at = 0 }

  signed_token : (o : Option String) (token : String) → signed o ≡ accepted token → o ≡ some token
  signed_token none token e = cc
  signed_token (some t) token e = cc

  seconds_le : (x y : ℕ) → x ≤ y → x / second ≤ y / second
  seconds_le x y h = omega arith

  -- A token that `GenerateToken` gave out is accepted until it expires, and `ValidateToken` gives
  -- back its user, whose id, names and role are those that the token was made for.
  pub generate_validate :
      (issued now : ℕ) (user : User) (token : String)
      → generate_token jwt issued (some user) a ≡ accepted token
      → issued ≤ now
      → now / second < (issued + a.config.token_expiry) / second
      → validate_token jwt now token a ≡ accepted (carried user)
  unfolding generate_token validate_token claims_of
  generate_validate issued now user token e le lt =
      let claims = claims_of a.config issued user in
      let made = signed_token (jwt.sign a.config.secret_key claims) token e in
      let start = seconds_le issued now le in
      let parsed =
        lib.parse_valid (now / second) a.config.secret_key token claims made start start lt in
      ap parsed_user parsed

  -- `RefreshToken` of a token that has expired goes on to `GenerateToken` with a nil user and panics,
  -- although it means to give out a new one.
  pub refresh_token_expired :
      (issued now : ℕ) (user : User) (token : String)
      → generate_token jwt issued (some user) a ≡ accepted token
      → issued ≤ now
      → (issued + a.config.token_expiry) / second < now / second
      → refresh_token jwt now token a ≡ panicked
  unfolding generate_token validate_token refresh_token claims_of
  refresh_token_expired issued now user token e le lt =
      let claims = claims_of a.config issued user in
      let made = signed_token (jwt.sign a.config.secret_key claims) token e in
      let start = seconds_le issued now le in
      let parsed =
        lib.parse_expired (now / second) a.config.secret_key token claims made start start lt in
      ap (λ r. refreshed jwt now (parsed_user r) a) parsed
