-- ===== src/Auth/Tests.antt =====
-- The theorems on tokens and permissions at concrete inputs.
use astra_store_xion.Base.{
  ap, sym, Bool-cases, inl, inr, ◌*◌, ℕ, ◌^◌, ◌≡◌, refl, String, Bool, true, false, ◌&&◌, ◌||◌,
  Option, none, some, [], arith, str_eq, eq_iff, leb, ltb, ◌==◌, if◌then◌else◌, string_key,
}
use astra_store_xion.Base.Dict.{lookup}
use astra_store_xion.Auth.Model.{accepted, panicked, User, AuthConfig, admin_permission}
use astra_store_xion.Auth.Tokens.{
  Claims, Parsed, valid_claims, expired, invalid, Jwt, IsJwt, Authenticator, claims_of,
  generate_token, validate_token, refresh_token, carried, generate_validate, refresh_token_expired,
}
use astra_store_xion.Auth.Permissions.{
  Permissions, check_permission, grant_permission, granted, has_permission,
}
use astra_store_xion.Auth.Permissions.Laws.{grant_permission-check_permission}

abbrev ada : User
ada = record {
  id = "1";
  username = "ada";
  email = "a@x";
  role = "guest";
  created_at = 5;
  updated_at = 6;
}

-- A token for two seconds.
abbrev settings : AuthConfig
settings = record {
  secret_key = "s";
  token_expiry = 2 * 10 ^ 9;
  refresh_expiry = 10 ^ 9;
  token_issuer = "x";
  token_audience = "y";
}

abbrev ada_claims : Claims
ada_claims = record {
  sub = some "1";
  iss = "x";
  aud = "y";
  exp = 3;
  iat = 1;
  nbf = 1;
  username = some "ada";
  email = some "a@x";
  role = some "guest";
}

abbrev opt_eq : Option String → Option String → Bool
opt_eq none none = true
opt_eq (some s) (some t) = str_eq s t
opt_eq _ _ = false

abbrev same_claims : Claims → Claims → Bool
same_claims c d =
    opt_eq c.sub d.sub
    && (str_eq c.iss d.iss
        && (str_eq c.aud d.aud
            && (c.exp == d.exp
                && (c.iat == d.iat
                    && (c.nbf == d.nbf
                        && (opt_eq c.username d.username
                            && (opt_eq c.email d.email && opt_eq c.role d.role)))))))

abbrev parse_example : ℕ → String → String → Parsed
parse_example now secret token =
    if str_eq secret "s" && str_eq token "t"
    then if ltb 3 now then expired else if ltb now 1 then invalid else valid_claims ada_claims
    else invalid

-- Signs the claims of one user.
abbrev jwt_example : Jwt
jwt_example = record {
  sign = λ secret c. if str_eq secret "s" && same_claims c ada_claims then some "t" else none;
  parse = parse_example;
}

opt_eq_lem : (o : Option String) (t : String) → opt_eq o (some t) ≡ true → o ≡ some t
opt_eq_lem none t e = cc
opt_eq_lem (some s) t e = ap some ((eq_iff s t).0 e)

same_claims_lem : (c : Claims) → same_claims c ada_claims ≡ true → c ≡ ada_claims
same_claims_lem c e = ground (
  arith,
  e,
  opt_eq_lem c.sub "1",
  opt_eq_lem c.username "ada",
  opt_eq_lem c.email "a@x",
  opt_eq_lem c.role "guest",
  eq_iff c.iss "x",
  eq_iff c.aud "y",
)

signed_example :
    (secret token : String) (c : Claims)
    → jwt_example.sign secret c ≡ some token
    → (str_eq secret "s" ≡ true) × (str_eq token "t" ≡ true) × (c ≡ ada_claims)
signed_example secret token c e =
    elim (Bool-cases (str_eq secret "s" && same_claims c ada_claims)) [
      | inr no_token ↦ let wrong : none ≡ some token = rw no_token at e in cc
      | inl signed ↦
          let this : some "t" ≡ some token = rw signed at e in
          (
            ground (arith, signed),
            ground (arith, this, eq_iff token "t"),
            same_claims_lem c (ground (arith, signed)),
          )
    ]

jwt_example-IsJwt : IsJwt jwt_example
jwt_example-IsJwt = record {
  parse_valid = λ now secret token c e iat nbf exp.
      let (s, t, same) = signed_example secret token c e in
      let later : leb 1 now ≡ true = ground (arith, ap (λ (d : Claims). d.nbf) same, nbf) in
      let before : ltb 3 now ≡ false = ground (arith, ap (λ (d : Claims). d.exp) same, exp) in
      let not_early : ltb now 1 ≡ false = ground (arith, later) in
      simp (s, t, before, not_early) (ap valid_claims (sym same));
  parse_expired = λ now secret token c e iat nbf exp.
      let (s, t, same) = signed_example secret token c e in
      let after : ltb 3 now ≡ true = ground (arith, ap (λ (d : Claims). d.exp) same, exp) in
      simp (s, t, after);
}

abbrev authenticator : Authenticator
authenticator = record { config = settings; user_db = []; password_db = [] }

token_made : generate_token jwt_example (10 ^ 9) (some ada) authenticator ≡ accepted "t"
unfolding generate_token claims_of
token_made = refl

generate_validate_example :
    validate_token jwt_example (2 * 10 ^ 9) "t" authenticator
    ≡ accepted (carried jwt_example jwt_example-IsJwt authenticator ada)
generate_validate_example =
    generate_validate jwt_example jwt_example-IsJwt authenticator (10 ^ 9) (2 * 10 ^ 9) ada "t"
      token_made (omega arith) (omega arith)

refresh_token_expired_example : refresh_token jwt_example (4 * 10 ^ 9) "t" authenticator ≡ panicked
refresh_token_expired_example =
    refresh_token_expired jwt_example jwt_example-IsJwt authenticator (10 ^ 9) (4 * 10 ^ 9) ada "t"
      token_made (omega arith) (omega arith)

abbrev nothing : Permissions
nothing = []

grant_permission-check_permission_example :
    check_permission (grant_permission nothing ada "delete" "docs") ada "delete" "docs" ≡ (
      check_permission nothing ada "delete" "docs"
      || (str_eq ada.id ada.id
          && (str_eq "docs" "docs"
              && (str_eq "delete" "delete" || str_eq "delete" admin_permission))))
grant_permission-check_permission_example =
    grant_permission-check_permission nothing ada ada "delete" "delete" "docs" "docs"

not_held : has_permission "delete" (granted nothing ada.id "docs") ≡ false
unfolding has_permission granted lookup
not_held = refl
