-- ===== src/Auth/Model.antt =====
-- The records of pkg/auth/auth.go. Roles and permissions are strings there, and here.
use astra_store_xion.Base.{ℕ, String}

pub data AuthError : Type 0 where
  invalid_credentials invalid_token expired_token user_not_found user_exists sign_failed : AuthError

-- How a call ends: with a value, with an error, or with a panic.
pub data Verdict (A : Type 0) : Type 0 where
  accepted : A → Verdict A
  refused : AuthError → Verdict A
  panicked : Verdict A

abbrev pub Role : Type 0
Role = String

abbrev pub admin_role : Role
admin_role = "admin"

abbrev pub operator_role : Role
operator_role = "operator"

abbrev pub user_role : Role
user_role = "user"

abbrev pub guest_role : Role
guest_role = "guest"

abbrev pub Permission : Type 0
Permission = String

abbrev pub read_permission : Permission
read_permission = "read"

abbrev pub write_permission : Permission
write_permission = "write"

abbrev pub admin_permission : Permission
admin_permission = "admin"

pub record User : Type 0 where
  pub id : String
  pub username : String
  pub email : String
  pub role : Role
  pub created_at : ℕ
  pub updated_at : ℕ

-- Durations and times are in nanoseconds.
pub record AuthConfig : Type 0 where
  pub secret_key : String
  pub token_expiry : ℕ
  pub refresh_expiry : ℕ
  pub token_issuer : String
  pub token_audience : String
