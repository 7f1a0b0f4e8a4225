-- ===== src/Model/Accounts.antt =====
-- Users and their tokens.
use ride_sharing_backend.Common.{ℕ, String, Bool, true, false, Option}

pub data Role : Type 0 where
  passenger driver admin : Role

pub record User : Type 0 where
  pub email : String
  pub password_hash : Option ℕ
  pub first_name : String
  pub last_name : String
  pub phone : Option String
  pub role : Role
  pub google_id : Option String
  pub is_email_verified : Bool
  pub is_active : Bool
  pub last_login_at : Option ℕ
  pub created_at : ℕ

pub record RefreshToken : Type 0 where
  pub user_id : ℕ
  pub token_hash : ℕ
  pub expires_at : ℕ
  pub revoked_at : Option ℕ

pub data VerificationTokenType : Type 0 where
  email_verification password_reset : VerificationTokenType

abbrev pub same_token_type : VerificationTokenType → VerificationTokenType → Bool
same_token_type VerificationTokenType.email_verification VerificationTokenType.email_verification =
    true
same_token_type VerificationTokenType.password_reset VerificationTokenType.password_reset = true
same_token_type _ _ = false

pub record VerificationToken : Type 0 where
  pub user_id : ℕ
  pub token_hash : ℕ
  pub type : VerificationTokenType
  pub expires_at : ℕ
  pub used_at : Option ℕ
