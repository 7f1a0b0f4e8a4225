-- ===== src/Errors/Normalize.antt =====
-- `normalizeError` and `errorHandler` of middlewares/error.middleware.js.
use Prim.Native.String.{◌++◌ as append}
use text.Mathlib.Text.{◌==◌ as str_eq}
use ride_sharing_backend.Common.{
  ℕ, String, ◌≡◌, Bool, true, false, not, none, some, leb, if◌then◌else◌, refl,
}
use ride_sharing_backend.Errors.{
  ApiError, bad_request, not_found, conflict, internal, p2002, p2010, p2024, p2025, other_code,
  Thrown, api, zod, multer, prisma, other,
}

unfoldable pub normalize_error : Bool → Thrown → ApiError
normalize_error is_production (api e) = e
normalize_error is_production (zod field_errors) = record {
  status_code = 400;
  message = "Validation failed";
  details = some field_errors;
}
normalize_error is_production (multer code message) =
    bad_request (if str_eq code "LIMIT_FILE_SIZE" then "File must be 5MB or smaller" else message)
normalize_error is_production (prisma p2002 target meta_code) =
    conflict (append "Duplicate value for field(s): " target)
normalize_error is_production (prisma p2025 target meta_code) = not_found "Record not found"
normalize_error is_production (prisma p2010 target meta_code) =
    if str_eq meta_code "23514"
    then bad_request "This action would violate a data integrity constraint"
    else bad_request "Database request error"
normalize_error is_production (prisma p2024 target meta_code) = record {
  status_code = 503;
  message = "The server is temporarily overloaded. Please try again shortly.";
  details = none;
}
normalize_error is_production (prisma other_code target meta_code) =
    bad_request "Database request error"
normalize_error is_production (other message) =
    internal (if is_production then "Something went wrong" else message)

-- The response of `errorHandler`, and whether it wrote to the error log. Every normalized error is
-- operational, so only the status decides.
pub record Response : Type 0 where
  pub status : ℕ
  pub body : ApiError
  pub stack_sent : Bool
  pub logged : Bool

unfoldable pub error_handler : Bool → Thrown → Response
unfolding normalize_error
error_handler is_production e = record {
  status = (normalize_error is_production e).status_code;
  body = normalize_error is_production e;
  stack_sent = not is_production;
  logged = leb 500 (normalize_error is_production e).status_code;
}

-- In production an unexpected error and a stack never reach the client: two unexpected errors give the same response,
-- a logged one with status 500 and no stack.
pub error_handler_hides :
    (m n : String)
    → (error_handler true (other m) ≡ error_handler true (other n))
      × ((error_handler true (other m)).status ≡ 500)
      × ((error_handler true (other m)).logged ≡ true)
      × ((error_handler true (other m)).stack_sent ≡ false)
unfolding error_handler internal
error_handler_hides m n = (refl, refl, refl, refl)
