-- ===== src/Errors.antt =====
-- utils/ApiError.js and middlewares/error.middleware.js: the errors that the services throw, and
-- their translation into one response.
pub mod Normalize
use ride_sharing_backend.Common.{ℕ, String, Option, none, some}

-- `class ApiError`; `is_operational` is always true.
pub record ApiError : Type 0 where
  pub status_code : ℕ
  pub message : String
  pub details : Option String

pub bad_request : String → ApiError
bad_request message = record { status_code = 400; message = message; details = none }

unfoldable pub unauthorized : String → ApiError
unauthorized message = record { status_code = 401; message = message; details = none }

unfoldable pub forbidden : String → ApiError
forbidden message = record { status_code = 403; message = message; details = none }

pub not_found : String → ApiError
not_found message = record { status_code = 404; message = message; details = none }

pub conflict : String → ApiError
conflict message = record { status_code = 409; message = message; details = none }

pub internal : String → ApiError
internal message = record { status_code = 500; message = message; details = none }

-- The codes of `Prisma.PrismaClientKnownRequestError` that the code tells apart.
pub data PrismaCode : Type 0 where
  p2002 p2010 p2024 p2025 : PrismaCode
  other_code : PrismaCode

-- What can be thrown: an ApiError, a ZodError with its field errors, a MulterError with its code, a
-- known Prisma error with `meta.target` and `meta.code`, and any other error.
pub data Thrown : Type 0 where
  api : ApiError → Thrown
  zod : String → Thrown
  multer : String → String → Thrown
  prisma : PrismaCode → String → String → Thrown
  other : String → Thrown
