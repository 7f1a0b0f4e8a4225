-- ===== src/Validators.antt =====
-- validators/*.js with middlewares/validate.middleware.js: which parsed values a schema accepts. Texts come
-- trimmed and in the case that the schema asks for, numbers coerced, as the schema library parses them.
pub mod Requests
pub mod Fleet
use Prim.Native.Char.{code}
use Prim.Native.String
use Prim.Native.String.{String, count}
use ride_sharing_backend.Common.{
  ℕ, ◌-◌, ◌*◌, Bool, true, false, ◌&&◌, ◌||◌, Option, none, some, leb, ltb, ◌==◌, if◌then◌else◌,
}
use ride_sharing_backend.Errors.{zod}
use ride_sharing_backend.Model.{Point}
use ride_sharing_backend.Store.{Action, ok, err}

-- `validate`: what the library writes about the refused fields is an argument.
unfoldable pub validate : String → Bool → Action (Unit {0})
validate field_errors is_accepted s = (if is_accepted then ok tt else err (zod field_errors), s)

-- `z.string().min(least).max(most)`, which counts characters here: a character outside the basic
-- plane counts twice in JavaScript.
abbrev pub is_text : ℕ → ℕ → String → Bool
is_text least most t = leb least (count t) && leb (count t) most

-- `.optional()`
abbrev pub is_optional {ℓ} : {A : Type ℓ} → (A → Bool) → Option A → Bool
is_optional p none = true
is_optional p (some a) = p a

-- `.positive().default(default_)` and `.positive().max(most).default(default_)`
abbrev pub positive_or : ℕ → Option ℕ → ℕ
positive_or default_ none = default_
positive_or default_ (some n) = n

abbrev pub is_page : Option ℕ → Bool
is_page page = leb 1 (positive_or 1 page)

abbrev pub is_limit : Option ℕ → Bool
is_limit limit = leb 1 (positive_or 20 limit) && leb (positive_or 20 limit) 100

-- Degrees as `Point` counts them: 10⁷ to a degree, 0 at -180.
abbrev pub degrees : ℕ → ℕ
degrees n = n * 10000000

abbrev pub is_lat : ℕ → Bool
is_lat x = leb (degrees 90) x && leb x (degrees 270)

abbrev pub is_lng : ℕ → Bool
is_lng x = leb x (degrees 360)

abbrev pub is_point : Point → Bool
is_point p = is_lat p.lat && is_lng p.lng

abbrev pub is_digit : ℕ → Bool
is_digit c = leb 48 c && leb c 57

abbrev pub is_lower : ℕ → Bool
is_lower c = leb 97 c && leb c 122

abbrev pub is_upper : ℕ → Bool
is_upper c = leb 65 c && leb c 90

-- `/[…]/`: some character of the class.
abbrev pub has_char : (ℕ → Bool) → String → Bool
has_char p String.[] = false
has_char p (String.◌∷◌ c s) = p (code c) || has_char p s

-- `/^\d*$/`
abbrev pub all_digits : String → Bool
all_digits String.[] = true
all_digits (String.◌∷◌ c s) = is_digit (code c) && all_digits s

-- `passwordSchema`
unfoldable pub is_password : String → Bool
is_password t = is_text 8 72 t && has_char is_lower t && has_char is_upper t && has_char is_digit t

-- `/^\+[1-9]\d{7,14}$/`: the text after the plus.
unfoldable pub is_phone_number : String → Bool
is_phone_number String.[] = false
is_phone_number (String.◌∷◌ c s) =
    leb 49 (code c) && leb (code c) 57 && all_digits s && is_text 7 14 s

unfoldable pub is_phone : String → Bool
unfolding is_phone_number
is_phone String.[] = false
is_phone (String.◌∷◌ c s) = (code c == 43) && is_phone_number s
