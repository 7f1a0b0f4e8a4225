-- ===== src/Common/Text.antt =====
-- Decimal text of numbers, for the messages that name an amount.
use Prim.Native.Nat.{ℕ, zero, suc, ◌/◌, ◌%◌}
use Prim.Native.Nat.{Ordering}
use Prim.Native.String.{String, ◌++◌ as append, compare as compare_text}
use mathlib.Core.Bool.{Bool, true, false}
use ride_sharing_backend.Common.Tests.{ltb, ◌==◌, if◌then◌else◌}

digit : ℕ → String
digit d =
    if d == 0
    then "0"
    else if d == 1
    then "1"
    else if d == 2
    then "2"
    else if d == 3
    then "3"
    else if d == 4
    then "4"
    else if d == 5
    then "5"
    else if d == 6
    then "6"
    else if d == 7
    then "7"
    else if d == 8
    then "8"
    else "9"

-- A number has fewer digits than itself plus one, so that much fuel is enough.
decimal_within : ℕ → ℕ → String
decimal_within zero n = ""
decimal_within (suc fuel) n =
    let front = decimal_within fuel (n / 10) in
    if ltb n 10 then digit n else append front (digit (n % 10))

unfoldable pub decimal : ℕ → String
unfolding decimal_within digit
decimal n = decimal_within (suc n) n

-- `toFixed(2)` of a number of cents.
unfoldable pub to_fixed_text : ℕ → String
unfolding decimal
to_fixed_text cents =
    append (decimal (cents / 100))
      (append "." (append (digit (cents / 10 % 10)) (digit (cents % 10))))

-- `===` on strings.
abbrev pub same_text : String → String → Bool
same_text a b = elim (compare_text a b) [ Ordering.eq ↦ true | _ ↦ false ]

-- `toString()` of a Decimal of whole cents: no trailing zeros.
unfoldable pub column_text : ℕ → String
unfolding decimal
column_text cents =
    let tenths = append (decimal (cents / 100)) (append "." (digit (cents / 10 % 10))) in
    if cents % 100 == 0
    then decimal (cents / 100)
    else if cents % 10 == 0
    then tenths
    else append tenths (digit (cents % 10))
