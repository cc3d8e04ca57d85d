-- ===== src/Decimal.antt =====
-- `u64::to_string`, which makes the ids of parameters and epochs (src/api/store.rs).
use palla_sync.Prelude.{ℕ, zero, suc, ◌/◌, ◌%◌, ◌≡◌, refl, String, ltb, if◌then◌else◌, ◌==◌, nat_eq}
use Prim.Native.String.{◌++◌ as append_text}

abbrev digit_text : ℕ → String
digit_text d =
    if d == 0
    then "0"
    else if d == 1
    then "1"
    else if d == 2
    then "2"
    else if d == 3
    then "3"
    else if d == 4
    then "4"
    else if d == 5
    then "5"
    else if d == 6
    then "6"
    else if d == 7
    then "7"
    else if d == 8
    then "8"
    else "9"

-- A digit a round; a number has fewer digits than the fuel, its successor.
digits_text : ℕ → ℕ → String → String
digits_text zero x behind = behind
digits_text (suc fuel) x behind =
    let done = append_text (digit_text (x % 10)) behind in
    let more = digits_text fuel (x / 10) done in if ltb x 10 then done else more

unfoldable pub to_string : ℕ → String
unfolding digits_text
to_string x = digits_text (suc x) x ""

to_string_run : to_string 9007199254740991 ≡ "9007199254740991"
unfolding to_string
to_string_run = refl
