-- ===== src/Prelude/Text.antt =====
-- The text operations of the source, on native strings. `toLowerCase` folds the ASCII letters, the
-- only ones of header names, header directives and host names; `includes` is a search.
use Prim.Native.Nat.{ℕ, zero, suc, ◌+◌, ◌-◌, ◌*◌, ◌/◌, ◌%◌}
use Prim.Native.Char.{Char, code}
use Prim.Native.String.{String, [], ◌∷◌, ◌++◌, char_at, count}
use mathlib.Core.Path.{◌≡◌, refl}
use mathlib.Core.Bool.{Bool, false, ◌&&◌}
use mathlib.Core.Option.{Option, none, some}
use mathlib.Core.List.{List}
use text.Mathlib.Text.{find?, starts_with as begins_with}
use mitm_core.Prelude.Tests.{ltb, leb, if◌then◌else◌, is_some}

abbrev pub includes : String → String → Bool
includes s t = is_some (find? s t)

abbrev pub starts_with : String → String → Bool
starts_with = begins_with

pub lower_char : Char → Char
lower_char c =
    if leb b'A' (code c) && leb (code c) b'Z'
    then char_at "abcdefghijklmnopqrstuvwxyz" (code c - 65)
    else c

unfoldable pub to_lower : String → String
unfolding lower_char
to_lower [] = []
to_lower (c ∷ s) = lower_char c ∷ to_lower s

-- `Array.prototype.join`.
unfoldable pub join : String → List String → String
join sep List.[] = ""
join sep (List.◌∷◌ t List.[]) = t
join sep (List.◌∷◌ t (List.◌∷◌ u r)) = t ++ sep ++ join sep (List.◌∷◌ u r)

-- The decimal digits at the head of a text, as `parseInt` reads them after `acc`.
parse_digits : ℕ → String → ℕ
parse_digits acc [] = acc
parse_digits acc (c ∷ s) =
    let more = parse_digits (acc * 10 + (code c - 48)) s in
    if leb b'0' (code c) && leb (code c) b'9' then more else acc

-- `s.match(/<name>(\d+)/)`, and the number that `parseInt` makes of the group: the first place
-- where the name stands with a digit behind it. Numbers are exact here.
digit_at_head : String → Bool
digit_at_head [] = false
digit_at_head (c ∷ s) = leb b'0' (code c) && leb (code c) b'9'

-- `parseInt(s, 10)` of a text with no sign and no blank before its digits; `none` is NaN.
unfoldable pub parse_int : String → Option ℕ
unfolding digit_at_head parse_digits
parse_int s = if digit_at_head s then some (parse_digits 0 s) else none

drop : ℕ → String → String
drop zero s = s
drop (suc n) [] = []
drop (suc n) (c ∷ s) = drop n s

unfoldable pub match_number : String → String → Option ℕ
unfolding digit_at_head drop parse_digits
match_number name [] = none
match_number name (c ∷ s) =
    let rest = drop (count name) (c ∷ s) in
    let later = match_number name s in
    if starts_with (c ∷ s) name && digit_at_head rest then some (parse_digits 0 rest) else later

-- A number in decimal, as `${n}` prints it; its own value is fuel enough for its digits.
digit : ℕ → String
digit d = char_at "0123456789" d ∷ []

decimal_of : ℕ → ℕ → String
decimal_of zero n = digit n
decimal_of (suc fuel) n =
    let high = decimal_of fuel (n / 10) in if ltb n 10 then digit n else high ++ digit (n % 10)

unfoldable pub decimal : ℕ → String
unfolding decimal_of digit
decimal n = decimal_of n n

decimal_example : decimal 120 ≡ "120"
unfolding decimal
decimal_example = refl

-- `s.replace(/^\[|\]$/g, "")`.
strip_close : String → String
strip_close [] = []
strip_close (c ∷ []) = if leb b']' (code c) && leb (code c) b']' then [] else c ∷ []
strip_close (c ∷ (d ∷ s)) = c ∷ strip_close (d ∷ s)

unfoldable pub strip_brackets : String → String
unfolding strip_close
strip_brackets [] = []
strip_brackets (c ∷ s) =
    if leb b'[' (code c) && leb (code c) b'[' then strip_close s else strip_close (c ∷ s)

strip_brackets_example : strip_brackets "[::1]" ≡ "::1"
unfolding strip_brackets
strip_brackets_example = refl

to_lower_example : to_lower "Cache-Control" ≡ "cache-control"
unfolding to_lower
to_lower_example = refl

match_number_example : match_number "max-age=" "public, max-age=x, max-age=60" ≡ some 60
unfolding match_number
match_number_example = refl
