-- ===== src/Prelude/Text.antt =====
-- Texts: truthiness, lower case, digits.
use Prim.Native.Nat.{ℕ, ◌+◌, ◌-◌, ◌*◌}
use Prim.Native.Char.{Char, code}
use Prim.Native.String.{String, ◌++◌ as str_append}
use mathlib.Core.Path.{◌≡◌, refl}
use mathlib.Core.Bool.{Bool, true, false, not, ◌&&◌, ◌||◌}
use mathlib.Core.Option.{Option, none, some}
use mathlib.Core.List.{List, [], ◌∷◌}
use text.Mathlib.Text.{find?}
use integration_hub.Prelude.Tests.{◌==◌, string_eq, leb, nat_eqb, if◌then◌else◌}

-- `bool(s)`
abbrev pub nonempty : String → Bool
nonempty String.[] = false
nonempty (String.◌∷◌ c s) = true

-- `x or ""`
abbrev pub text_of : Option String → String
text_of none = ""
text_of (some s) = s

-- `a or b`, on texts.
abbrev pub either : String → String → String
either a b = if nonempty a then a else b

-- `x in (a, b, …)`
abbrev pub one_of : String → List String → Bool
one_of s [] = false
one_of s (x ∷ xs) = s == x || one_of s xs

-- `needle in s`
unfoldable pub contains : String → String → Bool
contains needle s = elim (find? s needle) [ none ↦ false | some at ↦ true ]

-- The character at the place in the second text where `c` stands in the first.
swap_char : String → String → Char → Char
swap_char (String.◌∷◌ a s) (String.◌∷◌ b t) c =
    if nat_eqb (code a) (code c) then b else swap_char s t c
swap_char _ _ c = c

-- `s.lower()`, on ASCII text.
unfoldable pub lower : String → String
unfolding swap_char
lower String.[] = String.[]
lower (String.◌∷◌ c s) =
    String.◌∷◌ (swap_char "ABCDEFGHIJKLMNOPQRSTUVWXYZ" "abcdefghijklmnopqrstuvwxyz" c) (lower s)

-- White space, among the ASCII characters.
unfoldable pub is_space : Char → Bool
is_space c = (leb 9 (code c) && leb (code c) 13) || (leb 28 (code c) && leb (code c) 32)

lstrip : String → String
lstrip String.[] = String.[]
lstrip (String.◌∷◌ c s) = let rest = lstrip s in if is_space c then rest else String.◌∷◌ c s

rstrip : String → String
rstrip String.[] = String.[]
rstrip (String.◌∷◌ c s) =
    let rest = rstrip s in
    if is_space c && not (nonempty rest) then String.[] else String.◌∷◌ c rest

-- `s.strip()`
unfoldable pub strip : String → String
unfolding lstrip rstrip is_space
strip s = rstrip (lstrip s)

-- `s.replace("Z", "+00:00")`
unfoldable pub replace_z : String → String
replace_z String.[] = String.[]
replace_z (String.◌∷◌ c s) =
    let rest = replace_z s in
    if nat_eqb (code c) 90 then str_append "+00:00" rest else String.◌∷◌ c rest

is_digit_char : Char → Bool
is_digit_char c = leb 48 (code c) && leb (code c) 57

all_digits : String → Bool
unfolding is_digit_char
all_digits String.[] = true
all_digits (String.◌∷◌ c s) = is_digit_char c && all_digits s

-- `s.isdigit()`, on ASCII text.
unfoldable pub is_digits : String → Bool
unfolding all_digits
is_digits s = nonempty s && all_digits s

int_from : ℕ → String → ℕ
int_from n String.[] = n
int_from n (String.◌∷◌ c s) = int_from (n * 10 + (code c - 48)) s

-- `int(s)` of a text that `isdigit` accepts.
unfoldable pub int_of : String → ℕ
unfolding int_from
int_of s = int_from 0 s

lower_active : lower "Active" ≡ "active"
unfolding lower
lower_active = refl

int_of_042 : int_of "042" ≡ 42
unfolding int_of
int_of_042 = refl

contains_404 : contains "404" "error 404: gone" ≡ true
unfolding contains
contains_404 = refl
