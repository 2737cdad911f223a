-- ===== src/Cdvi/Hex.antt =====
-- Numbers as hexadecimal text, and places in lists. A text is the list of its characters' codes.
use integration_hub.Prelude.{
  ℕ, zero, suc, ◌+◌, ◌-◌, ◌*◌, ◌/◌, ◌%◌, ◌<◌, ◌≡◌, refl, ap, false, ◌&&◌, Option, none, some, List,
  [], ◌∷◌, if◌then◌else◌, ltb, leb, nat_eqb, arith,
}

module _ {ℓ} {A : Type ℓ} where
  -- `s[i]`, at a place that there is.
  abbrev pub get_or : A → List A → ℕ → A
  get_or d [] i = d
  get_or d (x ∷ xs) zero = x
  get_or d (x ∷ xs) (suc i) = get_or d xs i

  -- `s[i] = v`, at a place that there is.
  abbrev pub set : List A → ℕ → A → List A
  set [] i v = []
  set (x ∷ xs) zero v = v ∷ xs
  set (x ∷ xs) (suc i) v = x ∷ set xs i v

-- A digit of `f"{n:X}"`.
unfoldable pub hex_digit : ℕ → ℕ
hex_digit n = if ltb n 10 then 48 + n else 55 + n

-- The value of a hexadecimal digit, of either case.
unfoldable pub digit_value : ℕ → Option ℕ
digit_value c =
    if leb 48 c && leb c 57
    then some (c - 48)
    else if leb 65 c && leb c 70
    then some (c - 55)
    else if leb 97 c && leb c 102
    then some (c - 87)
    else none

-- `f"{n:02X}"` of a byte.
unfoldable pub hex_byte : ℕ → List ℕ
unfolding hex_digit
hex_byte n = hex_digit (n / 16) ∷ hex_digit (n % 16) ∷ []

-- `f"{n:04X}"` of a number of 16 bits.
unfoldable pub hex_word : ℕ → List ℕ
unfolding hex_digit
hex_word n =
    hex_digit (n / 4096)
    ∷ hex_digit (n / 256 % 16)
    ∷ hex_digit (n / 16 % 16)
    ∷ hex_digit (n % 16)
    ∷ []

unfoldable pub int16_from : ℕ → List ℕ → Option ℕ
unfolding digit_value
int16_from acc [] = some acc
int16_from acc (c ∷ cs) = elim (digit_value c) [
  | none ↦ none
  | some d ↦ int16_from (acc * 16 + d) cs
]

-- `int(s, 16)`, where `none` is a ValueError. Python's also accepts blanks at the ends, a sign, a
-- prefix `0x` and single underscores, which are taken for malformed here.
unfoldable pub int16 : List ℕ → Option ℕ
unfolding int16_from
int16 [] = none
int16 (c ∷ cs) = int16_from 0 (c ∷ cs)

pub digit_value-hex_digit : (n : ℕ) → n < 16 → digit_value (hex_digit n) ≡ some n
unfolding digit_value hex_digit
digit_value-hex_digit n h = ground arith

int16-cons : (c : ℕ) (cs : List ℕ) → int16 (c ∷ cs) ≡ int16_from 0 (c ∷ cs)
unfolding int16
int16-cons c cs = refl

int16_from-hex_digit :
    (acc n : ℕ) (cs : List ℕ)
    → n < 16
    → int16_from acc (hex_digit n ∷ cs) ≡ int16_from (acc * 16 + n) cs
unfolding int16_from
int16_from-hex_digit acc n cs h = cc (digit_value-hex_digit n h)

int16_from-nil : (acc : ℕ) → int16_from acc [] ≡ some acc
unfolding int16_from
int16_from-nil acc = refl

pub int16-hex_byte : (n : ℕ) → n < 256 → int16 (hex_byte n) ≡ some n
unfolding hex_byte
int16-hex_byte n h =
    rw
      (
        int16-cons,
        int16_from-hex_digit 0 (n / 16) (hex_digit (n % 16) ∷ []) (omega arith),
        int16_from-hex_digit (0 * 16 + n / 16) (n % 16) [] (omega arith),
        int16_from-nil,
      )
      (ap some (omega arith))

pub int16-hex_word : (n : ℕ) → n < 65536 → int16 (hex_word n) ≡ some n
unfolding hex_word
int16-hex_word n h =
    simp
      (
        int16-cons,
        int16_from-hex_digit _ (n / 4096) _ (omega arith),
        int16_from-hex_digit _ (n / 256 % 16) _ (omega arith),
        int16_from-hex_digit _ (n / 16 % 16) _ (omega arith),
        int16_from-hex_digit _ (n % 16) _ (omega arith),
        int16_from-nil,
      )
      (ap some (omega arith))

-- No hexadecimal digit is the sign `&`.
pub hex_digit-ne-ampersand : (n : ℕ) → nat_eqb 38 (hex_digit n) ≡ false
unfolding hex_digit
hex_digit-ne-ampersand n = ground arith
