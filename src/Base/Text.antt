-- ===== src/Base/Text.antt =====
-- What the program uses of Python's `str` and `UUID`.
use Prim.Native.Nat.{ℕ, suc, zero, ◌/◌, ◌%◌, ◌^◌, Ordering}
use Prim.Native.Char.{code}
use Prim.Native.String.{String, compare, ◌++◌}
use text.Mathlib.Text.{◌==◌ as str_eq}
use mathlib.Core.Path.{◌≡◌, refl}
use mathlib.Core.Bool.{Bool, true, false, ◌&&◌, ◌||◌}
use mathlib.Core.List.{List, [], ◌∷◌}
use multi_agent_aircraft_dev.Base.Booleans.{leb, if◌then◌else◌}
use multi_agent_aircraft_dev.Base.Equality.{nat_beq}

-- The code points that Python counts as white space (`str.isspace`).
is_space : ℕ → Bool
is_space c =
    (leb 9 c && leb c 13)
    || (leb 28 c && leb c 32)
    || nat_beq c 133
    || nat_beq c 160
    || nat_beq c 5760
    || (leb 8192 c && leb c 8202)
    || nat_beq c 8232
    || nat_beq c 8233
    || nat_beq c 8239
    || nat_beq c 8287
    || nat_beq c 12288

-- `not text.strip()`
unfoldable pub is_blank : String → Bool
unfolding is_space
is_blank String.[] = true
is_blank (String.◌∷◌ c s) = is_space (code c) && is_blank s

-- `len(text)`: the number of code points
abbrev pub text_length : String → ℕ
text_length String.[] = 0
text_length (String.◌∷◌ c s) = suc (text_length s)

-- `a <= b`: Python compares texts by code points.
unfoldable pub text_le : String → String → Bool
text_le a b = elim (compare a b) [ Ordering.gt ↦ false | _ ↦ true ]

-- `a + b`
abbrev pub join : String → String → String
join a b = a ++ b

digit_text : List String → ℕ → String
digit_text [] d = ""
digit_text (t ∷ ts) zero = t
digit_text (t ∷ ts) (suc d) = digit_text ts d

abbrev hex_digits : List String
hex_digits =
    "0" ∷ "1" ∷ "2" ∷ "3" ∷ "4" ∷ "5" ∷ "6" ∷ "7" ∷ "8" ∷ "9" ∷ "a" ∷ "b" ∷ "c" ∷ "d" ∷ "e" ∷ "f"
    ∷ []

-- the last digits of a number, in base 16
hex_text : ℕ → ℕ → String
unfolding digit_text
hex_text zero n = ""
hex_text (suc k) n = hex_text k (n / 16) ++ digit_text hex_digits (n % 16)

-- `str(id)` of a UUID, which is kept as its 128-bit value
unfoldable pub uuid_text : ℕ → String
unfolding hex_text
uuid_text n =
    hex_text 8 (n / 16 ^ 24)
    ++ ("-"
        ++ (hex_text 4 (n / 16 ^ 20)
            ++ ("-"
                ++ (hex_text 4 (n / 16 ^ 16)
                    ++ ("-" ++ (hex_text 4 (n / 16 ^ 12) ++ ("-" ++ hex_text 12 n)))))))

uuid_text_sample :
    uuid_text 0x12345678123456781234567812345678 ≡ "12345678-1234-5678-1234-567812345678"
unfolding uuid_text
uuid_text_sample = refl

-- `a <= b` on tuples of texts
unfoldable pub texts_le : List String → List String → Bool
unfolding text_le
texts_le [] bs = true
texts_le (a ∷ xs) [] = false
texts_le (a ∷ xs) (b ∷ ys) = let rest = texts_le xs ys in if str_eq a b then rest else text_le a b
