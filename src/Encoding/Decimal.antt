-- ===== src/Encoding/Decimal.antt =====
-- `to_string()` of an unsigned integer and of a Boolean, and `join` of texts.
use stratum_bee.Base.{
  ltb, if◌then◌else◌, Text, codes, ℕ, zero, suc, ◌+◌, ◌/◌, ◌%◌, Bool, true, false, List, [], ◌∷◌,
  ◌++◌,
}

-- The digits of a number in front of a text, the last first; a 64-bit number has 20 at most.
unfoldable pub decimal_digits : ℕ → ℕ → Text → Text
decimal_digits zero n text = text
decimal_digits (suc fuel) n text =
    let rest = decimal_digits fuel (n / 10) ((b'0' + n % 10) ∷ text) in
    if ltb n 10 then (b'0' + n % 10) ∷ text else rest

unfoldable pub to_decimal : ℕ → Text
to_decimal n = decimal_digits 20 n []

abbrev pub bool_text : Bool → Text
bool_text true = codes "true"
bool_text false = codes "false"

-- `texts.join(separator)`
unfoldable pub join_texts : Text → List Text → Text
join_texts separator [] = []
join_texts separator (text ∷ []) = text
join_texts separator (text ∷ next ∷ texts) =
    text ++ (separator ++ join_texts separator (next ∷ texts))
