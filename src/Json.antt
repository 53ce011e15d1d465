-- ===== src/Json.antt =====
-- The JSON text that `_canonical_json` (better_hermes_hindsight/retention.py) writes: `json.dumps`
-- with `ensure_ascii=False`, compact separators and sorted keys, on the values that the retention
-- code hands it.
use better_hermes_hindsight.Common.{
  ℕ, zero, suc, ◌+◌, ◌-◌, ◌/◌, ◌%◌, ◌≡◌, [], ◌∷◌, ◌++◌, ltb, ◌==◌, if◌then◌else◌, Text, codes, refl,
}

mutual
  pub data JsonValue : Type 0 where
    text : Text → JsonValue
    number : ℕ → JsonValue
    array : JsonItems → JsonValue
    object : JsonFields → JsonValue

  pub data JsonItems : Type 0 where
    no_items : JsonItems
    item : JsonValue → JsonItems → JsonItems

  -- The fields stand in the order of their keys, which is the order that `sort_keys` writes.
  pub data JsonFields : Type 0 where
    no_fields : JsonFields
    field : Text → JsonValue → JsonFields → JsonFields

abbrev hex_digit : ℕ → ℕ
hex_digit d = if ltb d 10 then b'0' + d else b'a' + (d - 10)

-- One character of a JSON string. Only `"`, `\` and the control characters are escaped.
unfoldable pub escape_char : ℕ → Text
escape_char c =
    if c == b'"'
    then codes "\\\""
    else if c == 92
    then codes "\\\\"
    else if c == 10
    then codes "\\n"
    else if c == 13
    then codes "\\r"
    else if c == 9
    then codes "\\t"
    else if c == 8
    then codes "\\b"
    else if c == 12
    then codes "\\f"
    else if ltb c 0x20
    then codes "\\u00" ++ hex_digit (c / 16) ∷ hex_digit (c % 16) ∷ []
    else c ∷ []

unfoldable pub escape : Text → Text
unfolding escape_char
escape [] = []
escape (c ∷ s) = escape_char c ++ escape s

unfoldable pub quoted : Text → Text
unfolding escape
quoted s = b'"' ∷ (escape s ++ b'"' ∷ [])

-- The decimal digits, on fuel above the number.
decimal_fuel : ℕ → ℕ → Text → Text
decimal_fuel zero n acc = acc
decimal_fuel (suc fuel) n acc =
    let digits = (b'0' + n % 10) ∷ acc in
    let more = decimal_fuel fuel (n / 10) digits in if ltb n 10 then digits else more

unfoldable pub decimal : ℕ → Text
unfolding decimal_fuel
decimal n = decimal_fuel (suc n) n []

abbrev pub comma : Text
comma = b',' ∷ []

unfoldable mutual
  unfolding quoted decimal

  pub canonical_json : JsonValue → Text
  canonical_json (text s) = quoted s
  canonical_json (number n) = decimal n
  canonical_json (array xs) = b'[' ∷ (canonical_items xs ++ b']' ∷ [])
  canonical_json (object fs) = b'{' ∷ (canonical_fields fs ++ b'}' ∷ [])

  pub canonical_items : JsonItems → Text
  canonical_items no_items = []
  canonical_items (item x no_items) = canonical_json x
  canonical_items (item x (item y ys)) = canonical_json x ++ comma ++ canonical_items (item y ys)

  pub canonical_fields : JsonFields → Text
  canonical_fields no_fields = []
  canonical_fields (field k v no_fields) = quoted k ++ b':' ∷ canonical_json v
  canonical_fields (field k v (field j w rest)) =
      quoted k ++ (b':' ∷ canonical_json v) ++ comma ++ canonical_fields (field j w rest)

decimal-zero : decimal 0 ≡ codes "0"
unfolding decimal
decimal-zero = refl
