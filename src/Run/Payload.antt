-- ===== src/Run/Payload.antt =====
-- Event payloads, which are JSON objects, and identifiers: agent_runtime/ids.py, and what
-- agent_runtime/reducer.py reads from a payload.
use Prim.Native.String.{len}
use llama.Prelude.{
  is_identifier, ℕ, suc, Bool, true, false, not, Option, none, some, String, String_discrete, ◌==◌,
  ite,
}
use llama.Prelude.Dict
use llama.Prelude.Dict.{Dict}
use llama.Prelude.Int.{ℤ, pos, negsuc}

-- A JSON value as Python reads it. A number with a point is `m * 10 ^ -e`.
mutual
  -- The members of an object, in their order
  pub data Fields : Type 0 where
    field : String → Value → Fields → Fields
    no_fields : Fields

  pub data Items : Type 0 where
    item : Value → Items → Items
    no_items : Items

  pub data Value : Type 0 where
    str : String → Value
    int : ℤ → Value
    decimal : ℤ → ℕ → Value
    bool : Bool → Value
    null : Value
    object : Fields → Value
    array : Items → Value

abbrev pub Payload : Type 0
Payload = Dict String Value

-- `payload.get(name)`
unfoldable pub lookup : String → Payload → Option Value
lookup name p = Dict.get String_discrete name p

-- The value, if it is a `str`.
abbrev pub as_text : Option Value → Option String
as_text (some (str s)) = some s
as_text _ = none

-- The value, if its type is `int` (which `bool` is not) and it is not negative.
abbrev pub as_count : Option Value → Option ℕ
as_count (some (int (pos n))) = some n
as_count _ = none

-- The value, if its type is `bool`.
abbrev pub as_bool : Option Value → Option Bool
as_bool (some (bool b)) = some b
as_bool _ = none

unfoldable pub text : String → Payload → Option String
unfolding lookup
text name p = as_text (lookup name p)

unfoldable pub count : String → Payload → Option ℕ
unfolding lookup
count name p = as_count (lookup name p)

abbrev zero_int : ℤ → Bool
zero_int (pos n) = n == 0
zero_int (negsuc n) = false

-- `bool(value)`
abbrev truth : Option Value → Bool
truth none = false
truth (some null) = false
truth (some (bool b)) = b
truth (some (int n)) = not (zero_int n)
truth (some (decimal m e)) = not (zero_int m)
truth (some (str s)) = not (len s == 0)
truth (some (array no_items)) = false
truth (some (array (item v vs))) = true
truth (some (object no_fields)) = false
truth (some (object (field k v fs))) = true

unfoldable pub truthy : String → Payload → Bool
unfolding lookup
truthy name p = truth (lookup name p)

-- Whether `validate_identifier` accepts a text.
unfoldable pub valid_identifier : String → Bool
unfolding is_identifier
valid_identifier s = is_identifier 128 s

unfoldable pub find_field : String → Fields → Option Value
find_field name no_fields = none
find_field name (field k v fs) = ite (String_discrete k name) (some v) (find_field name fs)

unfoldable pub field_count : Fields → ℕ
field_count no_fields = 0
field_count (field k v fs) = suc (field_count fs)
