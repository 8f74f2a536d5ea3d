-- ===== src/Contracts/Checks.antt =====
-- The helpers of the validators: `_bounded_text`, `_positive_int` and their like in
-- inference_runtime/contracts.py. An integer that must not be negative is a natural number. A check
-- raises the name of the field that it refuses, without the index of an element.
use llama.Prelude.{ℕ, not, Option, none, some, String, ◌==◌, is_identifier, Result, ok, raise_if}

abbrev pub Check : Type 0
Check = Result String (Unit {0})

-- `_bounded_text`
unfoldable pub bounded_text : String → String → ℕ → Check
unfolding is_identifier
bounded_text value field max_bytes = raise_if (not (is_identifier max_bytes value)) field

-- `_positive_int`
unfoldable pub positive_int : ℕ → String → Check
positive_int value field = raise_if (value == 0) field

-- `_optional_positive_int`
unfoldable pub optional_positive_int : Option ℕ → String → Check
unfolding positive_int
optional_positive_int none field = ok tt
optional_positive_int (some value) field = positive_int value field
