-- ===== src/Accounts/Json.antt =====
-- serde_json as crates/oxyris-claude/src/accounts.rs uses it: a parameter with the laws needed.
use oxyris.Prelude.{Text, Option, none, some, List, Result, ok, ◌≡◌, eq_text, if◌then◌else◌}
use oxyris.Prelude.Int.{ℤ}
use oxyris.Prelude.F64.{F64}

pub record Json : Type 1 where
  pub Value : Type 0
  pub Map : Type 0
  pub Error : Type 0
  pub from_str : Text → Result Error Value
  pub to_string_pretty : Value → Result Error Text
  -- `Value::Object`
  pub object : Map → Value
  pub as_object : Value → Option Map
  pub as_array : Value → Option (List Value)
  pub as_str : Value → Option Text
  -- Only of a number.
  pub as_i64 : Value → Option ℤ
  pub as_f64 : Value → Option F64
  -- `Map::new`, `Map::get` and `Map::insert`
  pub new : Map
  pub get : Map → Text → Option Value
  pub insert : Map → Text → Value → Map

pub record IsLawful (j : Json) : Type 0 where
  pub as_object-object : (m : j.Map) → j.as_object (j.object m) ≡ some m
  pub get-new : (k : Text) → j.get j.new k ≡ none
  pub get-insert :
      (m : j.Map) (k i : Text) (v : j.Value)
      → j.get (j.insert m k v) i ≡ (if eq_text i k then some v else j.get m i)
  -- What was printed reads back.
  pub from_str-to_string_pretty :
      (v : j.Value) (t : Text) → j.to_string_pretty v ≡ ok t → j.from_str t ≡ ok v
