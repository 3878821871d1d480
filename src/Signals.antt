-- ===== src/Signals.antt =====
-- crates/levshell-context/src/signals.rs: the typed signals that rules are evaluated against.
-- A number is an f64, which the program takes from the language: its type `N` is a parameter.
use levshell.Prelude.{
  Text, Assoc, bytes, lookup, insert, remove, Bool, Option, none, some, List, [],
}

pub data SignalValue (N : Type 0) : Type 0 where
  bool : Bool → SignalValue N
  number : N → SignalValue N
  string : Text → SignalValue N
  string_list : List Text → SignalValue N

module _ {N : Type 0} where
  unfoldable pub as_bool : SignalValue N → Option Bool
  as_bool (bool b) = some b
  as_bool _ = none

  unfoldable pub as_number : SignalValue N → Option N
  as_number (number n) = some n
  as_number _ = none

  unfoldable pub as_str : SignalValue N → Option Text
  as_str (string s) = some s
  as_str _ = none

  unfoldable pub as_string_list : SignalValue N → Option (List Text)
  as_string_list (string_list v) = some v
  as_string_list _ = none

  unfoldable pub type_name : SignalValue N → Text
  type_name (bool b) = bytes "bool"
  type_name (number n) = bytes "number"
  type_name (string s) = bytes "string"
  type_name (string_list v) = bytes "string_list"

pub record SignalContext (N : Type 0) : Type 0 where
  pub values : Assoc (SignalValue N)

module _ {N : Type 0} where
  unfoldable pub new : SignalContext N
  new = record { values = [] }

  -- The old value is the second part.
  unfoldable pub set :
      Text → SignalValue N → SignalContext N → SignalContext N × Option (SignalValue N)
  set key value ctx = (record { values = insert key value ctx.values }, lookup key ctx.values)

  unfoldable pub remove_signal : Text → SignalContext N → SignalContext N × Option (SignalValue N)
  remove_signal key ctx = (record { values = remove key ctx.values }, lookup key ctx.values)

  unfoldable pub get : SignalContext N → Text → Option (SignalValue N)
  get ctx key = lookup key ctx.values
