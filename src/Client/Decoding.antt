-- ===== src/Client/Decoding.antt =====
-- JSON values as `encoding/json` reads and writes them, and its decoding into a struct with one field:
-- every key that matches the field's tag sets it, the last one stays, and null sets nothing.
use mcp_moqt_transport.Base.{ℕ, Bool, true, false, String}
use mcp_moqt_transport.Errors.{Error, Result, ok, err}

mutual
  pub data Json : Type 0 where
    null : Json
    boolean : Bool → Json
    number : ℕ → Json
    string : String → Json
    array : Items → Json
    object : Fields → Json

  pub data Items : Type 0 where
    nil : Items
    cons : Json → Items → Items

  pub data Fields : Type 0 where
    end : Fields
    field : String → Json → Fields → Fields

-- The decoder reads a value over what the field had before. `mismatch` is its `UnmarshalTypeError`.
module _ (matches : String → String → Bool) (mismatch : Error) where
  unfoldable pub read_string : Json → String → Result String
  read_string null old = ok old
  read_string (string s) old = ok s
  read_string (boolean b) old = err mismatch
  read_string (number n) old = err mismatch
  read_string (array xs) old = err mismatch
  read_string (object fs) old = err mismatch

  unfoldable pub read_fields :
      String → (Json → String → Result String) → Fields → String → Result String
  read_fields tag read end old = ok old
  read_fields tag read (field key v fs) old = elim (matches key tag) [
    | false ↦ read_fields tag read fs old
    | true ↦ elim (read v old) [ err e ↦ err e | ok new ↦ read_fields tag read fs new ]
  ]

  unfoldable pub read_struct :
      String → (Json → String → Result String) → Json → String → Result String
  unfolding read_fields
  read_struct tag read null old = ok old
  read_struct tag read (object fs) old = read_fields tag read fs old
  read_struct tag read (boolean b) old = err mismatch
  read_struct tag read (number n) old = err mismatch
  read_struct tag read (string s) old = err mismatch
  read_struct tag read (array xs) old = err mismatch
