-- ===== src/Json.antt =====
-- The JSON of the API's messages, and how `serde` reads the fields of a struct from an object, as
-- its derived `Serialize` and `Deserialize` are documented.
use Prim.Native.String.{◌++◌}
use spark_plug.Common.{ℤ, String, Bool, Option, none, some, List, Result, ok, err, ◌>>=◌, ok_or}
use spark_plug.Map.{Map, get}

-- The values that a message has: the objects and arrays in it hold texts.
pub data Json : Type 0 where
  null : Json
  boolean : Bool → Json
  number : ℤ → Json
  text : String → Json
  texts : List String → Json
  object : Map String → Json

abbrev pub optional : {A : Type 0} → (A → Json) → Option A → Json
optional f none = null
optional f (some a) = f a

abbrev pub as_bool : Json → Result String Bool
as_bool (boolean b) = ok b
as_bool _ = err "invalid type"

abbrev pub as_int : Json → Result String ℤ
as_int (number n) = ok n
as_int _ = err "invalid type"

abbrev pub as_text : Json → Result String String
as_text (text s) = ok s
as_text _ = err "invalid type"

abbrev pub as_texts : Json → Result String (List String)
as_texts (texts ss) = ok ss
as_texts _ = err "invalid type"

abbrev pub as_object : Json → Result String (Map String)
as_object (object m) = ok m
as_object _ = err "invalid type"

-- A field of an `Option` may be null.
abbrev pub or_null : {A : Type 0} → (Json → Result String A) → Json → Result String (Option A)
or_null f null = ok none
or_null f j = do a ← f j; ok (some a)

-- A field that has to be there, and one of an `Option`, which may be missing.
abbrev pub required : {A : Type 0} → (Json → Result String A) → Map Json → String → Result String A
required f m key = do j ← ok_or (get m key) ("missing field `" ++ (key ++ "`")); f j

abbrev pub option_of :
    {A : Type 0} → (Json → Result String A) → Option Json → Result String (Option A)
option_of f none = ok none
option_of f (some j) = or_null f j

abbrev pub may_lack :
    {A : Type 0} → (Json → Result String A) → Map Json → String → Result String (Option A)
may_lack f m key = option_of f (get m key)
