-- ===== src/Image/Json.antt =====
-- The values that `json.loads` returns, and Python's `==` of such a value with those that
-- firmware/family/image_metadata.py compares it with.
use thermocouple.Prelude.{
  ℕ, ◌*◌, ◌^◌, Bool, true, false, ◌&&◌, ◌||◌, Option, none, some, List, [], ◌∷◌, Text, text_eq,
  ◌==◌, if◌then◌else◌,
}
use thermocouple.Image.Failure.{Result, ok, err, key_error, type_error}

-- `int` is a whole number and `negative n` is -(n + 1). A finite float is m / 2 ^ e, or its
-- negative; the other floats are `nonfinite`. The fields of an object are those of a dict: an
-- entry further down with the same key does not count.
mutual
  pub data Json : Type 0 where
    null nonfinite : Json
    bool : Bool → Json
    int negative : ℕ → Json
    float negative_float : ℕ → ℕ → Json
    text : Text → Json
    array : Items → Json
    object : Fields → Json

  pub data Items : Type 0 where
    nil : Items
    cons : Json → Items → Items

  pub data Fields : Type 0 where
    end : Fields
    field : Text → Json → Fields → Fields

-- value == n, where True is 1, False is 0 and -0.0 is 0
unfoldable pub eq_int : Json → ℕ → Bool
eq_int (bool b) n = (if b then 1 else 0) == n
eq_int (int m) n = m == n
eq_int (float m e) n = m == n * 2 ^ e
eq_int (negative_float m e) n = m == 0 && n == 0
eq_int _ n = false

-- value == b, for a bool b
unfoldable pub eq_bool : Json → Bool → Bool
unfolding eq_int
eq_bool value b = eq_int value (if b then 1 else 0)

-- value == s, for a str s
unfoldable pub eq_text : Json → Text → Bool
unfolding text_eq
eq_text (text t) s = text_eq t s
eq_text _ s = false

unfoldable pub get : Text → Fields → Option Json
unfolding text_eq
get k end = none
get k (field j v rest) = if text_eq j k then some v else get k rest

or_key_error : Option Json → Result Json
or_key_error none = err key_error
or_key_error (some v) = ok v

-- value[k], for a str k
unfoldable pub item : Json → Text → Result Json
unfolding get or_key_error
item (object fields) k = or_key_error (get k fields)
item _ k = err type_error

-- Every key is one of `allowed`.
unfoldable pub mem_text : Text → List Text → Bool
unfolding text_eq
mem_text k [] = false
mem_text k (t ∷ ts) = text_eq t k || mem_text k ts

unfoldable pub keys_among : List Text → Fields → Bool
unfolding mem_text
keys_among allowed end = true
keys_among allowed (field k v rest) = mem_text k allowed && keys_among allowed rest
