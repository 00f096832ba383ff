-- ===== src/Json.antt =====
-- The values that `json` reads and writes, as the control plane's Python sees them: `dict`, `list`,
-- `str`, `int`, `float`, `bool` and `None`. A finite float is a dyadic rational: `float m k` is
-- m / 2 ^ k. A `dict` has each key once, in insertion order.
pub mod Equality
pub mod Nested
use token_bank.Prelude.{
  ℕ, String, Bool, true, false, not, ◌||◌, Option, none, some, List, [], ◌∷◌, str_eq, if◌then◌else◌,
}
use token_bank.Prelude.Int.{ℤ, pos, is_zero}

mutual
  pub data Json : Type 0 where
    null : Json
    bool : Bool → Json
    int : ℤ → Json
    float : ℤ → ℕ → Json
    str : String → Json
    arr : Items → Json
    obj : Fields → Json

  pub data Items : Type 0 where
    nil : Items
    cons : Json → Items → Items

  pub data Fields : Type 0 where
    end : Fields
    field : String → Json → Fields → Fields

-- `d.get(key)`, where a missing key and `None` are one
unfoldable pub get : Fields → String → Json
get end key = null
get (field k v rest) key = if str_eq k key then v else get rest key

-- `key in d`
unfoldable pub has_key : Fields → String → Bool
has_key end key = false
has_key (field k v rest) key = (str_eq k key) || has_key rest key

-- `d.get(key, default)`
unfoldable pub get_or : Fields → String → Json → Json
get_or end key default = default
get_or (field k v rest) key default = if str_eq k key then v else get_or rest key default

-- `bool(value)`
unfoldable pub truthy : Json → Bool
truthy null = false
truthy (bool b) = b
truthy (int n) = not (is_zero n)
truthy (float m k) = not (is_zero m)
truthy (str s) = not (str_eq s "")
truthy (arr nil) = false
truthy (arr (cons x xs)) = true
truthy (obj end) = false
truthy (obj (field k v rest)) = true

abbrev pub items : Items → List Json
items nil = []
items (cons x xs) = x ∷ items xs

-- The object with these entries, written as `{k: v, ...}`.
abbrev pub fields : List (String × Json) → Fields
fields [] = end
fields ((k, v) ∷ rest) = field k v (fields rest)

-- the list of these texts
abbrev pub texts : List String → Items
texts [] = nil
texts (t ∷ ts) = cons (str t) (texts ts)

abbrev pub nat : ℕ → Json
nat n = int (pos n)

abbrev pub opt_str : Option String → Json
opt_str none = null
opt_str (some s) = str s
