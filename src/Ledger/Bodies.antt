-- ===== src/Ledger/Bodies.antt =====
-- The fields of a stored body: `body[key]`, and what pydantic makes of a value for a text field.
use token_bank.Prelude.{String, Bool, true, false, not, Option, none, some, List, [], str_eq}
use token_bank.Result.{key_error, type_error, validation_error}
use token_bank.Exec.{Exec, pure, raise, raise_if, ◌>>=◌, ◌>>◌}
use token_bank.Json.{
  Json, Items, Fields, null, bool, int, float, str, arr, obj, end, nil, cons, get, has_key, get_or,
}
use token_bank.World.{World}
use token_bank.Session.{Session}

-- a body, which is a `dict`
abbrev pub dict_of : Json → Fields
dict_of (obj fs) = fs
dict_of _ = end

-- body[key]
unfoldable pub need : Fields → String → Exec Session Json
unfolding get has_key
need body key = do raise_if (not (has_key body key)) key_error; pure (get body key)

-- what a `for` loop accepts: a list, and a text or a `dict`, whose items are texts
unfoldable pub is_iterable : Json → Bool
is_iterable null = false
is_iterable (bool b) = false
is_iterable (int n) = false
is_iterable (float m k) = false
is_iterable _ = true

unfoldable pub dicts_in : Items → List Fields
dicts_in nil = []
dicts_in (cons (obj fs) xs) = List.◌∷◌ fs (dicts_in xs)
dicts_in (cons _ xs) = dicts_in xs

-- the `dict`s among the items
unfoldable pub list_dicts : Json → List Fields
unfolding dicts_in
list_dicts (arr xs) = dicts_in xs
list_dicts _ = []

-- `[item for item in body.get(key, []) if isinstance(item, dict)]`
unfoldable pub dicts_at : Fields → String → Exec Session (List Fields)
unfolding is_iterable list_dicts get_or
dicts_at body key = do
  raise_if (not (is_iterable (get_or body key (arr nil)))) type_error
  pure (list_dicts (get_or body key (arr nil)))

-- `isinstance(value, str) and value`
unfoldable pub is_filled : Json → Bool
is_filled (str s) = not (str_eq s "")
is_filled _ = false

module _ (w : World) where
  -- a `NonEmptyStr` field
  unfoldable pub non_empty : Json → Exec Session String
  non_empty (str s) = do
    raise_if (str_eq (w.strip_text s) "") validation_error
    pure (w.strip_text s)
  non_empty _ = raise validation_error

  -- a field of type `NonEmptyStr | None`
  unfoldable pub opt_non_empty : Json → Exec Session (Option String)
  unfolding non_empty
  opt_non_empty null = pure none
  opt_non_empty v = do s ← non_empty v; pure (some s)

  -- a field of type `str | None`
  unfoldable pub opt_text : Json → Exec Session (Option String)
  opt_text null = pure none
  opt_text (str s) = pure (some (w.strip_text s))
  opt_text _ = raise validation_error
