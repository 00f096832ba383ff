-- ===== src/Json/Nested.antt =====
-- One JSON value inside another, at any depth.
use token_bank.Prelude.{String}
use token_bank.Json.{Json, Items, Fields, arr, obj, cons, field}

mutual
  pub data Within (x : Json) : Json → Type 0 where
    here : Within x x
    in_arr : {xs : Items} → WithinItems x xs → Within x (arr xs)
    in_obj : {fs : Fields} → WithinFields x fs → Within x (obj fs)

  pub data WithinItems (x : Json) : Items → Type 0 where
    item : {v : Json} {xs : Items} → Within x v → WithinItems x (cons v xs)
    later_item : {v : Json} {xs : Items} → WithinItems x xs → WithinItems x (cons v xs)

  pub data WithinFields (x : Json) : Fields → Type 0 where
    value : {k : String} {v : Json} {fs : Fields} → Within x v → WithinFields x (field k v fs)
    later_value :
        {k : String} {v : Json} {fs : Fields} → WithinFields x fs → WithinFields x (field k v fs)

-- An entry of a `dict`.
pub data HasEntry (k : String) (v : Json) : Fields → Type 0 where
  first : {fs : Fields} → HasEntry k v (field k v fs)
  next : {j : String} {u : Json} {fs : Fields} → HasEntry k v fs → HasEntry k v (field j u fs)
