-- ===== src/Router/Validator/Scanning.antt =====
-- What the scan of router/route_plan_validator.py lets through.
use token_bank.Prelude.{String, ◌≡◌, refl, false, Option, none, some, arith}
use token_bank.Result.{Error}
use token_bank.Json.{Json, Items, Fields, str, arr, obj, nil, cons, end, field, get}
use token_bank.Json.Nested.{
  Within, WithinItems, WithinFields, here, in_arr, in_obj, item, later_item, value, later_value,
  HasEntry, first, next,
}
use token_bank.Text.{codes, key_codes}
use token_bank.Router.Validator.Shape.{
  Fragments, or_else, has_fragment, check_source, check_entry, check_text, scan, scan_items,
  scan_fields,
}

pub or_else-none : (a b : Option Error) → or_else a b ≡ none → (a ≡ none) × (b ≡ none)
or_else-none none b h = (refl, h)
or_else-none (some e) b h = cc

module _ (text_of : Json → String) (fragments : Fragments) where
  mutual
    unfolding scan

    scan-Within :
        (x v : Json)
        → scan text_of fragments v ≡ none
        → Within x v
        → scan text_of fragments x ≡ none
    scan-Within x v h here = h
    scan-Within x (arr xs) h (in_arr m) = scan_items-Within x xs h m
    scan-Within x (obj fs) h (in_obj m) =
        scan_fields-Within x fs
          (or_else-none (check_source (get fs "allowed_domains_source"))
            (scan_fields text_of fragments fs) h).1
          m

    scan_items-Within :
        (x : Json) (xs : Items)
        → scan_items text_of fragments xs ≡ none
        → WithinItems x xs
        → scan text_of fragments x ≡ none
    scan_items-Within x nil h m = elim m [ ]
    scan_items-Within x (cons v xs) h (item m) =
        scan-Within x v
          (or_else-none (scan text_of fragments v) (scan_items text_of fragments xs) h).0 m
    scan_items-Within x (cons v xs) h (later_item m) =
        scan_items-Within x xs
          (or_else-none (scan text_of fragments v) (scan_items text_of fragments xs) h).1 m

    scan_fields-Within :
        (x : Json) (fs : Fields)
        → scan_fields text_of fragments fs ≡ none
        → WithinFields x fs
        → scan text_of fragments x ≡ none
    scan_fields-Within x end h m = elim m [ ]
    scan_fields-Within x (field k v fs) h (value m) =
        scan-Within x v
          (or_else-none (scan text_of fragments v) (scan_fields text_of fragments fs)
            (or_else-none (check_entry text_of fragments k v) _ h).1).0
          m
    scan_fields-Within x (field k v fs) h (later_value m) =
        scan_fields-Within x fs
          (or_else-none (scan text_of fragments v) (scan_fields text_of fragments fs)
            (or_else-none (check_entry text_of fragments k v) _ h).1).1
          m

  entry_checked :
      (k : String) (u : Json) (fs : Fields)
      → scan_fields text_of fragments fs ≡ none
      → HasEntry k u fs
      → check_entry text_of fragments k u ≡ none
  unfolding scan
  entry_checked k u end h m = elim m [ ]
  entry_checked k u (field _ _ fs) h first =
      (or_else-none (check_entry text_of fragments k u) _ h).0
  entry_checked k u (field j v fs) h (next m) =
      entry_checked k u fs
        (or_else-none (scan text_of fragments v) (scan_fields text_of fragments fs)
          (or_else-none (check_entry text_of fragments j v) _ h).1).1
        m

  entry_allowed :
      (k : String) (u : Json)
      → check_entry text_of fragments k u ≡ none
      → has_fragment fragments.field_fragments (key_codes k) ≡ false
  unfolding check_entry
  entry_allowed k u h = ground arith

  text_allowed :
      (s : String)
      → check_text text_of fragments s ≡ none
      → has_fragment fragments.path_fragments (codes s) ≡ false
  unfolding check_text
  text_allowed s h = ground arith

  pub scan-key :
      (v u : Json) (fs : Fields) (k : String)
      → scan text_of fragments v ≡ none
      → Within (obj fs) v
      → HasEntry k u fs
      → has_fragment fragments.field_fragments (key_codes k) ≡ false
  unfolding scan
  scan-key v u fs k h m e = entry_allowed k u (
      entry_checked k u fs
        (or_else-none (check_source (get fs "allowed_domains_source"))
          (scan_fields text_of fragments fs) (scan-Within (obj fs) v h m)).1
        e)

  pub scan-text :
      (v : Json) (s : String)
      → scan text_of fragments v ≡ none
      → Within (str s) v
      → has_fragment fragments.path_fragments (codes s) ≡ false
  unfolding scan
  scan-text v s h m = text_allowed s (scan-Within (str s) v h m)
