-- ===== src/Router/Analyzer/Scans.antt =====
-- What `_workspace_scan_requested` of router/task_analyzer.py looks for, at any depth.
use token_bank.Prelude.{String, ◌≡◌, ◌↔◌, ◌⊎◌, inl, inr, refl, Bool, true, false, ◌||◌, ◌&&◌, arith}
use token_bank.Json.{
  Json, Items, Fields, null, bool, int, float, str, arr, obj, nil, cons, end, field, truthy,
}
use token_bank.Json.Nested.{
  Within, WithinItems, WithinFields, here, in_arr, in_obj, item, later_item, value, later_value,
  HasEntry, first, next,
}
use token_bank.Text.{codes, key_codes, contains_codes, same_codes}
use token_bank.Router.Analyzer.Shape.{
  asks_scan, workspace_scan_requested, scan_requested_items, scan_requested_fields,
}

abbrev Contains : String → String → Type 0
Contains fragment key = contains_codes (codes fragment) (key_codes key) ≡ true

abbrev Spells : String → String → Type 0
Spells word key = same_codes (codes word) (key_codes key) ≡ true

-- An entry whose key has both "workspace" and "scan" in it, or one whose key is "recursive" or
-- "recursive_scan" and whose value is truthy, in lower case and with `_` for `-`.
abbrev pub AsksByKey : String → Json → Type 0
AsksByKey key v =
    Contains "workspace" key × Contains "scan" key
    ⊎ (Spells "recursive" key ⊎ Spells "recursive_scan" key) × (truthy v ≡ true)

-- An entry of a `dict` inside the value, at any depth, that asks for a scan.
abbrev pub AsksScan : Json → Type 0
AsksScan v =
    (fs : Fields) × (k : String) × (u : Json) × Within (obj fs) v × HasEntry k u fs × AsksByKey k u

by_tests :
    (a b c d e : Bool)
    → ((a && b) || ((c || d) && e)) ≡ true
      ↔ ((a ≡ true) × (b ≡ true) ⊎ ((c ≡ true) ⊎ (d ≡ true)) × (e ≡ true))
by_tests a b c d e = (forth a b c d e, back a b c d e)
  where
    forth :
        (a b c d e : Bool)
        → ((a && b) || ((c || d) && e)) ≡ true
        → (a ≡ true) × (b ≡ true) ⊎ ((c ≡ true) ⊎ (d ≡ true)) × (e ≡ true)
    forth true true c d e h = inl (refl, refl)
    forth true false true d e h = inr (inl refl, h)
    forth true false false true e h = inr (inr refl, h)
    forth true false false false e h = cc
    forth false b true d e h = inr (inl refl, h)
    forth false b false true e h = inr (inr refl, h)
    forth false b false false e h = cc

    back :
        (a b c d e : Bool)
        → (a ≡ true) × (b ≡ true) ⊎ ((c ≡ true) ⊎ (d ≡ true)) × (e ≡ true)
        → ((a && b) || ((c || d) && e)) ≡ true
    back a b c d e (inl (p, q)) = ground arith
    back a b c d e (inr (inl p, q)) = ground arith
    back a b c d e (inr (inr p, q)) = ground arith

asks_scan-AsksByKey : (k : String) (v : Json) → asks_scan k v ≡ true ↔ AsksByKey k v
unfolding asks_scan
asks_scan-AsksByKey k v = by_tests _ _ _ _ _

either : (a b : Bool) → (a || b) ≡ true → (a ≡ true) ⊎ (b ≡ true)
either true b h = inl refl
either false b h = inr h

or-right : (a b : Bool) → b ≡ true → (a || b) ≡ true
or-right a b h = ground arith

or-first : (a b c : Bool) → a ≡ true → (a || b || c) ≡ true
or-first a b c h = ground arith

or-below : (a b c : Bool) → b ≡ true → (a || b || c) ≡ true
or-below a b c h = ground arith

or-later : (a b c : Bool) → c ≡ true → (a || b || c) ≡ true
or-later a b c h = ground arith

or-left : (a b : Bool) → a ≡ true → (a || b) ≡ true
or-left a b h = ground arith

-- an entry of one of these fields, or one deeper in their values
abbrev AsksFields : Fields → Type 0
AsksFields gs =
    ((k : String) × (u : Json) × HasEntry k u gs × AsksByKey k u)
    ⊎ ((fs : Fields) × (k : String) × (u : Json) × WithinFields (obj fs) gs
        × HasEntry k u fs
        × AsksByKey k u)

abbrev AsksItems : Items → Type 0
AsksItems xs =
    (fs : Fields) × (k : String) × (u : Json) × WithinItems (obj fs) xs
    × HasEntry k u fs
    × AsksByKey k u

later_entry : (j : String) (v : Json) (gs : Fields) → AsksFields gs → AsksFields (field j v gs)
later_entry j v gs (inl (k, u, e, asks)) = inl (k, u, next e, asks)
later_entry j v gs (inr (fs, k, u, m, e, asks)) = inr (fs, k, u, later_value m, e, asks)

mutual
  unfolding workspace_scan_requested

  found : (v : Json) → workspace_scan_requested v ≡ true → AsksScan v
  found null h = cc
  found (bool b) h = cc
  found (int n) h = cc
  found (float m k) h = cc
  found (str s) h = cc
  found (arr xs) h = let (fs, k, u, m, e, asks) = found_items xs h in (fs, k, u, in_arr m, e, asks)
  found (obj gs) h = elim (found_fields gs h) [
    | inl (k, u, e, asks) ↦ (gs, k, u, here, e, asks)
    | inr (fs, k, u, m, e, asks) ↦ (fs, k, u, in_obj m, e, asks)
  ]

  found_items : (xs : Items) → scan_requested_items xs ≡ true → AsksItems xs
  found_items nil h = cc
  found_items (cons v xs) h =
      elim (either (workspace_scan_requested v) (scan_requested_items xs) h) [
        | inl own ↦ let (fs, k, u, m, e, asks) = found v own in (fs, k, u, item m, e, asks)
        | inr later ↦
            let (fs, k, u, m, e, asks) = found_items xs later in (fs, k, u, later_item m, e, asks)
      ]

  found_fields : (gs : Fields) → scan_requested_fields gs ≡ true → AsksFields gs
  found_fields end h = cc
  found_fields (field j v gs) h =
      elim (either (asks_scan j v || workspace_scan_requested v) (scan_requested_fields gs) h) [
        | inl now ↦ elim (either (asks_scan j v) (workspace_scan_requested v) now) [
          | inl own ↦ inl (j, v, first, (asks_scan-AsksByKey j v).0 own)
          | inr below ↦
              let (fs, k, u, m, e, asks) = found v below in inr (fs, k, u, value m, e, asks)
        ]
        | inr later ↦ later_entry j v gs (found_fields gs later)
      ]

asked_entry :
    (k : String) (u : Json) (gs : Fields)
    → HasEntry k u gs
    → AsksByKey k u
    → scan_requested_fields gs ≡ true
unfolding workspace_scan_requested
asked_entry k u end m asks = elim m [ ]
asked_entry k u (field _ _ gs) first asks =
    or-first (asks_scan k u) (workspace_scan_requested u) (scan_requested_fields gs)
      ((asks_scan-AsksByKey k u).1 asks)
asked_entry k u (field j v gs) (next m) asks =
    or-later (asks_scan j v) (workspace_scan_requested v) (scan_requested_fields gs)
      (asked_entry k u gs m asks)

mutual
  unfolding workspace_scan_requested

  asked :
      (fs : Fields) (k : String) (u v : Json)
      → HasEntry k u fs
      → AsksByKey k u
      → Within (obj fs) v
      → workspace_scan_requested v ≡ true
  asked fs k u null e asks m = elim m [ ]
  asked fs k u (bool b) e asks m = elim m [ ]
  asked fs k u (int n) e asks m = elim m [ ]
  asked fs k u (float n d) e asks m = elim m [ ]
  asked fs k u (str t) e asks m = elim m [ ]
  asked fs k u (obj gs) e asks here = asked_entry k u fs e asks
  asked fs k u (arr xs) e asks (in_arr m) = asked_items fs k u xs e asks m
  asked fs k u (obj gs) e asks (in_obj m) = asked_fields fs k u gs e asks m

  asked_items :
      (fs : Fields) (k : String) (u : Json) (xs : Items)
      → HasEntry k u fs
      → AsksByKey k u
      → WithinItems (obj fs) xs
      → scan_requested_items xs ≡ true
  asked_items fs k u nil e asks m = elim m [ ]
  asked_items fs k u (cons v xs) e asks (item m) =
      or-left (workspace_scan_requested v) (scan_requested_items xs) (asked fs k u v e asks m)
  asked_items fs k u (cons v xs) e asks (later_item m) =
      or-right (workspace_scan_requested v) (scan_requested_items xs)
        (asked_items fs k u xs e asks m)

  asked_fields :
      (fs : Fields) (k : String) (u : Json) (gs : Fields)
      → HasEntry k u fs
      → AsksByKey k u
      → WithinFields (obj fs) gs
      → scan_requested_fields gs ≡ true
  asked_fields fs k u end e asks m = elim m [ ]
  asked_fields fs k u (field j v gs) e asks (value m) =
      or-below (asks_scan j v) (workspace_scan_requested v) (scan_requested_fields gs)
        (asked fs k u v e asks m)
  asked_fields fs k u (field j v gs) e asks (later_value m) =
      or-later (asks_scan j v) (workspace_scan_requested v) (scan_requested_fields gs)
        (asked_fields fs k u gs e asks m)

pub workspace_scan_requested-AsksScan : (v : Json) → workspace_scan_requested v ≡ true ↔ AsksScan v
workspace_scan_requested-AsksScan v =
    (found v, λ asks. let (fs, k, u, m, e, by) = asks in asked fs k u v e by m)
