-- ===== src/Router/Analyzer/Shape.antt =====
-- The shape of an input in router/task_analyzer.py: `input_shape_for_work_unit` and what it counts.
use token_bank.Prelude.{
  ℕ, ◌+◌, String, Bool, false, ◌||◌, ◌&&◌, List, [], ◌∷◌, map, max, ltb, ◌==◌, if◌then◌else◌,
}
use token_bank.Json.{
  Json, Items, Fields, null, bool, int, float, str, arr, obj, nil, cons, end, field, truthy,
}
use token_bank.Text.{
  codes, key_code, key_codes, starts_codes, contains_codes, same_codes, ends_codes,
}
use token_bank.Router.Tokens.{text_length, items_length}

-- text.count(fragment), for a fragment no two of which can overlap
unfoldable pub count_codes : List ℕ → List ℕ → ℕ
unfolding starts_codes
count_codes fragment [] = 0
count_codes fragment (c ∷ s) =
    let rest = count_codes fragment s in if starts_codes fragment (c ∷ s) then 1 + rest else rest

unfoldable mutual
  unfolding count_codes codes

  -- _count_urls
  pub count_urls : Json → ℕ
  count_urls null = 0
  count_urls (bool b) = 0
  count_urls (int n) = 0
  count_urls (float m k) = 0
  count_urls (str s) =
      count_codes (codes "http://") (codes s) + count_codes (codes "https://") (codes s)
  count_urls (arr xs) = count_urls_items xs
  count_urls (obj fs) = count_urls_fields fs

  pub count_urls_items : Items → ℕ
  count_urls_items nil = 0
  count_urls_items (cons v xs) = count_urls v + count_urls_items xs

  pub count_urls_fields : Fields → ℕ
  count_urls_fields end = 0
  count_urls_fields (field k v fs) = count_urls v + count_urls_fields fs

-- str(key).lower(), as far as the texts that are looked for need it
unfoldable pub lower_codes : String → List ℕ
unfolding key_code codes
lower_codes key = map (λ c. if c == b'-' then c else key_code c) (codes key)

-- a text under a key that names a path or a file
unfoldable pub is_file_ref : String → Json → Bool
unfolding lower_codes ends_codes same_codes codes
is_file_ref key (str s) =
    ends_codes (codes "_path") (lower_codes key)
    || ends_codes (codes "_file") (lower_codes key)
    || same_codes (codes "path") (lower_codes key)
    || same_codes (codes "file") (lower_codes key)
is_file_ref key _ = false

unfoldable mutual
  unfolding is_file_ref

  -- _count_file_refs
  pub count_file_refs : Json → ℕ
  count_file_refs (arr xs) = count_file_refs_items xs
  count_file_refs (obj fs) = count_file_refs_fields fs
  count_file_refs _ = 0

  pub count_file_refs_items : Items → ℕ
  count_file_refs_items nil = 0
  count_file_refs_items (cons v xs) = count_file_refs v + count_file_refs_items xs

  pub count_file_refs_fields : Fields → ℕ
  count_file_refs_fields end = 0
  count_file_refs_fields (field k v fs) =
      let rest = count_file_refs v + count_file_refs_fields fs in
      if is_file_ref k v then 1 + rest else rest

unfoldable mutual
  -- _json_depth
  pub json_depth : Json → ℕ
  json_depth (arr xs) = 1 + depth_items xs
  json_depth (obj fs) = 1 + depth_fields fs
  json_depth _ = 1

  -- the greatest depth, and 0 where there is nothing
  pub depth_items : Items → ℕ
  depth_items nil = 0
  depth_items (cons v xs) = max (json_depth v) (depth_items xs)

  pub depth_fields : Fields → ℕ
  depth_fields end = 0
  depth_fields (field k v fs) = max (json_depth v) (depth_fields fs)

unfoldable mutual
  -- _list_items_count
  pub list_items_count : Json → ℕ
  list_items_count (arr xs) = items_length xs + list_items_sum xs
  list_items_count (obj fs) = list_items_fields fs
  list_items_count _ = 0

  pub list_items_sum : Items → ℕ
  list_items_sum nil = 0
  list_items_sum (cons v xs) = list_items_count v + list_items_sum xs

  pub list_items_fields : Fields → ℕ
  list_items_fields end = 0
  list_items_fields (field k v fs) = list_items_count v + list_items_fields fs

-- an entry that asks for a scan of the workspace by its key
unfoldable pub asks_scan : String → Json → Bool
unfolding key_codes codes contains_codes same_codes truthy
asks_scan key v =
    (contains_codes (codes "workspace") (key_codes key)
      && contains_codes (codes "scan") (key_codes key))
    || ((same_codes (codes "recursive") (key_codes key)
          || same_codes (codes "recursive_scan") (key_codes key))
        && truthy v)

unfoldable mutual
  unfolding asks_scan

  -- _workspace_scan_requested
  pub workspace_scan_requested : Json → Bool
  workspace_scan_requested (arr xs) = scan_requested_items xs
  workspace_scan_requested (obj fs) = scan_requested_fields fs
  workspace_scan_requested _ = false

  pub scan_requested_items : Items → Bool
  scan_requested_items nil = false
  scan_requested_items (cons v xs) = workspace_scan_requested v || scan_requested_items xs

  pub scan_requested_fields : Fields → Bool
  scan_requested_fields end = false
  scan_requested_fields (field k v fs) =
      asks_scan k v || workspace_scan_requested v || scan_requested_fields fs

-- len(text.encode("utf-8")) of the code points of a text
abbrev utf8_length : ℕ → ℕ
utf8_length c = if ltb c 0x80 then 1 else if ltb c 0x800 then 2 else if ltb c 0x10000 then 3 else 4

unfoldable pub byte_length : List ℕ → ℕ
byte_length [] = 0
byte_length (c ∷ s) = utf8_length c + byte_length s

pub record InputShape : Type 0 where
  pub explicit_refs_count : ℕ
  pub explicit_urls_count : ℕ
  pub file_refs_count : ℕ
  pub inline_chars : ℕ
  pub inline_bytes : ℕ
  pub json_depth : ℕ
  pub list_items_count : ℕ
  pub workspace_scan_requested : Bool

-- `refs` is len(work_unit.input_refs), and `dumps` the canonical JSON text
unfoldable pub input_shape_for_work_unit : (Json → String) → ℕ → Fields → InputShape
unfolding count_urls count_file_refs json_depth list_items_count workspace_scan_requested
    byte_length codes
input_shape_for_work_unit dumps refs input = record {
  explicit_refs_count = refs;
  explicit_urls_count = count_urls (obj input);
  file_refs_count = count_file_refs (obj input);
  inline_chars = text_length (dumps (obj input));
  inline_bytes = byte_length (codes (dumps (obj input)));
  json_depth = json_depth (obj input);
  list_items_count = list_items_count (obj input);
  workspace_scan_requested = workspace_scan_requested (obj input);
}
