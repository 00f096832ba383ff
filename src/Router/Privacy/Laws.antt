-- ===== src/Router/Privacy/Laws.antt =====
-- What `scan_privacy` of router/privacy_preflight.py detects.
use token_bank.Prelude.{
  ℕ, ◌+◌, ◌<◌, String, zero, suc, none, ◌≡◌, ◌↔◌, refl, Bool, true, false, not, ◌&&◌, List, [], ◌∷◌,
  ◌++◌, ltb, ◌⊎◌, arith, Bool-cases, inl, inr,
}
use token_bank.Json.{
  Json, Items, Fields, null, bool, int, float, str, arr, obj, nil, cons, end, field,
}
use token_bank.Json.Nested.{
  Within, WithinItems, WithinFields, here, in_arr, in_obj, item, later_item, value, later_value,
}
use token_bank.Text.{codes}
use token_bank.Text.Backtrack.{Expression, count_from}
use token_bank.Text.Matching.{Occurs, count_from-Occurs}
use token_bank.Sql.Ordered.{Has}
use token_bank.Router.Privacy.{
  raw_secret_patterns, private_data_patterns, string_values, string_values_items,
  string_values_fields, any_counted, total_count, pattern_counts, scan_privacy,
}

Has-append : {A : Type 0} (x : A) (xs ys : List A) → Has x (xs ++ ys) → Has x xs ⊎ Has x ys
Has-append x [] ys m = inr m
Has-append x (z ∷ xs) ys (inl e) = inl (inl e)
Has-append x (z ∷ xs) ys (inr m) = elim (Has-append x xs ys m) [
  | inl h ↦ inl (inr h)
  | inr h ↦ inr h
]

append-Has : {A : Type 0} (x : A) (xs ys : List A) → Has x xs ⊎ Has x ys → Has x (xs ++ ys)
append-Has x [] ys (inl m) = elim m [ ]
append-Has x [] ys (inr m) = m
append-Has x (z ∷ xs) ys (inl (inl e)) = inl e
append-Has x (z ∷ xs) ys (inl (inr m)) = inr (append-Has x xs ys (inl m))
append-Has x (z ∷ xs) ys (inr m) = inr (append-Has x xs ys (inr m))

-- the texts of a value are those inside it
mutual
  unfolding string_values

  Has-Within : (s : String) (v : Json) → Has s (string_values v) → Within (str s) v
  Has-Within s null m = elim m [ ]
  Has-Within s (bool b) m = elim m [ ]
  Has-Within s (int n) m = elim m [ ]
  Has-Within s (float n k) m = elim m [ ]
  Has-Within s (str t) (inl e) = rw e here
  Has-Within s (str t) (inr m) = elim m [ ]
  Has-Within s (arr xs) m = in_arr (Has-WithinItems s xs m)
  Has-Within s (obj fs) m = in_obj (Has-WithinFields s fs m)

  Has-WithinItems :
      (s : String) (xs : Items) → Has s (string_values_items xs) → WithinItems (str s) xs
  Has-WithinItems s nil m = elim m [ ]
  Has-WithinItems s (cons v xs) m =
      elim (Has-append s (string_values v) (string_values_items xs) m) [
        | inl h ↦ item (Has-Within s v h)
        | inr h ↦ later_item (Has-WithinItems s xs h)
      ]

  Has-WithinFields :
      (s : String) (fs : Fields) → Has s (string_values_fields fs) → WithinFields (str s) fs
  Has-WithinFields s end m = elim m [ ]
  Has-WithinFields s (field k v fs) m =
      elim (Has-append s (string_values v) (string_values_fields fs) m) [
        | inl h ↦ value (Has-Within s v h)
        | inr h ↦ later_value (Has-WithinFields s fs h)
      ]

mutual
  unfolding string_values

  Within-Has : (s : String) (v : Json) → Within (str s) v → Has s (string_values v)
  Within-Has s null m = elim m [ ]
  Within-Has s (bool b) m = elim m [ ]
  Within-Has s (int n) m = elim m [ ]
  Within-Has s (float n k) m = elim m [ ]
  Within-Has s (str _) here = inl refl
  Within-Has s (arr xs) (in_arr m) = WithinItems-Has s xs m
  Within-Has s (obj fs) (in_obj m) = WithinFields-Has s fs m

  WithinItems-Has :
      (s : String) (xs : Items) → WithinItems (str s) xs → Has s (string_values_items xs)
  WithinItems-Has s nil m = elim m [ ]
  WithinItems-Has s (cons v xs) (item m) =
      append-Has s (string_values v) (string_values_items xs) (inl (Within-Has s v m))
  WithinItems-Has s (cons v xs) (later_item m) =
      append-Has s (string_values v) (string_values_items xs) (inr (WithinItems-Has s xs m))

  WithinFields-Has :
      (s : String) (fs : Fields) → WithinFields (str s) fs → Has s (string_values_fields fs)
  WithinFields-Has s end m = elim m [ ]
  WithinFields-Has s (field k v fs) (value m) =
      append-Has s (string_values v) (string_values_fields fs) (inl (Within-Has s v m))
  WithinFields-Has s (field k v fs) (later_value m) =
      append-Has s (string_values v) (string_values_fields fs) (inr (WithinFields-Has s fs m))

module _ (word : ℕ → Bool) where
  -- one of the expressions occurs in a text inside the value, at any depth
  abbrev pub Carries : List (String × Expression) → Json → Type 0
  Carries ps v =
      (s : String) × (p : String × Expression) × Within (str s) v
      × Has p ps
      × Occurs word p.1 none (codes s)

  abbrev InTexts : Expression → List String → Type 0
  InTexts e texts = (s : String) × Has s texts × Occurs word e none (codes s)

  total-InTexts :
      (e : Expression) (texts : List String) → 0 < total_count word e texts → InTexts e texts
  unfolding total_count
  total-InTexts e [] h = absurd (omega arith)
  total-InTexts e (t ∷ ts) h =
      elim (positive (count_from word e 0 none (codes t)) (total_count word e ts) h) [
        | inl own ↦ (t, inl refl, (count_from-Occurs word e (codes t)).0 own)
        | inr rest ↦ let (s, m, o) = total-InTexts e ts rest in (s, inr m, o)
      ]
    where
      positive : (m n : ℕ) → 0 < m + n → (0 < m) ⊎ (0 < n)
      positive zero n k = inr (omega arith)
      positive (suc m) n k = inl (omega arith)

  InTexts-total :
      (e : Expression) (texts : List String) (s : String)
      → Has s texts
      → Occurs word e none (codes s)
      → 0 < total_count word e texts
  unfolding total_count
  InTexts-total e [] s m o = elim m [ ]
  InTexts-total e (t ∷ ts) s (inl same) o =
      omega (arith, (count_from-Occurs word e (codes t)).1 (rw same at o))
  InTexts-total e (t ∷ ts) s (inr m) o = omega (arith, InTexts-total e ts s m o)

  counted :
      (texts : List String) (ps : List (String × Expression))
      → any_counted (pattern_counts word texts ps) ≡ true
      → (p : String × Expression) × Has p ps × InTexts p.1 texts
  unfolding pattern_counts
  counted texts [] h = cc
  counted texts (p ∷ ps) h = elim (Bool-cases (ltb 0 (total_count word p.1 texts))) [
    | inl own ↦ (p, inl refl, total-InTexts p.1 texts (ground (arith, own)))
    | inr other ↦ let (q, m, o) = counted texts ps (rw other at h) in (q, inr m, o)
  ]

  Has-counted :
      (texts : List String) (ps : List (String × Expression)) (p : String × Expression)
      → Has p ps
      → 0 < total_count word p.1 texts
      → any_counted (pattern_counts word texts ps) ≡ true
  unfolding pattern_counts
  Has-counted texts [] p m h = elim m [ ]
  Has-counted texts (q ∷ ps) p (inl same) h = ground (arith, rw same at h)
  Has-counted texts (q ∷ ps) p (inr m) h = ground (arith, Has-counted texts ps p m h)

  counted-Carries :
      (v : Json) (ps : List (String × Expression))
      → any_counted (pattern_counts word (string_values v) ps) ≡ true ↔ Carries ps v
  counted-Carries v ps = (
    λ h. let (p, m, (s, n, o)) = counted (string_values v) ps h in (s, p, Has-Within s v n, m, o),
    λ (s, p, n, m, o).
        Has-counted (string_values v) ps p m
          (InTexts-total p.1 (string_values v) s (Within-Has s v n) o),
  )

  neither :
      (a b : Bool) (A B : Type 0)
      → a ≡ true ↔ A
      → b ≡ true ↔ B
      → (not a && not b) ≡ true ↔ (¬ A × ¬ B)
  neither true b A B (f, g) k = (λ h. cc, λ (no_a, no_b). absurd (no_a (f refl)))
  neither false true A B f (k, g) = (λ h. cc, λ (no_a, no_b). absurd (no_b (k refl)))
  neither false false A B (f, g) (k, l) =
      (λ h. (λ x. (let bad = g x in cc), λ y. (let bad = l y in cc)), λ h. refl)

  -- The scan detects a raw secret exactly if one of the five expressions of a secret occurs in a text
  -- inside the input, at any depth, and private data exactly if one of the other three does; the input
  -- may be processed remotely exactly if none of the eight occurs. This holds for every \w and \d.
  pub scan_privacy-Carries :
      (digit : ℕ → Bool) (v : Json)
      → ((scan_privacy word digit v).raw_secret_detected ≡ true ↔ Carries raw_secret_patterns v)
        × ((scan_privacy word digit v).private_data_detected ≡ true
            ↔ Carries (private_data_patterns digit) v)
        × ((scan_privacy word digit v).remote_eligible ≡ true
            ↔ (¬ Carries raw_secret_patterns v × ¬ Carries (private_data_patterns digit) v))
  unfolding scan_privacy
  scan_privacy-Carries digit v =
      let raw = counted-Carries v raw_secret_patterns in
      let private = counted-Carries v (private_data_patterns digit) in
      (raw, private, neither _ _ _ _ raw private)
