-- ===== src/Policy/Extensions.antt =====
-- policy/extensions.py. A frozenset is iterated in no fixed order: where a key has several forbidden
-- fragments, which one the reason names is not fixed either, and here it is the first one of the list.
use Prim.Native.String.{◌++◌ as append}
use token_bank.Prelude.{ℕ, suc, String, List, [], ◌∷◌, ◌++◌, map, ◌==◌, if◌then◌else◌}
use token_bank.Json.{
  Json, Items, Fields, null, bool, int, float, str, arr, obj, nil, cons, end, field,
}
use token_bank.Text.{codes, key_codes, contains_codes}
use token_bank.Text.Decimal.{decimal}

abbrev pub forbidden_extension_key_fragments : List String
forbidden_extension_key_fragments =
    "seller" ∷ "marketplace" ∷ "payment" ∷ "payout" ∷ "settlement" ∷ "yield" ∷ "apr"
    ∷ "credit_trading" ∷ "account_pool" ∷ "oauth_proxy" ∷ "credential_broker" ∷ []

pub record ExtensionLintIssue : Type 0 where
  pub path : String
  pub key : String
  pub reason : String

abbrev no_space : ℕ → ℕ
no_space c = if c == b' ' then b'_' else c

-- the characters of `normalize_key`
unfoldable pub normalize_key : String → List ℕ
unfolding key_codes
normalize_key key = map no_space (key_codes key)

-- the loop over the fragments, with its `break`
unfoldable pub lint_key : String → String → List String → List ExtensionLintIssue
unfolding normalize_key codes contains_codes
lint_key path key [] = []
lint_key path key (fragment ∷ rest) =
    let others = lint_key path key rest in
    if contains_codes (codes fragment) (normalize_key key)
    then record {
      path = append path (append "." key);
      key = key;
      reason = append "forbidden extension key fragment: " fragment;
    }
      ∷ []
    else others

unfoldable mutual
  unfolding lint_key decimal

  pub lint_extension_keys : Json → String → List ExtensionLintIssue
  lint_extension_keys (obj fs) path = lint_fields fs path
  lint_extension_keys (arr xs) path = lint_items xs path 0
  lint_extension_keys null path = []
  lint_extension_keys (bool b) path = []
  lint_extension_keys (int n) path = []
  lint_extension_keys (float m k) path = []
  lint_extension_keys (str s) path = []

  pub lint_fields : Fields → String → List ExtensionLintIssue
  lint_fields end path = []
  lint_fields (field k v rest) path =
      lint_key path k forbidden_extension_key_fragments
      ++ lint_extension_keys v (append path (append "." k))
      ++ lint_fields rest path

  pub lint_items : Items → String → ℕ → List ExtensionLintIssue
  lint_items nil path index = []
  lint_items (cons x xs) path index =
      lint_extension_keys x (append path (append "[" (append (decimal index) "]")))
      ++ lint_items xs path (suc index)
