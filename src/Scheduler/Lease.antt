-- ===== src/Scheduler/Lease.antt =====
-- scheduler/lease.py and core/tokens.py
use Prim.Native.String.{◌++◌ as append}
use token_bank.Prelude.{
  ℕ, ◌+◌, String, Bool, true, not, ◌&&◌, ◌||◌, Option, none, some, any, str_eq, ◌==◌,
}
use token_bank.Result.{permission_error, lease_conflict}
use token_bank.Exec.{Exec, pure, gets, raise_if, ◌>>=◌, ◌>>◌}
use token_bank.World.{World}
use token_bank.Text.{take_chars}
use token_bank.Db.{AssignmentRow, AssignmentStatus}
use token_bank.Session.{Session, read}
use token_bank.Scheduler.Tables.{is_assignment, find_assignment, update_assignments}

-- raw_token[:16]
unfoldable pub lease_token_prefix : String → String
unfolding take_chars
lease_token_prefix raw_token = take_chars 16 raw_token

-- `COALESCE(?, column)`
abbrev pub coalesce {ℓ} : {A : Type ℓ} → Option A → Option A → Option A
coalesce none old = old
coalesce (some a) old = some a

-- `not stored or not given or given != stored`, with `None` and the empty text alike
unfoldable pub hash_differs : Option String → Option String → Bool
hash_differs none given = true
hash_differs (some stored) none = true
hash_differs (some stored) (some given) =
    str_eq stored "" || str_eq given "" || not (str_eq given stored)

-- the columns that `conditional_assignment_update` sets
pub record LeaseUpdate : Type 0 where
  pub status : AssignmentStatus
  pub lease_expires_at : Option String
  pub lease_token_hash : Option String
  pub lease_token_prefix : Option String
  pub accepted_at : Option String
  pub completed_at : Option String

unfoldable pub set_lease : LeaseUpdate → ℕ → String → AssignmentRow → AssignmentRow
set_lease u next_version now row = record row {
  status = u.status;
  lease_version = next_version;
  lease_expires_at = u.lease_expires_at;
  lease_token_hash = coalesce u.lease_token_hash row.lease_token_hash;
  lease_token_prefix = coalesce u.lease_token_prefix row.lease_token_prefix;
  accepted_at = coalesce u.accepted_at row.accepted_at;
  completed_at = coalesce u.completed_at row.completed_at;
  updated_at = some now;
}

-- WHERE assignment_id = ? AND lease_version = ?
unfoldable pub holds_version : String → ℕ → AssignmentRow → Bool
holds_version id version row = is_assignment id row && row.lease_version == version

unfoldable pub new_lease_token : World → Exec Session String
new_lease_token w = do secret ← read w.token_urlsafe; pure (append "tbk_l_" secret)

module _ (w : World) where
  unfoldable pub conditional_assignment_update :
      String → ℕ → LeaseUpdate → Exec Session AssignmentRow
  unfolding find_assignment update_assignments set_lease holds_version
  conditional_assignment_update id expected_lease_version u = do
    current ← find_assignment id
    now ← read w.clock_text
    matched ← gets (λ s. any (holds_version id expected_lease_version) s.db.assignments)
    update_assignments (holds_version id expected_lease_version)
        (set_lease u (current.lease_version + 1) now)
    raise_if (not matched) lease_conflict
    find_assignment id

  -- the same against the hash of a raw token, which is computed only where both texts are there
  unfoldable pub token_differs : Option String → Option String → Bool
  token_differs none raw_token = true
  token_differs (some stored) none = true
  token_differs (some stored) (some raw_token) =
      str_eq stored "" || str_eq raw_token "" || not (str_eq (w.lease_digest raw_token) stored)

  unfoldable pub verify_lease_token : Option String → Option String → Exec Session (Unit {0})
  unfolding token_differs
  verify_lease_token stored raw_token = raise_if (token_differs stored raw_token) permission_error

unfoldable pub verify_lease_token_hash : Option String → Option String → Exec Session (Unit {0})
unfolding hash_differs
verify_lease_token_hash stored given = raise_if (hash_differs stored given) permission_error
