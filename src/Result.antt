-- ===== src/Result.antt =====
-- The Python exceptions that the modelled code raises, and the outcome of code that may raise.

pub data Error : Type 0 where
  key_error : Error  -- KeyError: a row that is not there
  permission_error : Error  -- PermissionError
  lease_conflict : Error  -- LeaseConflictError of scheduler/lease.py
  integrity_error : Error  -- sqlite3.IntegrityError: a primary key, an index or a foreign key
  value_error : Error  -- ValueError
  type_error : Error  -- TypeError
  overflow_error : Error  -- OverflowError: an integer that SQLite cannot hold
  validation_error : Error  -- pydantic.ValidationError

pub data Result {ℓ} (A : Type ℓ) : Type ℓ where
  ok : A → Result A
  err : Error → Result A
