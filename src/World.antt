-- ===== src/World.antt =====
-- What the control plane reads from outside: the clock, random identifiers and digests. The i-th
-- reading of one kind in the history of a connection is the value of its function at i.
use token_bank.Prelude.{ℕ, String}
use token_bank.Json.{Json}

pub record World : Type 0 where
  pub clock_text : ℕ → String  -- utc_text() of scheduler/lease.py, _utc_now_text() of events/outbox.py
  pub clock_after : ℕ → ℕ → String  -- utc_text(utc_now() + timedelta(milliseconds=...))
  pub uuid_hex : ℕ → String  -- uuid.uuid4().hex
  pub token_urlsafe : ℕ → String  -- secrets.token_urlsafe(24)
  pub lease_digest : String → String  -- SHA-256 of the tagged token: core/tokens.py
  pub json_digest : Json → String  -- SHA-256 of the canonical JSON text: core/canonical.py
  pub strip_text : String → String  -- str_strip_whitespace, which pydantic applies to the texts of a model
