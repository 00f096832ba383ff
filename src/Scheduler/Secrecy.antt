-- ===== src/Scheduler/Secrecy.antt =====
-- What the scheduler's events may hold of the bodies that they are made of.
use token_bank.Prelude.{sym, List, All, All-map}
use mathlib.Core.Path.{subst}
use token_bank.World.{World}
use token_bank.Db.{EventRow}
use token_bank.Session.{Session}
use token_bank.Redaction.Laws.{HidesSecrets, redact_sensitive_value-HidesSecrets}
use token_bank.Scheduler.Calls.{Call, serve}
use token_bank.Scheduler.Invariant.{IsRedacted, Inv}
use token_bank.Scheduler.History.{serve-Inv}

IsRedacted-HidesSecrets : (row : EventRow) → IsRedacted row → HidesSecrets row.body_json
IsRedacted-HidesSecrets row (body, e) =
    subst HidesSecrets (sym e) (redact_sensitive_value-HidesSecrets body)

-- Whatever calls the scheduler serves from a database that meets the invariant, in every event of the
-- outbox each field whose key names a secret, at any depth, holds nothing but the replacement text.
pub serve-HidesSecrets :
    (w : World) (s : Session) (cs : List Call)
    → Inv s.db
    → All (λ row. HidesSecrets row.body_json) (serve w s cs).db.event_outbox
serve-HidesSecrets w s cs v =
    All-map IsRedacted-HidesSecrets (serve w s cs).db.event_outbox (serve-Inv w s cs v).redacted
