-- ===== src/Outbox/Frames.antt =====
-- `enqueue_event` changes no table but the outbox.
use token_bank.Prelude.{◌≡◌, refl, ap, ◌∙◌}
use token_bank.Exec.Keeps.{IsPreorder}
use token_bank.World.{World}
use token_bank.Db.{Db}
use token_bank.Session.Moves.{Moves}
use token_bank.Outbox.{OutboxEventInput, append_event, enqueue_event}
use token_bank.Outbox.Sequence.{Moves-enqueue_event}

-- Only the outbox changes.
abbrev pub OnlyEvents : Db → Db → Type 0
OnlyEvents a b = b ≡ record a { event_outbox = b.event_outbox }

pub OnlyEvents-preorder : IsPreorder OnlyEvents
OnlyEvents-preorder = record {
  same = λ a. refl;
  chain = λ a b c p q. q ∙ ap (λ (x : Db). record x { event_outbox = c.event_outbox }) p;
}

pub same-OnlyEvents : (a b : Db) → b ≡ a → OnlyEvents a b
same-OnlyEvents a b q = rw q refl

pub enqueue_event-OnlyEvents :
    (w : World) (event : OutboxEventInput) → Moves OnlyEvents (enqueue_event w event)
unfolding append_event
enqueue_event-OnlyEvents = Moves-enqueue_event OnlyEvents-preorder (λ db row _. refl)
