-- ===== src/Exec/Keeps.antt =====
-- Relations between the states before and after an action, to be proved step by step.
pub record IsPreorder {S : Type 0} (R : S → S → Type 0) : Type 0 where
  pub same : (s : S) → R s s
  pub chain : (s t u : S) → R s t → R t u → R s u
