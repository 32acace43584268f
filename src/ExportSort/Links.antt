-- ===== src/ExportSort/Links.antt =====
-- flows/export.go: the two pointers of the export records. A record is a number; `none` is nil.
use go_flows.Shared.{ℕ, Option, ◌==◌, if◌then◌else◌}

pub record Links : Type 0 where
  pub next : ℕ → Option ℕ
  pub prev : ℕ → Option ℕ

abbrev pub update : (ℕ → Option ℕ) → ℕ → Option ℕ → ℕ → Option ℕ
update f p v q = if p == q then v else f q

abbrev pub set_next : ℕ → Option ℕ → Links → Links
set_next p v h = record h { next = update h.next p v }

abbrev pub set_prev : ℕ → Option ℕ → Links → Links
set_prev p v h = record h { prev = update h.prev p v }
