-- ===== src/ExportList.antt =====
-- flows/export.go: the ring of the export records of a table, by pointers, and pushExport of
-- flows/table.go. `none` is a panic.
use go_flows.Shared.{ℕ, Option, none, some}
use go_flows.ExportSort.Links.{Links, set_next, set_prev}
pub mod Ring
mod Examples

-- The new head is at `p`.
abbrev pub make_export_head : ℕ → Links → Links
make_export_head p h = set_prev p (some p) (set_next p (some p) h)

-- `e.prev.next = e.next`, where `e.prev` is not nil.
abbrev pub skip_forward : ℕ → Option ℕ → Links → Links
skip_forward e none h = h
skip_forward e (some p) h = set_next p (h.next e) h

-- `e.next.prev = e.prev`, where `e.next` is not nil.
abbrev pub skip_back : ℕ → Option ℕ → Links → Links
skip_back e none h = h
skip_back e (some n) h = set_prev n (h.prev e) h

unfoldable pub unlink : ℕ → Links → Links
unlink e h =
    let forward = skip_forward e (h.prev e) h in
    set_next e none (set_prev e none (skip_back e (forward.next e) forward))

-- `insert` behind `after`, whose next record is known.
abbrev pub insert_before : ℕ → ℕ → Option ℕ → Links → Option Links
insert_before e after none h = none
insert_before e after (some next) h = some (
    set_next e (some next)
      (set_prev next (some e) (set_prev e (some after) (set_next after (some e) h))))

unfoldable pub insert : ℕ → ℕ → Links → Option Links
insert e after h = insert_before e after (h.next after) h
