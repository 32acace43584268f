-- ===== src/Timer/Examples.antt =====
-- A table with timers at 5, none, 9 and 20.
use go_flows.Shared.{ℕ, ◌≡◌, refl, not, List, [], ◌∷◌, ◌++◌, some, leb, ◌==◌, if◌then◌else◌}
use go_flows.Timer.{
  FuncEntry, empty_entry, add_timer, expires_at, has_timer, remove_timer, expire, expire_from,
}
use go_flows.Timer.Update.{IsNextEvent, remove_timer_lem, has_timer-add_timer}
use go_flows.Timer.Expire.{due_entries, call_all, expire_lem}

abbrev entry : ℕ → ℕ → FuncEntry ℕ
entry f expires = record { function = some f; expires = expires }

abbrev table : List (FuncEntry ℕ)
table = entry 1 5 ∷ empty_entry ∷ entry 3 9 ∷ entry 4 20 ∷ []

-- Each call is logged with its time.
abbrev log_call : ℕ → ℕ → ℕ → List (ℕ × ℕ) → List (ℕ × ℕ)
log_call f expires now log = log ++ (f, expires) ∷ []

expire_run : (expire log_call 9 table []).2 ≡ (1, 5) ∷ (3, 9) ∷ []
unfolding expire expire_from
expire_run = refl

next_run : (expire log_call 9 table []).1 ≡ 20
unfolding expire expire_from
next_run = refl

expire_lem_example :
    let r = expire log_call 9 table [] in
    (r.2 ≡ call_all log_call 9 (due_entries 9 table) [])
    × ((i : ℕ) → expires_at r.0 i ≡ (if leb (expires_at table i) 9 then 0 else expires_at table i))
    × IsNextEvent r.1 r.0
expire_lem_example = expire_lem log_call 9 table []

remove_timer_lem_example :
    ((j : ℕ) → expires_at (remove_timer 0 table).0 j ≡ (if j == 0 then 0 else expires_at table j))
    × IsNextEvent (remove_timer 0 table).1 (remove_timer 0 table).0
remove_timer_lem_example = remove_timer_lem 0 table

has_timer-add_timer_example :
    has_timer 6 (add_timer 6 2 30 table) ≡ (if 6 == 6 then not (30 == 0) else has_timer 6 table)
has_timer-add_timer_example = has_timer-add_timer 6 6 2 30 table
