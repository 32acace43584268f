-- ===== src/Timer.antt =====
-- flows/timer.go: the timer table of a flow. A timer is an index into the table; an entry with
-- `expires` 0 is idle. A Go function value is an `Option` of a callback name, and what a callback
-- does to the world is the argument `call`.
pub mod Update
pub mod Expire
mod Examples
use go_flows.Shared.{
  ℕ, zero, suc, ◌+◌, ◌-◌, Bool, false, ◌&&◌, ◌||◌, not, Option, none, some, List, [], ◌∷◌, ◌++◌,
  ltb, leb, ◌==◌, if◌then◌else◌, length, set, replicate,
}

pub record FuncEntry {ℓ} (C : Type ℓ) : Type ℓ where
  pub function : Option C
  pub expires : ℕ

module _ {ℓ} {C : Type ℓ} where
  abbrev pub empty_entry : FuncEntry C
  empty_entry = record { function = none; expires = 0 }

  unfoldable pub make_func_entries : List (FuncEntry C)
  make_func_entries = replicate 2 empty_entry

  -- The table grows until `id` is an index of it.
  unfoldable pub add_timer : ℕ → C → ℕ → List (FuncEntry C) → List (FuncEntry C)
  add_timer id f when fep =
      let grown =
        if leb (length fep) id then fep ++ replicate (id - length fep + 1) empty_entry else fep in
      set grown id (record { function = some f; expires = when })

  -- A missing index reads as an idle entry.
  abbrev pub expires_at : List (FuncEntry C) → ℕ → ℕ
  expires_at [] id = 0
  expires_at (v ∷ fep) zero = v.expires
  expires_at (v ∷ fep) (suc id) = expires_at fep id

  unfoldable pub has_timer : ℕ → List (FuncEntry C) → Bool
  has_timer id fep = if leb (length fep) id then false else not (expires_at fep id == 0)

  -- `fep[id].expires = 0`, for an index in range.
  abbrev pub clear_at : ℕ → List (FuncEntry C) → List (FuncEntry C)
  clear_at id [] = []
  clear_at zero (v ∷ fep) = record v { expires = 0 } ∷ fep
  clear_at (suc id) (v ∷ fep) = v ∷ clear_at id fep

  -- The loop of `removeTimer` over the table.
  unfoldable pub earliest : ℕ → List (FuncEntry C) → ℕ
  earliest ret [] = ret
  earliest ret (v ∷ fep) =
      earliest (if not (v.expires == 0) && (ret == 0 || ltb v.expires ret) then v.expires else ret)
        fep

  -- The new table, and the time of the next event.
  unfoldable pub remove_timer : ℕ → List (FuncEntry C) → List (FuncEntry C) × ℕ
  unfolding earliest
  remove_timer id fep =
      let cleared = if leb (length fep) id then fep else clear_at id fep in
      (cleared, earliest 0 cleared)

-- `expires` is due at `when`: the two tests of the loop of `expire`.
abbrev pub is_due : ℕ → ℕ → Bool
is_due when expires = not (expires == 0) && leb expires when

-- The loop's `next` after an entry with time `expires`.
abbrev pub next_after : ℕ → ℕ → ℕ → ℕ
next_after when next expires =
    if is_due when expires
    then next
    else (if not (expires == 0) && (next == 0 || leb expires next) then expires else next)

module _ {ℓ κ} {C : Type ℓ} {S : Type κ} (call : C → ℕ → ℕ → S → S) where
  -- Calling a nil function value is a fault; no pending entry has one.
  abbrev pub invoke : Option C → ℕ → ℕ → S → S
  invoke none expires when s = s
  invoke (some f) expires when s = call f expires when s

  -- The world after the loop's call for one entry.
  abbrev pub called : ℕ → FuncEntry C → S → S
  called when v s = if is_due when v.expires then invoke v.function v.expires when s else s

  -- The loop of `expire`: the table after it, the next event, and the world after the callbacks.
  unfoldable pub expire_from : ℕ → ℕ → List (FuncEntry C) → S → List (FuncEntry C) × ℕ × S
  expire_from when next [] s = ([], next, s)
  expire_from when next (v ∷ fep) s =
      let v' = record v { expires = if is_due when v.expires then 0 else v.expires } in
      let (fep', last, t) =
        expire_from when (next_after when next v.expires) fep (called when v s) in
      (v' ∷ fep', last, t)

  unfoldable pub expire : ℕ → List (FuncEntry C) → S → List (FuncEntry C) × ℕ × S
  unfolding expire_from
  expire when fep s = expire_from when 0 fep s
