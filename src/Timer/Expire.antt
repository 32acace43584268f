-- ===== src/Timer/Expire.antt =====
-- flows/timer.go: expire. Which callbacks run, in which order, what is left, and when the next
-- event is.
use go_flows.Shared.{
  ℕ, zero, suc, ◌≤◌, ◌<◌, ◌≡◌, refl, sym, ◌∙◌, ◌≢◌, ◌⊎◌, inl, inr, false, List, [], ◌∷◌, arith, leb,
  if◌then◌else◌, Bool-cases,
}
use go_flows.Timer.{FuncEntry, expires_at, is_due, next_after, invoke, called, expire_from, expire}
use go_flows.Timer.Update.{IsNextEvent}

-- The entries whose time has come, in the order of the table.
abbrev pub due_entries {ℓ} : {C : Type ℓ} → ℕ → List (FuncEntry C) → List (FuncEntry C)
due_entries when [] = []
due_entries when (v ∷ fep) =
    if is_due when v.expires then v ∷ due_entries when fep else due_entries when fep

next_after-cases :
    (when next e : ℕ)
    → (next_after when next e ≡ next) ⊎ ((is_due when e ≡ false) × (next_after when next e ≡ e))
next_after-cases when next e = ground arith

entry_waits {ℓ} :
    {C : Type ℓ} (when : ℕ) (v : FuncEntry C)
    → is_due when v.expires ≡ false
    → (if is_due when v.expires then 0 else v.expires) ≡ v.expires
entry_waits when v h = rw h

module _ {ℓ κ} {C : Type ℓ} {S : Type κ} (call : C → ℕ → ℕ → S → S) where
  -- The callbacks of a list of entries, called one after the other.
  abbrev pub call_all : ℕ → List (FuncEntry C) → S → S
  call_all when [] s = s
  call_all when (v ∷ due) s = call_all when due (invoke call v.function v.expires when s)

  call_all-cons :
      (when : ℕ) (v : FuncEntry C) (fep : List (FuncEntry C)) (s : S)
      → call_all when (due_entries when fep) (called call when v s)
        ≡ call_all when (due_entries when (v ∷ fep)) s
  call_all-cons when v fep s = elim (Bool-cases (is_due when v.expires)) [
    | inl d ↦ rw d
    | inr d ↦ rw d
  ]

  expire_from-call_all :
      (when next : ℕ) (fep : List (FuncEntry C)) (s : S)
      → (expire_from call when next fep s).2 ≡ call_all when (due_entries when fep) s
  unfolding expire_from
  expire_from-call_all when next [] s = refl
  expire_from-call_all when next (v ∷ fep) s =
      expire_from-call_all when (next_after when next v.expires) fep (called call when v s)
      ∙ call_all-cons when v fep s

  expires_at-expire_from :
      (when next : ℕ) (fep : List (FuncEntry C)) (s : S) (i : ℕ)
      → expires_at (expire_from call when next fep s).0 i
        ≡ (if leb (expires_at fep i) when then 0 else expires_at fep i)
  unfolding expire_from
  expires_at-expire_from when next [] s i = ground arith
  expires_at-expire_from when next (v ∷ fep) s zero = ground arith
  expires_at-expire_from when next (v ∷ fep) s (suc i) =
      expires_at-expire_from when (next_after when next v.expires) fep (called call when v s) i

  expire_from-start :
      (when next : ℕ) (fep : List (FuncEntry C)) (s : S)
      → next ≢ 0
      → ((expire_from call when next fep s).1 ≢ 0) × ((expire_from call when next fep s).1 ≤ next)
  unfolding expire_from
  expire_from-start when next [] s h = (h, omega arith)
  expire_from-start when next (v ∷ fep) s h =
      ground
        (arith, expire_from-start when (next_after when next v.expires) fep (called call when v s))

  expire_from-lower :
      (when next : ℕ) (fep : List (FuncEntry C)) (s : S) (i : ℕ)
      → when < expires_at fep i
      → ((expire_from call when next fep s).1 ≢ 0)
        × ((expire_from call when next fep s).1 ≤ expires_at fep i)
  unfolding expire_from
  expire_from-lower when next [] s i h = absurd (omega arith)
  expire_from-lower when next (v ∷ fep) s zero h =
      ground
        (arith, expire_from-start when (next_after when next v.expires) fep (called call when v s))
  expire_from-lower when next (v ∷ fep) s (suc i) h =
      expire_from-lower when (next_after when next v.expires) fep (called call when v s) i h

  expire_from-attained :
      (when next : ℕ) (fep : List (FuncEntry C)) (s : S)
      → let r = expire_from call when next fep s in
        (r.1 ≡ next) ⊎ ((i : ℕ) × (expires_at r.0 i ≡ r.1))
  unfolding expire_from
  expire_from-attained when next [] s = inl refl
  expire_from-attained when next (v ∷ fep) s =
      elim (expire_from-attained when (next_after when next v.expires) fep (called call when v s)) [
        | inr (i, e) ↦ inr (suc i, e)
        | inl e ↦ elim (next_after-cases when next v.expires) [
          | inl kept ↦ inl (e ∙ kept)
          | inr (waits, taken) ↦ inr (0, entry_waits when v waits ∙ sym (e ∙ taken))
        ]
      ]

  -- `expire` stops the timers that are due and leaves the others.
  pub expires_at-expire :
      (when : ℕ) (fep : List (FuncEntry C)) (s : S) (i : ℕ)
      → expires_at (expire call when fep s).0 i
        ≡ (if leb (expires_at fep i) when then 0 else expires_at fep i)
  unfolding expire
  expires_at-expire when fep s i = expires_at-expire_from when 0 fep s i

  expire-IsNextEvent :
      (when : ℕ) (fep : List (FuncEntry C)) (s : S)
      → IsNextEvent (expire call when fep s).1 (expire call when fep s).0
  unfolding expire
  expire-IsNextEvent when fep s = record {
    lower = λ i h.
        ground (arith, expires_at-expire_from when 0 fep s i, expire_from-lower when 0 fep s i);
    attained = λ h. elim (expire_from-attained when 0 fep s) [ inl e ↦ absurd (h e) | inr w ↦ w ];
  }

  -- A run of the timers of a flow: the callbacks of the due entries run in the order of the table,
  -- those entries become idle, the others keep their time, and the time of the next event of what
  -- is left is returned.
  pub expire_lem :
      (when : ℕ) (fep : List (FuncEntry C)) (s : S)
      → let r = expire call when fep s in
        (r.2 ≡ call_all when (due_entries when fep) s)
        × ((i : ℕ)
            → expires_at r.0 i ≡ (if leb (expires_at fep i) when then 0 else expires_at fep i))
        × IsNextEvent r.1 r.0
  unfolding expire
  expire_lem when fep s = (
    expire_from-call_all when 0 fep s,
    expires_at-expire when fep s,
    expire-IsNextEvent when fep s,
  )
