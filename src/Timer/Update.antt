-- ===== src/Timer/Update.antt =====
-- flows/timer.go: addTimer, hasTimer and removeTimer against the table read as a map from timer
-- to expiry time, and the earliest pending time.
use go_flows.Shared.{
  ℕ, zero, suc, ◌+◌, ◌-◌, ◌≤◌, ◌<◌, ◌≡◌, refl, sym, ◌≢◌, ◌⊎◌, inl, inr, not, List, [], ◌∷◌, ◌++◌,
  some, ◌&&◌, ◌||◌, arith, leb, ltb, ◌==◌, if◌then◌else◌, Bool-cases, length, set, replicate,
  length-append, length-replicate,
}
use go_flows.Timer.{
  FuncEntry, empty_entry, add_timer, expires_at, has_timer, clear_at, earliest, remove_timer,
}

-- `n` is the time of the next event of a table: 0 if nothing is pending, and otherwise the
-- smallest pending time.
pub record IsNextEvent {ℓ} {C : Type ℓ} (n : ℕ) (fep : List (FuncEntry C)) : Type 0 where
  pub lower : (i : ℕ) → expires_at fep i ≢ 0 → (n ≢ 0) × (n ≤ expires_at fep i)
  pub attained : n ≢ 0 → (i : ℕ) × (expires_at fep i ≡ n)

module _ {ℓ} {C : Type ℓ} where
  expires_at-set :
      (fep : List (FuncEntry C)) (id j : ℕ) (v : FuncEntry C)
      → id < length fep
      → expires_at (set fep id v) j ≡ (if j == id then v.expires else expires_at fep j)
  expires_at-set [] id j v h = elim h [ ]
  expires_at-set (x ∷ fep) zero zero v h = refl
  expires_at-set (x ∷ fep) zero (suc j) v h = ground arith
  expires_at-set (x ∷ fep) (suc id) zero v h = ground arith
  expires_at-set (x ∷ fep) (suc id) (suc j) v h = ground (arith, expires_at-set fep id j v)

  expires_at-replicate :
      (e : FuncEntry C) (n j : ℕ) → e.expires ≡ 0 → expires_at (replicate n e) j ≡ 0
  expires_at-replicate e zero j h = refl
  expires_at-replicate e (suc n) zero h = h
  expires_at-replicate e (suc n) (suc j) h = expires_at-replicate e n j h

  expires_at-grown :
      (fep : List (FuncEntry C)) (n j : ℕ)
      → expires_at (fep ++ replicate n empty_entry) j ≡ expires_at fep j
  expires_at-grown [] n j = expires_at-replicate empty_entry n j refl
  expires_at-grown (x ∷ fep) n zero = refl
  expires_at-grown (x ∷ fep) n (suc j) = expires_at-grown fep n j

  expires_at-outside : (fep : List (FuncEntry C)) (j : ℕ) → length fep ≤ j → expires_at fep j ≡ 0
  expires_at-outside [] j h = refl
  expires_at-outside (x ∷ fep) zero h = absurd (omega arith)
  expires_at-outside (x ∷ fep) (suc j) h = expires_at-outside fep j (omega arith)

  expires_at-clear_at :
      (id j : ℕ) (fep : List (FuncEntry C))
      → expires_at (clear_at id fep) j ≡ (if j == id then 0 else expires_at fep j)
  expires_at-clear_at id j [] = ground arith
  expires_at-clear_at zero zero (x ∷ fep) = refl
  expires_at-clear_at zero (suc j) (x ∷ fep) = ground arith
  expires_at-clear_at (suc id) zero (x ∷ fep) = ground arith
  expires_at-clear_at (suc id) (suc j) (x ∷ fep) = ground (arith, expires_at-clear_at id j fep)

  -- `addTimer` sets the time of its own timer, growing the table where needed, and leaves the
  -- time of every other timer as it was.
  pub expires_at-add_timer :
      (id j : ℕ) (f : C) (when : ℕ) (fep : List (FuncEntry C))
      → expires_at (add_timer id f when fep) j ≡ (if j == id then when else expires_at fep j)
  unfolding add_timer
  expires_at-add_timer id j f when fep = elim (Bool-cases (leb (length fep) id)) [
    | inl grows ↦ rw grows (
        rw
          (expires_at-set (fep ++ replicate (id - length fep + 1) empty_entry) id j
            (record { function = some f; expires = when })
            (rw
              (
                length-append fep (replicate (id - length fep + 1) empty_entry),
                length-replicate (id - length fep + 1) (empty_entry {C = C}),
              )
              (ground arith)))
          (rw (expires_at-grown fep (id - length fep + 1) j)))
    | inr fits ↦
        rw fits
          (expires_at-set fep id j (record { function = some f; expires = when }) (ground arith))
  ]

  pub has_timer-expires_at :
      (id : ℕ) (fep : List (FuncEntry C)) → has_timer id fep ≡ not (expires_at fep id == 0)
  unfolding has_timer
  has_timer-expires_at id fep = ground (arith, expires_at-outside fep id)

  pub expires_at-remove_timer :
      (id j : ℕ) (fep : List (FuncEntry C))
      → expires_at (remove_timer id fep).0 j ≡ (if j == id then 0 else expires_at fep j)
  unfolding remove_timer
  expires_at-remove_timer id j fep =
      ground (arith, expires_at-clear_at id j fep, expires_at-outside fep id)

  earliest-start :
      (ret : ℕ) (fep : List (FuncEntry C))
      → ret ≢ 0
      → (earliest ret fep ≢ 0) × (earliest ret fep ≤ ret)
  unfolding earliest
  earliest-start ret [] h = (h, omega arith)
  earliest-start ret (v ∷ fep) h =
      ground (arith, earliest-start ret fep, earliest-start v.expires fep)

  earliest-lower :
      (ret : ℕ) (fep : List (FuncEntry C)) (i : ℕ)
      → expires_at fep i ≢ 0
      → (earliest ret fep ≢ 0) × (earliest ret fep ≤ expires_at fep i)
  unfolding earliest
  earliest-lower ret [] i h = absurd (h refl)
  earliest-lower ret (v ∷ fep) zero h =
      ground (arith, earliest-start ret fep, earliest-start v.expires fep)
  earliest-lower ret (v ∷ fep) (suc i) h =
      earliest-lower
        (if not (v.expires == 0) && (ret == 0 || ltb v.expires ret) then v.expires else ret) fep i h

  earliest-attained :
      (ret : ℕ) (fep : List (FuncEntry C))
      → (earliest ret fep ≡ ret) ⊎ ((i : ℕ) × (expires_at fep i ≡ earliest ret fep))
  unfolding earliest
  earliest-attained ret [] = inl refl
  earliest-attained ret (v ∷ fep) =
      elim (earliest-attained
        (if not (v.expires == 0) && (ret == 0 || ltb v.expires ret) then v.expires else ret) fep) [
          | inr (i, e) ↦ inr (suc i, e)
          | inl e ↦ elim (Bool-cases (not (v.expires == 0) && (ret == 0 || ltb v.expires ret))) [
            | inl t ↦ inr (0, rw t (rw t at (sym e)))
            | inr t ↦ inl (rw t (rw t at e))
          ]
        ]

  earliest-IsNextEvent : (fep : List (FuncEntry C)) → IsNextEvent (earliest 0 fep) fep
  earliest-IsNextEvent fep = record {
    lower = earliest-lower 0 fep;
    attained = λ h. elim (earliest-attained 0 fep) [ inl e ↦ absurd (h e) | inr w ↦ w ];
  }

  -- `removeTimer` stops its own timer, leaves the time of every other timer as it was, and returns
  -- the time of the next event of the table that is left.
  pub remove_timer_lem :
      (id : ℕ) (fep : List (FuncEntry C))
      → ((j : ℕ) → expires_at (remove_timer id fep).0 j ≡ (if j == id then 0 else expires_at fep j))
        × IsNextEvent (remove_timer id fep).1 (remove_timer id fep).0
  unfolding remove_timer
  remove_timer_lem id fep = (λ j. expires_at-remove_timer id j fep, earliest-IsNextEvent _)

  -- After `addTimer` a timer is active exactly when its time is not 0.
  pub has_timer-add_timer :
      (id j : ℕ) (f : C) (when : ℕ) (fep : List (FuncEntry C))
      → has_timer j (add_timer id f when fep)
        ≡ (if j == id then not (when == 0) else has_timer j fep)
  has_timer-add_timer id j f when fep = ground (
    arith,
    has_timer-expires_at j fep,
    has_timer-expires_at j (add_timer id f when fep),
    expires_at-add_timer id j f when fep,
  )

  -- A table has one next event.
  pub IsNextEvent-unique :
      (m n : ℕ) (fep : List (FuncEntry C)) → IsNextEvent m fep → IsNextEvent n fep → m ≡ n
  IsNextEvent-unique m n fep a b = grind (arith, a.lower, b.lower, a.attained, b.attained)
