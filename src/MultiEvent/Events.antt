-- ===== src/MultiEvent/Events.antt =====
-- flows/feature.go: SetArguments of MultiBasePacketFeature, and CheckAll and Reset of the four kinds of
-- event tracking. A feature is its index in the record; V is the type of values, with nil among them.
-- `constant_value` gives the value of a constant and none for other features, and `value` what
-- another feature's Value returns. none is an index out of range.
use go_flows.Shared.{
  ℕ, suc, Bool, true, false, ◌&&◌, List, [], ◌∷◌, Option, none, some, if◌then◌else◌, ◌==◌, ltb,
  get_elem?, set, replicate, length,
}

-- An entry of the list of arguments: a constant, a feature, or nil.
pub data Slot (V : Type 0) : Type 0 where
  held : V → Slot V
  waiting : ℕ → Slot V
  empty : Slot V

pub record DualNoConst (V : Type 0) : Type 0 where
  pub c0 : V
  pub c1 : V
  pub nc0 : ℕ
  pub nc1 : ℕ
  pub state0 : Bool
  pub state1 : Bool

pub record Dual (V : Type 0) : Type 0 where
  pub c : List (Slot V)
  pub nc0 : ℕ
  pub nc1 : ℕ
  pub state0 : Bool
  pub state1 : Bool

-- `nc` has the newest entry of a key first.
pub record Generic (V : Type 0) : Type 0 where
  pub c : List (Slot V)
  pub nc : List (ℕ × ℕ)
  pub state : List Bool

-- singleMultiEvent with whichN 0 and 1, and the constant.
pub data MultiEvent (V : Type 0) : Type 0 where
  single_first : V → MultiEvent V
  single_second : V → MultiEvent V
  dual_no_const : DualNoConst V → MultiEvent V
  dual : Dual V → MultiEvent V
  generic : Generic V → MultiEvent V

abbrev pub prepend {ℓ} : {A : Type ℓ} → A → Option (List A) → Option (List A)
prepend a none = none
prepend a (some l) = some (a ∷ l)

-- A Go map with a missing key at 0.
abbrev pub index_of : List (ℕ × ℕ) → ℕ → ℕ
index_of [] k = 0
index_of ((j, i) ∷ m) k = if j == k then i else index_of m k

abbrev pub all_true : List Bool → Bool
all_true [] = true
all_true (b ∷ bs) = b && all_true bs

module _ {V : Type 0} (nil : V) (constant_value : ℕ → Option V) where
  abbrev pub slot_of : ℕ → Option V → Slot V
  slot_of a none = waiting a
  slot_of a (some v) = held v

  unfoldable pub feature_list : List ℕ → List (Slot V)
  feature_list [] = []
  feature_list (a ∷ rest) = slot_of a (constant_value a) ∷ feature_list rest

  -- The indices of the arguments that are no constants, from `i` on.
  unfoldable pub waiting_from : ℕ → List (Slot V) → List ℕ
  waiting_from i [] = []
  waiting_from i (waiting a ∷ rest) = i ∷ waiting_from (suc i) rest
  waiting_from i (s ∷ rest) = waiting_from (suc i) rest

  abbrev pub feature_at : Option (Slot V) → ℕ
  feature_at (some (waiting a)) = a
  feature_at _ = 0

  unfoldable pub index_features : List (Slot V) → List ℕ → List (ℕ × ℕ) → List (ℕ × ℕ)
  index_features slots [] m = m
  index_features slots (i ∷ rest) m =
      index_features slots rest ((feature_at (get_elem? slots i), i) ∷ m)

  -- By the number of arguments that are no constants.
  abbrev pub tracked : List (Slot V) → List ℕ → MultiEvent V
  tracked slots (i ∷ j ∷ []) = dual (record {
    c = set (set slots i empty) j empty;
    nc0 = feature_at (get_elem? slots i);
    nc1 = feature_at (get_elem? slots j);
    state0 = false;
    state1 = false;
  })
  tracked slots features = generic (record {
    c = slots;
    nc = index_features slots features [];
    state = replicate (length features) false;
  })

  abbrev pub pair_of_arguments : ℕ → ℕ → Option V → Option V → MultiEvent V
  pair_of_arguments a b (some v) w = single_second v
  pair_of_arguments a b none (some w) = single_first w
  pair_of_arguments a b none none =
      dual_no_const
        (record { c0 = nil; c1 = nil; nc0 = a; nc1 = b; state0 = false; state1 = false })

  unfoldable pub set_arguments : List ℕ → MultiEvent V
  set_arguments (a ∷ b ∷ []) = pair_of_arguments a b (constant_value a) (constant_value b)
  set_arguments args = let slots = feature_list args in tracked slots (waiting_from 0 slots)

module _ {V : Type 0} (nil : V) (value : ℕ → V) where
  abbrev pub mark_no_const : V → ℕ → DualNoConst V → DualNoConst V
  mark_no_const new which d =
      if which == d.nc0
      then record d { state0 = true; c0 = new }
      else if which == d.nc1
      then record d { state1 = true; c1 = new }
      else d

  abbrev pub mark_dual : ℕ → Dual V → Dual V
  mark_dual which d =
      if which == d.nc0
      then record d { state0 = true }
      else if which == d.nc1
      then record d { state1 = true }
      else d

  -- The constants, and the values of `features` where nil stands.
  abbrev pub fill_nil : List ℕ → List (Slot V) → Option (List V)
  fill_nil fs [] = some []
  fill_nil fs (held v ∷ rest) = prepend v (fill_nil fs rest)
  fill_nil fs (waiting a ∷ rest) = prepend (value a) (fill_nil fs rest)
  fill_nil [] (empty ∷ rest) = none
  fill_nil (f ∷ fs) (empty ∷ rest) = prepend (value f) (fill_nil fs rest)

  abbrev pub current : List (Slot V) → List V
  current [] = []
  current (held v ∷ rest) = v ∷ current rest
  current (waiting a ∷ rest) = value a ∷ current rest
  current (empty ∷ rest) = nil ∷ current rest

  -- The answer of CheckAll, which is nil where an argument has not emitted.
  abbrev pub Answer : Type 0
  Answer = Option (MultiEvent V × Option (List V))

  abbrev pub answer : MultiEvent V → Bool → Option (List V) → Answer
  answer m false vs = some (m, none)
  answer m true none = none
  answer m true (some vs) = some (m, some vs)

  abbrev pub check_dual_no_const : DualNoConst V → Answer
  check_dual_no_const d = answer (dual_no_const d) (d.state0 && d.state1) (some (d.c0 ∷ d.c1 ∷ []))

  abbrev pub check_dual : Dual V → Answer
  check_dual d = answer (dual d) (d.state0 && d.state1) (fill_nil (d.nc0 ∷ d.nc1 ∷ []) d.c)

  abbrev pub check_generic : ℕ → Generic V → Answer
  check_generic i g =
      if ltb i (length g.state)
      then answer (generic (record g { state = set g.state i true }))
          (all_true (set g.state i true)) (some (current g.c))
      else none

  unfoldable pub check_all : V → ℕ → MultiEvent V → Answer
  check_all new which (single_first v) = some (single_first v, some (new ∷ v ∷ []))
  check_all new which (single_second v) = some (single_second v, some (v ∷ new ∷ []))
  check_all new which (dual_no_const d) = check_dual_no_const (mark_no_const new which d)
  check_all new which (dual d) = check_dual (mark_dual which d)
  check_all new which (generic g) = check_generic (index_of g.nc which) g

  unfoldable pub reset : MultiEvent V → MultiEvent V
  reset (dual_no_const d) = dual_no_const (record d { state0 = false; state1 = false })
  reset (dual d) = dual (record d { state0 = false; state1 = false })
  reset (generic g) = generic (record g { state = replicate (length g.state) false })
  reset m = m
