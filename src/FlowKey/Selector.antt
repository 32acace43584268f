-- ===== src/FlowKey/Selector.antt =====
-- packet/key.go: DynamicKeySelector and Key. The scratch arrays are the lists of the bytes that are
-- in use, and their lengths are the constants below.
use go_flows.Shared.{
  ℕ, ◌-◌, Bool, true, false, not, ◌&&◌, Option, none, some, List, [], ◌∷◌, ◌++◌, ltb, ◌==◌,
  if◌then◌else◌, length, Key,
}

-- What a key function writes, to the start of one of its two slices: `scratch` or `scratchNoSort`.
-- No key function of the repository writes to both.
pub data Written : Type 0 where
  sorted : List ℕ → Written
  unsorted : List ℕ → Written

-- A key function reads the packet and the lengths of the two slices; `none` is a panic.
abbrev pub KeyFunc : Type 0 → Type 0
KeyFunc P = P → ℕ → ℕ → Option Written

pub record Selector (P : Type 0) : Type 0 where
  pub source : List (KeyFunc P)
  pub destination : List (KeyFunc P)
  pub uni : List (KeyFunc P)
  pub no_zero : Bool
  pub bidirectional : Bool
  pub empty : Bool

-- The bytes gathered for sorting, and the others; `rejected` is a field that is missing.
pub data Gathered : Type 0 where
  panicked : Gathered
  rejected : Gathered
  gathered : List ℕ → List ℕ → Gathered

-- The results of Key: a key and the direction, or `ok` false.
pub data Selected : Type 0 where
  panic : Selected
  not_ok : Selected
  ok : Key → Bool → Selected

abbrev pub scratch_size : ℕ
scratch_size = 1024

abbrev pub scratch_uni_size : ℕ
scratch_uni_size = 2048

abbrev pub is_empty : List ℕ → Bool
is_empty [] = true
is_empty (_ ∷ _) = false

-- bytes.Compare(s, d) > 0.
unfoldable pub greater : List ℕ → List ℕ → Bool
greater [] _ = false
greater (_ ∷ _) [] = true
greater (x ∷ s) (y ∷ d) = if x == y then greater s d else ltb y x

-- What the loops over `source` and `destination` do with the bytes of one function.
unfoldable pub gather_written : Bool → Option Written → List ℕ → List ℕ → Gathered
gather_written no_zero none s u = panicked
gather_written no_zero (some (sorted bs)) s u =
    if is_empty bs && no_zero then rejected else gathered (s ++ bs) u
gather_written no_zero (some (unsorted bs)) s u =
    if is_empty bs && no_zero then rejected else gathered s (u ++ bs)

abbrev pub and_then {ℓ} : {A : Type ℓ} → Gathered → A → A → (List ℕ → List ℕ → A) → A
and_then panicked p r f = p
and_then rejected p r f = r
and_then (gathered s u) p r f = f s u

abbrev pub bytes_of : Written → List ℕ
bytes_of (sorted bs) = bs
bytes_of (unsorted bs) = bs

unfoldable pub gather_uni_written : Bool → Option Written → List ℕ → Gathered
gather_uni_written no_zero none u = panicked
gather_uni_written no_zero (some w) u =
    if is_empty (bytes_of w) && no_zero then rejected else gathered [] (u ++ bytes_of w)

-- The last lines of Key: the smaller of both sides comes first.
unfoldable pub build : List ℕ → List ℕ → List ℕ → Selected
build s d u = if greater s d then ok (d ++ s ++ u) false else ok (s ++ d ++ u) true

module _ {P : Type 0} where
  unfoldable pub gather : Bool → List (KeyFunc P) → P → List ℕ → List ℕ → Gathered
  gather no_zero [] packet s u = gathered s u
  gather no_zero (f ∷ fs) packet s u =
      and_then
        (gather_written no_zero (f packet (scratch_size - length s) (scratch_uni_size - length u)) s
          u)
        panicked rejected (gather no_zero fs packet)

  -- The loop over `uni`, for which both slices are the rest of one array.
  unfoldable pub gather_uni : Bool → List (KeyFunc P) → P → List ℕ → Gathered
  gather_uni no_zero [] packet u = gathered [] u
  gather_uni no_zero (f ∷ fs) packet u =
      let left = scratch_uni_size - length u in
      and_then (gather_uni_written no_zero (f packet left left) u) panicked rejected
        (λ _ u'. gather_uni no_zero fs packet u')

  -- The end of Key, for a bidirectional selector.
  unfoldable pub key_both_ways : Selector P → P → Selected
  key_both_ways selector packet =
      and_then (gather selector.no_zero selector.source packet [] []) panic not_ok (λ s u.
        and_then (gather selector.no_zero selector.destination packet [] u) panic not_ok (λ d v.
          and_then (gather_uni selector.no_zero selector.uni packet v) panic not_ok
            (λ _ w. build s d w)))

  unfoldable pub key : Selector P → P → Selected
  key selector packet =
      if selector.empty
      then ok [] true
      else if not selector.bidirectional
      then and_then (gather_uni selector.no_zero selector.uni packet []) panic not_ok
          (λ _ u. ok u true)
      else key_both_ways selector packet
