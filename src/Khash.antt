-- ===== src/Khash.antt =====
-- The hash table that the runtime uses, src/khash.h (a copy of klib's): the operations that the code
-- calls, as an interface, with what is documented of them. The code under src/ that uses a table
-- takes these as parameters.
pub mod Assoc
use streem.Base.{
  ◌≡◌, Bool, true, false, Option, none, some, List, [], ◌∷◌, if◌then◌else◌, ◌≢◌, not, ◌⊎◌,
}

-- The status that `kh_put` gives through `ret`: below 0, 0, above 0.
pub data Put : Type 0 where
  failed present added : Put

-- `T` is the type of the tables from K to V.
pub record Khash (T K V : Type 0) : Type 0 where
  -- `kh_init`
  pub init : T
  -- `kh_get`, and `kh_value` of the slot found
  pub get : T → K → Option V
  -- `kh_put`: the status and the table, in which the value of a slot just added is whatever memory held
  pub put : T → K → Put × T
  -- `kh_value(t, slot of k) = v`
  pub assign : T → K → V → T
  -- the slots that `kh_exist` finds from `kh_begin` to `kh_end`
  pub entries : T → List (K × V)

module _ {K V : Type 0} (eq : K → K → Bool) where
  -- The first pair with the key.
  abbrev pub lookup : List (K × V) → K → Option V
  lookup [] k = none
  lookup ((j, v) ∷ m) k = if eq j k then some v else lookup m k

  abbrev pub Distinct : List (K × V) → Type 0
  Distinct [] = Unit
  Distinct ((j, v) ∷ m) = (lookup m j ≡ none) × Distinct m

  pub record Laws {T : Type 0} (h : Khash T K V) : Type 0 where
    -- Keys are equal where they are the same pointer.
    pub eq-≡ : (k j : K) → eq k j ≡ true → k ≡ j
    pub get-init : (k : K) → h.get h.init k ≡ none
    -- A key that is there is found, and the table stays.
    pub put-present : (t : T) (k : K) (v : V) → h.get t k ≡ some v → h.put t k ≡ (present, t)
    -- A key that is not there is added, unless memory runs out, when the table stays.
    pub put-absent :
        (t : T) (k : K) → h.get t k ≡ none → ((h.put t k).0 ≡ added) ⊎ (h.put t k ≡ (failed, t))
    -- An added slot has some value, and the other keys keep theirs.
    pub put-same : (t : T) (k : K) → (h.put t k).0 ≡ added → h.get (h.put t k).1 k ≢ none
    pub put-other : (t : T) (k j : K) → eq k j ≡ false → h.get (h.put t k).1 j ≡ h.get t j
    -- A write to a slot that is there.
    pub get-assign :
        (t : T) (k j : K) (v : V)
        → h.get t k ≢ none
        → h.get (h.assign t k v) j ≡ (if eq k j then some v else h.get t j)
    pub lookup-entries : (t : T) (k : K) → lookup (h.entries t) k ≡ h.get t k
    pub entries-Distinct : (t : T) → Distinct (h.entries t)
