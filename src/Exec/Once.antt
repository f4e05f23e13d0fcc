-- ===== src/Exec/Once.antt =====
-- Assignment in src/exec.c: no pattern and no evaluation changes or removes a variable.
use streem.Base.{
  Bool, true, false, Option, List, [], ◌∷◌, ok, ng, abort, ℕ, if_case, status_case, option_case,
  bytes_eq, get_elem?, ◌&&◌, leb, take, length, ◌+◌,
}
use streem.Khash.{Khash, Laws}
use streem.Value.{Value, array_p, FloatOps}
use streem.Node.{
  Name, Pattern, Patterns, Pairs, pident, pstr, pint, pnil, pbool, pfloat, pns, parray, psplat,
  psplat_tail, psplat_struct, pstruct, pother, pend, pcons, no_pair, pair,
}
use streem.Exec.{Machine}
use streem.Exec.Match.{
  Matched, count, values_of, and_then, match_node, match_each, match_pairs, label_at, all_labels,
  values_of,
}
use streem.Exec.Keep.{Keeps, keeps_refl, keeps_trans, var_match_keeps}

module _ {T : Type 0} (h : Khash T Name Value) (laws : Laws bytes_eq h) where
  abbrev pub Good : Machine T → Matched T → Type 0
  Good m r = Keeps h m r.1

  then_keeps :
      (m : Machine T) (r : Matched T) (k : Machine T → Matched T)
      → Good m r
      → ((m1 : Machine T) → Good m1 (k m1))
      → Good m (and_then r k)
  then_keeps m (ok, m1) k p f = keeps_trans h m m1 _ p (f m1)
  then_keeps m (ng, m1) k p f = p
  then_keeps m (abort, m1) k p f = p

  module _ (fo : FloatOps) (value_eq : Value → Value → Bool)
      (value_ns : Machine T → Value → Option ℕ) where
    mutual
      unfolding match_node

      pub node_keeps :
          (p : Pattern) (args : Bool) (m : Machine T) (a : ℕ) (v : Value)
          → Good m (match_node h fo value_eq value_ns p args m a v)
      node_keeps (pident k) true m a v = keeps_refl h m
      node_keeps (pident k) false m a v =
          if_case (Good m) _ _ _ (keeps_refl h m) (var_match_keeps h laws value_eq m a k v)
      node_keeps (pstr s) args m a v = keeps_refl h m
      node_keeps (pint n) args m a v = keeps_refl h m
      node_keeps pnil args m a v = keeps_refl h m
      node_keeps (pbool b) args m a v = keeps_refl h m
      node_keeps (pfloat g) args m a v = keeps_refl h m
      node_keeps (pns k p) true m a v = keeps_refl h m
      node_keeps (pns k p) false m a v =
          if_case (Good m) _ _ _ (node_keeps p false m a v) (keeps_refl h m)
      node_keeps (parray ps) args m a v =
          if_case (Good m) _ _ _ (each_keeps ps m a _) (keeps_refl h m)
      node_keeps (psplat ps p) args m a v =
          if_case (Good m) _ _ _
            (then_keeps m _ _ (each_keeps ps m a _) λ m1. node_keeps p false m1 a _)
            (keeps_refl h m)
      node_keeps (psplat_tail ps p qs) args m a v =
          let vs = values_of v in
          let headed = match_each h fo value_eq value_ns ps m a (take (count ps) vs) in
          let g : Good m headed = each_keeps ps m a (take (count ps) vs) in
          let tried : Good m (and_then headed λ m1. (ng, m1)) =
            then_keeps m headed (λ m1. (ng, m1)) g λ m1. keeps_refl h m1 in
          if_case (Good m) (array_p v && leb (count ps) (length vs)) _ _
            (if_case (Good m) (leb (count ps + count qs) (length vs)) _ _
              (then_keeps m headed _ g λ m1.
                then_keeps m1 (match_node h fo value_eq value_ns p true m1 a _) _
                  (node_keeps p true m1 a _) λ m2. each_keeps qs m2 a _)
              tried)
            (keeps_refl h m)
      node_keeps (psplat_struct ps p) true m a v =
          if_case (Good m) _ _ _ (node_keeps p false m a v) (keeps_refl h m)
      node_keeps (psplat_struct ps p) false m a v =
          if_case (Good m) _ _ _
            (then_keeps m _ _ (pairs_keep ps true m a v []) λ m1. node_keeps p false m1 a _)
            (keeps_refl h m)
      node_keeps (pstruct ps) true m a v = keeps_refl h m
      node_keeps (pstruct ps) false m a v =
          if_case (Good m) _ _ _ (pairs_keep ps false m a v []) (keeps_refl h m)
      node_keeps pother args m a v = keeps_refl h m

      each_keeps :
          (ps : Patterns) (m : Machine T) (a : ℕ) (vs : List Value)
          → Good m (match_each h fo value_eq value_ns ps m a vs)
      each_keeps pend m a [] = keeps_refl h m
      each_keeps pend m a (v ∷ vs) = keeps_refl h m
      each_keeps (pcons p ps) m a [] = keeps_refl h m
      each_keeps (pcons p ps) m a (v ∷ vs) =
          if_case (Good m) _ _ _
            (then_keeps m _ _ (node_keeps p false m a v) λ m1. each_keeps ps m1 a vs)
            (keeps_refl h m)

      pairs_keep :
          (ps : Pairs) (tbl : Bool) (m : Machine T) (a : ℕ) (v : Value) (t : List ℕ)
          → Good m (match_pairs h fo value_eq value_ns ps tbl m a v t).0
      pairs_keep no_pair tbl m a v t = keeps_refl h m
      pairs_keep (pair k p ps) tbl m a v t =
          option_case (λ (r : Matched T × List ℕ). Good m r.0) (label_at k (all_labels v) 0) _ _
            (keeps_refl h m)
            λ j.
              option_case (λ (r : Matched T × List ℕ). Good m r.0) (get_elem? (values_of v) j) _ _
                (keeps_refl h m)
                λ x.
                  let r = match_node h fo value_eq value_ns p false m a x in
                  let g : Good m r = node_keeps p false m a x in
                  status_case (λ (r : Matched T × List ℕ). Good m r.0) r.0 _ _ _
                    (if_case (λ (r : Matched T × List ℕ). Good m r.0) (tbl && leb 31 j) _ _ g
                      (keeps_trans h m r.1 _ g (pairs_keep ps tbl r.1 a v (j ∷ t))))
                    g g
