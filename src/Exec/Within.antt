-- ===== src/Exec/Within.antt =====
-- What an evaluation of src/exec.c leaves has every variable that was there: the steps that the cases of
-- the interpreter are made of.
use streem.Base.{
  refl, Bool, true, Option, none, some, List, [], ◌∷◌, Status, ok, ℕ, if_case, status_case,
  option_case, bytes_eq,
}
use streem.Khash.{Khash, Laws}
use streem.Value.{ary_new, Value, arr}
use streem.Node
use streem.Node.{
  Name, Node, Nodes, Cases, null, int_lit, float_lit, time_lit, str_lit, bool_lit, nil_lit, ident,
  let_node, if_node, op_node, plambda, array, splat, call, fcall, return_node, skip, emit_nil, emit,
  nodes, ns_node, import_node, nother, nend, ncons, no_case, case_node,
}
use streem.Exec.{Machine, Message, Exc, runtime, returned, skipped}
use streem.Exec.State.{raise, var_set, strm_ns_get, at, var_set}
use streem.Exec.Keep.{Keeps, keeps_refl, keeps_trans, keeps_same, var_set_keeps}
use streem.Exec.Once.{node_keeps}
use streem.Exec.Eval.{
  ary_get, give, Res, Outcome, Items, Runtime, with_res, with_items, then_ok, bind_args, match_args,
  lambda_kind, array_new, caught, give, ary_get,
}

abbrev pub Kept : {T : Type 0} → Khash T Name Value → Machine T → Outcome T → Type 0
Kept h m none = Unit
Kept h m (some r) = Keeps h m r.machine

-- What an evaluation left, if it came to an end, has every variable that was there.
pub record Within {T : Type 0} (h : Khash T Name Value) (m : Machine T) (o : Outcome T)
    : Type 0 where
  pub kept : Kept h m o

abbrev pub ItemsKept : {T : Type 0} → Khash T Name Value → Machine T → Option (Items T) → Type 0
ItemsKept h m none = Unit
ItemsKept h m (some r) = Keeps h m r.machine

pub record ItemsWithin {T : Type 0} (h : Khash T Name Value) (m : Machine T) (o : Option (Items T))
    : Type 0 where
  pub kept : ItemsKept h m o

module _ {T : Type 0} (rt : Runtime T) (laws : Laws bytes_eq rt.hash) where
  pub same : (m : Machine T) → Keeps rt.hash m m
  same m = keeps_refl rt.hash m

  -- `strm_raise`, `strm_emit` and the exceptions of `return` and `skip` leave the variables.
  pub raising : (m : Machine T) (e : Message) → Keeps rt.hash m (raise m e)
  raising m e = keeps_same rt.hash m (raise m e) refl refl

  pub here : (m : Machine T) (r : Res T) → Keeps rt.hash m r.machine → Within rt.hash m (some r)
  here m r p = record { kept = p }

  -- An outcome of the memory as it is.
  pub stays : (r : Res T) → Within rt.hash r.machine (some r)
  stays r = here r.machine r (same r.machine)

  pub further :
      (m m1 : Machine T) (o : Outcome T)
      → Keeps rt.hash m m1
      → Within rt.hash m1 o
      → Within rt.hash m o
  further m m1 none p q = record { kept = tt }
  further m m1 (some r) p q = record { kept = keeps_trans rt.hash m m1 r.machine p q.kept }

  pub items_further :
      (m m1 : Machine T) (o : Option (Items T))
      → Keeps rt.hash m m1
      → ItemsWithin rt.hash m1 o
      → ItemsWithin rt.hash m o
  items_further m m1 none p q = record { kept = tt }
  items_further m m1 (some r) p q = record { kept = keeps_trans rt.hash m m1 r.machine p q.kept }

  pub after_res :
      (m : Machine T) (o : Outcome T) (k : Res T → Outcome T)
      → Within rt.hash m o
      → ((r : Res T) → Within rt.hash r.machine (k r))
      → Within rt.hash m (with_res o k)
  after_res m none k p f = record { kept = tt }
  after_res m (some r) k p f = further m r.machine (k r) p.kept (f r)

  pub after_items :
      (m : Machine T) (o : Option (Items T)) (k : Items T → Outcome T)
      → ItemsWithin rt.hash m o
      → ((r : Items T) → Within rt.hash r.machine (k r))
      → Within rt.hash m (with_items o k)
  after_items m none k p f = record { kept = tt }
  after_items m (some r) k p f = further m r.machine (k r) p.kept (f r)

  pub after_ok :
      (m : Machine T) (o : Outcome T) (k : Value → Machine T → Outcome T)
      → Within rt.hash m o
      → ((v : Value) (m1 : Machine T) → Within rt.hash m1 (k v m1))
      → Within rt.hash m (then_ok o k)
  after_ok m o k p f = after_res m o _ p λ r.
      status_case (Within rt.hash r.machine) r.status _ _ _ (f r.val r.machine) (stays r) (stays r)

  pub then_items :
      (m : Machine T) (o : Outcome T) (k : Res T → Option (Items T))
      → Within rt.hash m o
      → ((r : Res T) → ItemsWithin rt.hash r.machine (k r))
      → ItemsWithin rt.hash m (elim o [ none ↦ none | some r ↦ k r ])
  then_items m none k p f = record { kept = tt }
  then_items m (some r) k p f = items_further m r.machine (k r) p.kept (f r)

  pub with_head :
      (m : Machine T) (o : Option (Items T)) (x : Bool × Value)
      → ItemsWithin rt.hash m o
      → ItemsWithin rt.hash m
          (elim o [ none ↦ none | some is ↦ some (record is { vals = x ∷ is.vals }) ])
  with_head m none x p = record { kept = tt }
  with_head m (some is) x p = record { kept = p.kept }

  pub ary_keeps :
      (m : Machine T) (a : Value) (vs : List Value) (v : Value)
      → Keeps rt.hash m (ary_get rt m a vs v).machine
  unfolding ary_get
  ary_keeps m a [] v = raising m _
  ary_keeps m (arr h xs) (x ∷ []) v = same m
  ary_keeps m _ (x ∷ []) v = same m
  ary_keeps m a (x ∷ y ∷ vs) v = raising m _

  pub caught_keeps : (r : Res T) → Within rt.hash r.machine (caught rt r)
  caught_keeps r =
      status_case (Within rt.hash r.machine) r.status _ _ _ (stays r) (exc_case r.machine.exc)
        (stays r)
    where
      exc_case :
          (e : Option Exc)
          → Within rt.hash r.machine
              (elim e [ some (returned v) ↦ give ok v r.machine | _ ↦ some r ])
      exc_case none = stays r
      exc_case (some (returned v)) = stays (record { status = ok; val = v; machine = r.machine })
      exc_case (some (runtime e)) = stays r
      exc_case (some skipped) = stays r

  pub bind_keeps :
      (c : ℕ) (ks : List Name) (m : Machine T) (vs : List Value)
      → Keeps rt.hash m (bind_args rt m c ks vs).1
  unfolding bind_args
  bind_keeps c [] m vs = same m
  bind_keeps c (k ∷ ks) m [] = same m
  bind_keeps c (k ∷ ks) m (v ∷ vs) =
      let p = var_set_keeps rt.hash laws m c k v in
      let m1 = (var_set rt.hash m c k v).1 in
      status_case (λ (r : Status × Machine T). Keeps rt.hash m r.1) (var_set rt.hash m c k v).0 _ _
        _ (keeps_trans rt.hash m m1 _ p (bind_keeps c ks m1 vs)) p p

  pub kind_case :
      (m : Machine T) (n : Node) (f : List Name → Node → Outcome T) (g : Cases → Outcome T)
      (x : Outcome T)
      → ((ks : List Name) (b : Node) → Within rt.hash m (f ks b))
      → ((cs : Cases) → Within rt.hash m (g cs))
      → Within rt.hash m x
      → Within rt.hash m (lambda_kind n f g x)
  kind_case m (Node.lambda ks b) f g x p q r = p ks b
  kind_case m (plambda cs) f g x p q r = q cs
  kind_case m _ f g x p q r = r

  pub args_keep :
      (p : Option Node.Pattern) (m : Machine T) (c : ℕ) (vs : List Value)
      → Keeps rt.hash m (match_args rt p m c vs).1
  args_keep none m c vs = same m
  args_keep (some p) m c vs =
      node_keeps rt.hash laws rt.floats rt.value_eq rt.value_ns p true m c (ary_new vs)

  -- A case that does not match takes the table out of the new state, which is then made again.
  pub emptied :
      (m : Machine T) (c : ℕ) (o : Outcome T)
      → Within rt.hash (record m { env = at m.env c none }) o
      → Within rt.hash m o
  emptied m c o p = further m _ o (keeps_same rt.hash m _ refl refl) p

  pub array_keeps :
      (b : Bool) (ls : Option (List Name)) (k : Option Name) (r : Items T) (v : Value)
      → Within rt.hash r.machine (array_new rt b ls k r v)
  unfolding array_new
  array_keeps b ls k r v =
      let m = r.machine in
      status_case (Within rt.hash m) r.status _ _ _
        (if_case (Within rt.hash m) _ _ _ (here m _ (raising m _)) (
          option_case (Within rt.hash m) k _ _ (stays _) λ j.
            option_case (Within rt.hash m) (strm_ns_get m j) _ _ (stays _)
              λ s. if_case (Within rt.hash m) (m.udef s) _ _ (stays _) (here m _ (raising m _))))
        (stays _) (stays _)
