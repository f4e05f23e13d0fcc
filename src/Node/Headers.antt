-- ===== src/Node/Headers.antt =====
-- What `node_array_headers` of src/node.c makes of an array.
use streem.Base.{
  map-append, ap₂, ℕ, zero, suc, Bool, true, false, Option, none, some, List, [], ◌∷◌, ◌++◌, ◌≡◌,
  ◌+◌, refl, length, set, replicate, map, set-append, append-snoc, length-append, arith, ◌∙◌, ap,
  sym, if◌then◌else◌, append-nil,
}
use streem.Node.{Name, Node}
use streem.Node.Build.{Growing, Item, node, pair, headers_from, node_array_headers}

-- The label of an element, if it has one, and the node.
abbrev pub label_of : Item → Option Name
label_of (node n) = none
label_of (pair key n) = some key

abbrev pub node_in : Item → Node
node_in (node n) = n
node_in (pair key n) = n

abbrev pub has_pair : List Item → Bool
has_pair [] = false
has_pair (node n ∷ xs) = has_pair xs
has_pair (pair key n ∷ xs) = true

-- Labels in a memory that is written up to here.
abbrev labels : List Item → ℕ → List (Option Name)
labels pre n = map label_of pre ++ replicate n none

length-labels : (pre : List Item) → length (map label_of pre) ≡ length pre
length-labels [] = refl
length-labels (x ∷ pre) = ap suc (length-labels pre)

-- One more element has been looked at.
one_more : (pre : List Item) (x : Item) → suc (length pre) ≡ length (pre ++ (x ∷ []))
one_more pre x = omega (arith, length-append pre (x ∷ []))

labels-snoc :
    (pre : List Item) (x : Item) (m : ℕ)
    → labels (pre ++ (x ∷ [])) m ≡ map label_of pre ++ (label_of x ∷ replicate m none)
labels-snoc pre x m =
    ap (λ t. t ++ replicate m none) (map-append label_of pre (x ∷ []))
    ∙ append-snoc (map label_of pre) (label_of x) (replicate m none)

put_label :
    (pre : List Item) (key : Name) (n : Node) (m : ℕ)
    → set (labels pre (suc m)) (length pre) (some key) ≡ labels (pre ++ (pair key n ∷ [])) m
put_label pre key n m =
    set-append (map label_of pre) none (replicate m none) (some key) (length pre)
      (sym (length-labels pre))
    ∙ sym (labels-snoc pre (pair key n) m)

-- The element x goes before the result of the rest.
abbrev before :
    Item → List Node × Option (List (Option Name)) → List Node × Option (List (Option Name))
before x (ns, r) = (node_in x ∷ ns, r)

headers-some :
    (len : ℕ) (pre xs : List Item)
    → headers_from len (length pre) (some (labels pre (length xs))) xs
      ≡ (map node_in xs, some (map label_of (pre ++ xs)))
unfolding headers_from
headers-some len pre [] =
    ap (λ t. ([], some t))
      (append-nil (map label_of pre) ∙ ap (λ t. map label_of t) (sym (append-nil pre)))
headers-some len pre (node n ∷ xs) = ap (before (node n)) (
    ap₂ (λ i l. headers_from len i (some l) xs) (one_more pre (node n))
      (sym (labels-snoc pre (node n) (length xs)))
    ∙ headers-some len (pre ++ (node n ∷ [])) xs
    ∙ ap (λ t. (map node_in xs, some (map label_of t))) (append-snoc pre (node n) xs))
headers-some len pre (pair key n ∷ xs) = ap (before (pair key n)) (
    ap₂ (λ i l. headers_from len i (some l) xs) (one_more pre (pair key n))
      (put_label pre key n (length xs))
    ∙ headers-some len (pre ++ (pair key n ∷ [])) xs
    ∙ ap (λ t. (map node_in xs, some (map label_of t))) (append-snoc pre (pair key n) xs))

replicate-append :
    (a b : ℕ) → replicate {A = Option Name} (a + b) none ≡ replicate a none ++ replicate b none
replicate-append zero b = ap (λ n. replicate n none) (let e : 0 + b ≡ b = omega arith in e)
replicate-append (suc a) b =
    let e : suc a + b ≡ suc (a + b) = omega arith in
    ap (λ n. replicate n none) e ∙ ap (λ t. none ∷ t) (replicate-append a b)

replicate-snoc :
    (a : ℕ) → replicate {A = Option Name} a none ++ (none ∷ []) ≡ replicate (suc a) none
replicate-snoc zero = refl
replicate-snoc (suc a) = ap (λ t. none ∷ t) (replicate-snoc a)

-- Without a pair so far there are no headers.
headers-none :
    (len : ℕ) (pre xs : List Item)
    → len ≡ length pre + length xs
    → map label_of pre ≡ replicate (length pre) none
    → headers_from len (length pre) none xs
      ≡ (map node_in xs, if has_pair xs then some (map label_of (pre ++ xs)) else none)
unfolding headers_from
headers-none len pre [] e h = refl
headers-none len pre (node n ∷ xs) e h =
    let x = node n in
    let q : map label_of (pre ++ (x ∷ [])) ≡ replicate (length (pre ++ (x ∷ []))) none =
      map-append label_of pre (x ∷ [])
      ∙ ap (λ t. t ++ (none ∷ [])) h
      ∙ replicate-snoc (length pre)
      ∙ ap (λ k. replicate k none) (one_more pre x) in
    ap (before x) (
      ap (λ i. headers_from len i none xs) (one_more pre x)
      ∙ headers-none len (pre ++ (x ∷ [])) xs (omega (arith, e, one_more pre x)) q
      ∙ ap (λ t. (map node_in xs, if has_pair xs then some (map label_of t) else none))
          (append-snoc pre x xs))
headers-none len pre (pair key n ∷ xs) e h =
    let x = pair key n in
    let m = length xs in
    let q : set (replicate len none) (length pre) (some key) ≡ labels (pre ++ (x ∷ [])) m =
      ap (λ k. set (replicate k none) (length pre) (some key)) e
      ∙ ap (λ l. set l (length pre) (some key))
          (replicate-append (length pre) (suc m) ∙ ap (λ t. t ++ replicate (suc m) none) (sym h))
      ∙ put_label pre key n m in
    ap (before x) (
      ap₂ (λ i l. headers_from len i (some l) xs) (one_more pre x) q
      ∙ headers-some len (pre ++ (x ∷ [])) xs
      ∙ ap (λ t. (map node_in xs, some (map label_of t))) (append-snoc pre x xs))

-- The nodes of an array are those of its elements, without the pairs. The headers are there if an
-- element is a pair, and have the label of each pair in its place; the places of the other elements
-- are memory that was never written.
pub node_array_headers_lem :
    (v : Growing Item)
    → node_array_headers (some v) ≡ (
      map node_in v.elements,
      if has_pair v.elements then some (map label_of v.elements) else none,
    )
node_array_headers_lem v = headers-none (length v.elements) [] v.elements (omega arith) refl
