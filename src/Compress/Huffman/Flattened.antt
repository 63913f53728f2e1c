-- ===== src/Compress/Huffman/Flattened.antt =====
-- The flat tree has the links of the nodes.
use mathlib.Core.Option.{some-injective}
use knowledge_acquisition.Prelude.{
  ℕ, zero, suc, ◌+◌, ◌-◌, ◌%◌, ◌<◌, ◌≤◌, ◌≡◌, ◌≢◌, refl, ap, ◌∙◌, arith, ℤ, pos, sub_ℕ, true, false,
  none, some, List, [], ◌∷◌, ◌++◌, length, length-set, length-append, get_elem?,
  get_elem?-set_other, get_elem?-set_here, set, ltb, leb, ◌==◌, Bool-cases, Option-cases, inl, inr,
  ◌⊎◌,
}
use knowledge_acquisition.Compress.Huffman.{FlatNode, leaf, inner, child, max_nodes}
use knowledge_acquisition.Compress.Huffman.Build.{
  TempNode, node_capacity, Flat, link, visit, flatten,
}
use knowledge_acquisition.Compress.Huffman.Forest.{is_leaf, is_inner, IsForest}

-- What a link of the `j`-th flat node says of a child.
abbrev pub Linked : List TempNode → List ℕ → ℕ → ℤ → ℕ → Type 0
Linked nodes queue j l c =
    (node : TempNode) × (get_elem? nodes c ≡ some node)
    × (((0 < node.ch) × (child l ≡ leaf node.ch))
        ⊎ ((node.ch ≡ 0) × (k : ℕ) × (child l ≡ inner k) × (j < k) × (get_elem? queue k ≡ some c)))

abbrev Extends : List ℕ → List ℕ → Type 0
Extends queue queue' = (k i : ℕ) → get_elem? queue k ≡ some i → get_elem? queue' k ≡ some i

Linked-Extends :
    (nodes : List TempNode) (queue queue' : List ℕ) (j c : ℕ) (l : ℤ)
    → Extends queue queue'
    → Linked nodes queue j l c
    → Linked nodes queue' j l c
Linked-Extends nodes queue queue' j c l h (node, e, inl x) = (node, e, inl x)
Linked-Extends nodes queue queue' j c l h (node, e, inr (z, k, q, m, g)) =
    (node, e, inr (z, k, q, m, h k c g))

-- The `j`-th flat node is the `j`-th node of the queue.
pub record Entry (nodes : List TempNode) (queue : List ℕ) (tree : List FlatNode) (j : ℕ)
    : Type 0 where
  pub idx : ℕ
  pub queued : get_elem? queue j ≡ some idx
  pub node : TempNode
  pub at_idx : get_elem? nodes idx ≡ some node
  pub left_idx : ℕ
  pub right_idx : ℕ
  pub left_is : node.left_child ≡ some left_idx
  pub right_is : node.right_child ≡ some right_idx
  pub flat : FlatNode
  pub at_j : get_elem? tree j ≡ some flat
  pub left_linked : Linked nodes queue j flat.left left_idx
  pub right_linked : Linked nodes queue j flat.right right_idx

pub record IsQueue (nodes : List TempNode) (root : ℕ) (queue : List ℕ) (flat_idx : ℕ) : Type 0 where
  pub index : flat_idx + 1 ≡ length queue
  pub room : length queue ≤ node_capacity
  pub first : get_elem? queue 0 ≡ some root
  pub queued :
      (k i : ℕ)
      → get_elem? queue k ≡ some i
      → (node : TempNode) × (get_elem? nodes i ≡ some node) × (node.ch ≡ 0)

Extends-snoc : (queue : List ℕ) (x : ℕ) → Extends queue (queue ++ (x ∷ []))
Extends-snoc [] x k i e = cc
Extends-snoc (y ∷ queue) x zero i e = e
Extends-snoc (y ∷ queue) x (suc k) i e = Extends-snoc queue x k i e

get_elem?-new : (queue : List ℕ) (x : ℕ) → get_elem? (queue ++ (x ∷ [])) (length queue) ≡ some x
get_elem?-new [] x = refl
get_elem?-new (y ∷ queue) x = get_elem?-new queue x

get_elem?-cases :
    (queue : List ℕ) (x k i : ℕ)
    → get_elem? (queue ++ (x ∷ [])) k ≡ some i
    → (get_elem? queue k ≡ some i) ⊎ (x ≡ i)
get_elem?-cases [] x zero i e = inr (some-injective x i e)
get_elem?-cases [] x (suc k) i e = cc
get_elem?-cases (y ∷ queue) x zero i e = inl e
get_elem?-cases (y ∷ queue) x (suc k) i e = get_elem?-cases queue x k i e

pub queue_lt : (queue : List ℕ) (q x : ℕ) → get_elem? queue q ≡ some x → q < length queue
queue_lt [] q x e = cc
queue_lt (y ∷ queue) zero x e = omega arith
queue_lt (y ∷ queue) (suc q) x e = omega (arith, queue_lt queue q x e)

-- The character in a link.
child_char : (ch : ℕ) → 0 < ch → ch < 256 → child (sub_ℕ 0 ch) ≡ leaf ch
child_char zero p q = absurd (omega arith)
child_char (suc n) p q =
    let t : suc (suc n - 0 - 1) % 256 ≡ suc n = omega arith in
    let f : leb (suc n) 0 ≡ false = ground arith in rw f (ap leaf t)

module _ (nodes : List TempNode) (v : IsForest nodes) (root : ℕ) where
  record Links (j c : ℕ) (flat flat' : Flat) (l : ℤ) : Type 0 where
    is_queue : IsQueue nodes root flat'.queue flat'.flat_idx
    same_tree : flat'.tree ≡ flat.tree
    same_size : flat'.tree_size ≡ flat.tree_size
    extends : Extends flat.queue flat'.queue
    longer : length flat.queue ≤ length flat'.queue
    linked : Linked nodes flat'.queue j l c

  push-Links :
      (j c : ℕ) (flat : Flat) (node : TempNode)
      → IsQueue nodes root flat.queue flat.flat_idx
      → j < length flat.queue
      → get_elem? nodes c ≡ some node
      → node.ch ≡ 0
      → length flat.queue < node_capacity
      → Links j c flat
          (record flat { queue = flat.queue ++ (c ∷ []); flat_idx = flat.flat_idx + 1 })
          (pos (flat.flat_idx + 1))
  push-Links j c flat node s m n z r =
      let a = length-append flat.queue (c ∷ []) in
      let x = s.index in
      let top : flat.flat_idx + 1 ≡ suc flat.flat_idx = omega arith in
      let here : suc flat.flat_idx ≡ length flat.queue = omega arith in
      record {
        is_queue = record {
          index = omega arith;
          room = omega arith;
          first = Extends-snoc flat.queue c 0 root s.first;
          queued = λ k i e. elim (get_elem?-cases flat.queue c k i e) [
            | inl h ↦ s.queued k i h
            | inr q ↦ rw (← q) (node, n, z)
          ];
        };
        same_tree = refl;
        same_size = refl;
        extends = Extends-snoc flat.queue c;
        longer = omega arith;
        linked = (
          node,
          n,
          inr (z, length flat.queue, rw (top, here) refl, m, get_elem?-new flat.queue c),
        );
      }

  link-Links :
      (j c : ℕ) (flat flat' : Flat) (l : ℤ)
      → IsQueue nodes root flat.queue flat.flat_idx
      → j < length flat.queue
      → link nodes (some c) flat ≡ some (l, flat')
      → Links j c flat flat' l
  unfolding link
  link-Links j c flat flat' l s m e = elim (Option-cases (get_elem? nodes c)) [
    | inl n ↦ let x = rw (n, link) at e in cc
    | inr (node, n) ↦ elim (v.shaped c node n) [
      | is_leaf p q ↦
          let t : (node.ch == 0) ≡ false = ground arith in
          let own = some-injective _ (l, flat') (rw (n, t, link) at e) in
          rw (← (ap (λ (x : ℤ × Flat). x.0) own), ← (ap (λ (x : ℤ × Flat). x.1) own))
            (record {
              is_queue = s;
              same_tree = refl;
              same_size = refl;
              extends = λ k i h. h;
              longer = omega arith;
              linked = (node, n, inl (p, child_char node.ch p q));
            })
      | is_inner a b z x y g h ↦
          let t : (node.ch == 0) ≡ true = ground arith in
          elim (Bool-cases (ltb (length flat.queue) node_capacity)) [
            | inr f ↦ let x = rw (n, t, f, link) at e in cc
            | inl f ↦
                let own = some-injective _ (l, flat') (rw (n, t, f, link) at e) in
                let r : length flat.queue < node_capacity = ground arith in
                rw (← (ap (λ (x : ℤ × Flat). x.0) own), ← (ap (λ (x : ℤ × Flat). x.1) own))
                  (push-Links j c flat node s m n z r)
          ]
    ]
  ]

  -- The loop before its `q`-th round.
  pub record Flattens (q : ℕ) (flat : Flat) : Type 0 where
    pub is_queue : IsQueue nodes root flat.queue flat.flat_idx
    pub size : length flat.tree ≡ max_nodes
    pub count : flat.tree_size ≡ q
    pub entries : (j : ℕ) → j < q → Entry nodes flat.queue flat.tree j

  Entry-later :
      (j q : ℕ) (queue queue' : List ℕ) (tree : List FlatNode) (fn : FlatNode)
      → j < q
      → Extends queue queue'
      → Entry nodes queue tree j
      → Entry nodes queue' (set tree q fn) j
  Entry-later j q queue queue' tree fn l x en =
      let other : q ≢ j = λ (e : q ≡ j). omega arith in
      record {
        idx = en.idx;
        queued = x j en.idx en.queued;
        node = en.node;
        at_idx = en.at_idx;
        left_idx = en.left_idx;
        right_idx = en.right_idx;
        left_is = en.left_is;
        right_is = en.right_is;
        flat = en.flat;
        at_j = get_elem?-set_other tree q j fn other ∙ en.at_j;
        left_linked = Linked-Extends nodes queue queue' j en.left_idx en.flat.left x en.left_linked;
        right_linked =
            Linked-Extends nodes queue queue' j en.right_idx en.flat.right x en.right_linked;
      }

  node_within :
      (tree : List FlatNode) (q : ℕ)
      → q < length tree
      → (fn : FlatNode) × (get_elem? tree q ≡ some fn)
  node_within [] q l = absurd (omega arith)
  node_within (x ∷ tree) zero l = (x, refl)
  node_within (x ∷ tree) (suc q) l = node_within tree q (omega arith)

  Flattens-entry :
      (q curr a b : ℕ) (flat one two : Flat) (node : TempNode) (left right : ℤ)
      → Flattens q flat
      → get_elem? flat.queue q ≡ some curr
      → get_elem? nodes curr ≡ some node
      → node.left_child ≡ some a
      → node.right_child ≡ some b
      → Links q a flat one left
      → Links q b one two right
      → ltb two.tree_size max_nodes ≡ true
      → Flattens (suc q) (record two {
        tree = set two.tree two.tree_size (record { left = left; right = right });
        tree_size = two.tree_size + 1;
      })
  Flattens-entry q curr a b flat one two node left right f g n x y s u r =
      let fn : FlatNode = record { left = left; right = right } in
      let extends : Extends flat.queue two.queue = λ k i h. u.extends k i (s.extends k i h) in
      let same = u.same_tree ∙ s.same_tree in
      let slot : two.tree_size ≡ q = u.same_size ∙ s.same_size ∙ f.count in
      let size = f.size in
      let (old, o) = node_within flat.tree q (ground arith) in
      rw (slot, same)
        (record {
          is_queue = u.is_queue;
          size = length-set flat.tree q fn ∙ f.size;
          count = omega arith;
          entries = λ j l. elim (Bool-cases (q == j)) [
            | inl t ↦
                let own : q ≡ j = ground arith in
                rw (← own) (record {
                  idx = curr;
                  queued = extends q curr g;
                  node = node;
                  at_idx = n;
                  left_idx = a;
                  right_idx = b;
                  left_is = x;
                  right_is = y;
                  flat = fn;
                  at_j = get_elem?-set_here flat.tree q old fn o;
                  left_linked =
                      Linked-Extends nodes one.queue two.queue q a left u.extends s.linked;
                  right_linked = u.linked;
                })
            | inr t ↦
                Entry-later j q flat.queue two.queue flat.tree fn (ground arith) extends
                  (f.entries j (ground arith))
          ];
        })

  inner_visit :
      (q curr a b : ℕ) (flat flat' : Flat) (node : TempNode)
      → Flattens q flat
      → get_elem? flat.queue q ≡ some curr
      → q < length flat.queue
      → get_elem? nodes curr ≡ some node
      → node.ch ≡ 0
      → node.left_child ≡ some a
      → node.right_child ≡ some b
      → visit nodes curr flat ≡ some flat'
      → Flattens (suc q) flat' × (length flat.queue ≤ length flat'.queue)
  unfolding visit
  inner_visit q curr a b flat flat' node f g k n z x y e =
      let t : (node.ch == 0) ≡ true = ground arith in
      elim (Option-cases (link nodes (some a) flat)) [
        | inl h ↦ let w = rw (n, t, x, h, visit) at e in cc
        | inr ((left, one), h) ↦
            let s = link-Links q a flat one left f.is_queue k h in
            elim (Option-cases (link nodes (some b) one)) [
              | inl h' ↦ let w = rw (n, t, x, h, y, h', visit) at e in cc
              | inr ((right, two), h') ↦
                  let u = link-Links q b one two right s.is_queue (omega (arith, s.longer)) h' in
                  elim (Bool-cases (ltb two.tree_size max_nodes)) [
                    | inr r ↦ let w = rw (n, t, x, h, y, h', r, visit) at e in cc
                    | inl r ↦
                        let own = some-injective _ flat' (rw (n, t, x, h, y, h', r, visit) at e) in
                        rw (← own) (
                          Flattens-entry q curr a b flat one two node left right f g n x y s u r,
                          omega (arith, s.longer, u.longer),
                        )
                  ]
            ]
      ]

  visit-Flattens :
      (q curr : ℕ) (flat flat' : Flat)
      → Flattens q flat
      → get_elem? flat.queue q ≡ some curr
      → q < length flat.queue
      → visit nodes curr flat ≡ some flat'
      → Flattens (suc q) flat' × (length flat.queue ≤ length flat'.queue)
  visit-Flattens q curr flat flat' f g k e =
      let (node, n, z) = f.is_queue.queued q curr g in
      elim (v.shaped curr node n) [
        | is_leaf p m ↦ absurd (omega arith)
        | is_inner a b w x y l r ↦ inner_visit q curr a b flat flat' node f g k n z x y e
      ]

  queue_past : (queue : List ℕ) (q : ℕ) → get_elem? queue q ≡ none → length queue ≤ q
  queue_past [] q e = omega arith
  queue_past (x ∷ queue) zero e = cc
  queue_past (x ∷ queue) (suc q) e = omega (arith, queue_past queue q e)

  pub flatten-Flattens :
      (fuel q : ℕ) (flat flat' : Flat)
      → Flattens q flat
      → q + fuel ≡ node_capacity
      → flatten fuel nodes q flat ≡ some flat'
      → (end : ℕ) × Flattens end flat' × (length flat'.queue ≤ end)
  unfolding flatten
  flatten-Flattens zero q flat flat' f c e =
      let own = some-injective flat flat' e in
      let r = f.is_queue.room in rw (← own) (q, f, omega arith)
  flatten-Flattens (suc fuel) q flat flat' f c e = elim (Option-cases (get_elem? flat.queue q)) [
    | inl n ↦
        let own = some-injective flat flat' (rw (n, flatten) at e) in
        rw (← own) (q, f, queue_past flat.queue q n)
    | inr (curr, n) ↦ elim (Option-cases (visit nodes curr flat)) [
      | inl h ↦ let x = rw (n, h, flatten) at e in cc
      | inr (one, h) ↦
          let (g, l) = visit-Flattens q curr flat one f n (queue_lt flat.queue q curr n) h in
          flatten-Flattens fuel (suc q) one flat' g (omega arith) (rw (n, h, flatten) at e)
    ]
  ]
