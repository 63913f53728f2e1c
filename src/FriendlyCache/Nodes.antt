-- ===== src/FriendlyCache/Nodes.antt =====
-- The nodes of `m_list`, by address and by key.
use knowledge_acquisition.Prelude.{
  ℕ, suc, ◌≡◌, refl, ap, arith, none, some, List, [], ◌∷◌, length, ◌==◌, ==_refl, Bool-cases, inl,
  inr, lookup, insert, remove, Fresh, Distinct, lookup-Fresh, Fresh-of_lookup, lookup-remove,
}
use knowledge_acquisition.FriendlyCache.LruCache.{CacheList, back, pop_back}

module _ {ℓ} {V : Type ℓ} where
  -- Two facts on association lists.
  pub length-remove :
      (k : ℕ) (v : V) (m : List (ℕ × V))
      → lookup k m ≡ some v
      → suc (length (remove k m)) ≡ length m
  length-remove k v [] e = cc
  length-remove k v ((j, w) ∷ m) e = ground (arith, length-remove k v m)

  pub length-insert :
      (k : ℕ) (v : V) (m : List (ℕ × V))
      → lookup k m ≡ none
      → length (insert k v m) ≡ suc (length m)
  length-insert k v [] e = refl
  length-insert k v ((j, w) ∷ m) e = ground (arith, length-insert k v m)

  pub remove-insert :
      (k : ℕ) (v w : V) (m : List (ℕ × V))
      → lookup k m ≡ some w
      → remove k (insert k v m) ≡ remove k m
  remove-insert k v w [] e = cc
  remove-insert k v w ((j, u) ∷ m) e = ground (arith, remove-insert k v w m)

  pub Fresh-remove_same : (k : ℕ) (m : List (ℕ × V)) → Distinct m → Fresh k (remove k m)
  Fresh-remove_same k m d =
      Fresh-of_lookup k (remove k m) (rw (lookup-remove k k m d, ==_refl k) refl)

  -- The view of the list that forgets the addresses.
  abbrev pub items : CacheList V → List (ℕ × V)
  items [] = []
  items ((a, item) ∷ l) = item ∷ items l

  -- The address of the node of each key.
  abbrev pub index : CacheList V → List (ℕ × ℕ)
  index [] = []
  index ((a, item) ∷ l) = (item.0, a) ∷ index l

  pub length-items : (l : CacheList V) → length (items l) ≡ length l
  length-items [] = refl
  length-items ((a, item) ∷ l) = ap suc (length-items l)

  pub index-node :
      (k a : ℕ) (l : CacheList V)
      → Distinct l
      → lookup k (index l) ≡ some a
      → (v : V) × (lookup a l ≡ some (k, v)) × (lookup k (items l) ≡ some v)
  index-node k a [] d e = cc
  index-node k a ((b, (j, w)) ∷ l) d e = elim (Bool-cases (j == k)) [
    | inl t ↦ (w, ground arith, ground arith)
    | inr t ↦
        let (v, p, q) = index-node k a l d.1 (ground arith) in
        (v, ground (arith, lookup-Fresh b l d.0), ground arith)
  ]

  pub items-none : (k : ℕ) (l : CacheList V) → lookup k (index l) ≡ none → lookup k (items l) ≡ none
  items-none k [] e = refl
  items-none k ((b, (j, w)) ∷ l) e = ground (arith, items-none k l)

  items-present :
      (a k : ℕ) (v : V) (l : CacheList V) → lookup a l ≡ some (k, v) → ¬ Fresh k (items l)
  items-present a k v [] e f = cc
  items-present a k v ((b, (j, w)) ∷ l) e f = elim (Bool-cases (b == a)) [
    | inl t ↦ ground arith
    | inr t ↦ items-present a k v l (ground arith) f.1
  ]

  pub items-remove :
      (a k : ℕ) (v : V) (l : CacheList V)
      → Distinct (items l)
      → lookup a l ≡ some (k, v)
      → items (remove a l) ≡ remove k (items l)
  items-remove a k v [] d e = refl
  items-remove a k v ((b, (j, w)) ∷ l) d e =
      ground (arith, items-remove a k v l d.1, items-present a k v l)

  pub index-remove :
      (a k : ℕ) (v : V) (l : CacheList V)
      → Distinct (items l)
      → lookup a l ≡ some (k, v)
      → index (remove a l) ≡ remove k (index l)
  index-remove a k v [] d e = refl
  index-remove a k v ((b, (j, w)) ∷ l) d e =
      ground (arith, index-remove a k v l d.1, items-present a k v l)

  pub back-node :
      (l : CacheList V) (a : ℕ) (item : ℕ × V)
      → Distinct l
      → back l ≡ some (a, item)
      → (lookup a l ≡ some item) × (pop_back l ≡ remove a l)
  back-node [] a item d e = cc
  back-node ((b, x) ∷ []) a item d e = ground arith
  back-node ((b, x) ∷ next ∷ l) a item d e =
      ground (arith, back-node (next ∷ l) a item d.1 e, lookup-Fresh b (next ∷ l) d.0)

  index-Fresh : (k : ℕ) (l : CacheList V) → Fresh k (items l) → Fresh k (index l)
  index-Fresh k [] f = tt
  index-Fresh k ((a, item) ∷ l) f = (f.0, index-Fresh k l f.1)

  pub index-Distinct : (l : CacheList V) → Distinct (items l) → Distinct (index l)
  index-Distinct [] d = tt
  index-Distinct ((a, item) ∷ l) d = (index-Fresh item.0 l d.0, index-Distinct l d.1)

  pub index-lookup :
      (a k : ℕ) (v : V) (l : CacheList V)
      → Distinct (items l)
      → lookup a l ≡ some (k, v)
      → lookup k (index l) ≡ some a
  index-lookup a k v [] d e = cc
  index-lookup a k v ((b, (j, w)) ∷ l) d e =
      ground (arith, index-lookup a k v l d.1, items-present a k v l)
