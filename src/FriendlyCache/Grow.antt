-- ===== src/FriendlyCache/Grow.antt =====
-- A new key: the eviction of the oldest entry, and the new node.
use knowledge_acquisition.Prelude.{
  ℕ, ◌<◌, ◌≡◌, refl, sym, ap, arith, none, some, List, [], ◌∷◌, length, Option-cases, inl, inr,
  lookup, insert, remove, lookup-remove, lookup-insert, Fresh-of_lookup, Distinct-remove,
  Distinct-insert,
}
use knowledge_acquisition.FriendlyCache.LruCache.{
  CacheList, MapItem, LruCache, back, size, erase, evict, assign, emplace,
}
use knowledge_acquisition.FriendlyCache.Nodes.{
  items, index, length-remove, length-insert, items-remove, index-remove, back-node, index-Distinct,
  index-lookup, Fresh-remove_same,
}
use knowledge_acquisition.FriendlyCache.Recency.{drop_last, items-pop_back}
use knowledge_acquisition.FriendlyCache.Valid.{
  iterator_of, IsValid, Apart-Absent, Apart-cons, Apart-remove,
}
use knowledge_acquisition.FriendlyCache.Refine.{Shows}

pub nonempty : (bs : List ℕ) → 0 < length bs → (b : ℕ) × (rest : List ℕ) × (bs ≡ b ∷ rest)
nonempty [] l = absurd (omega arith)
nonempty (b ∷ bs) l = (b, bs, refl)

module _ {ℓ} {V : Type ℓ} where
  emplaced : LruCache V → ℕ → V → ℕ → List ℕ → ℕ → List ℕ → LruCache V
  emplaced c k w a free b rest = record c {
    m_list = (a, (k, w)) ∷ c.m_list;
    list_pool = free;
    m_map = insert k (record { iterator = a; block = b }) c.m_map;
    map_pool = rest;
  }

  emplaced-IsValid :
      (c : LruCache V) (k : ℕ) (w : V) (a : ℕ) (free : List ℕ) (b : ℕ) (rest : List ℕ)
      → IsValid c
      → lookup k c.m_map ≡ none
      → lookup k (items c.m_list) ≡ none
      → c.list_pool ≡ a ∷ free
      → c.map_pool ≡ b ∷ rest
      → IsValid (emplaced c k w a free b rest)
  unfolding emplaced
  emplaced-IsValid c k w a free b rest valid e q ql qm =
      let it : MapItem = record { iterator = a; block = b } in
      let apart = rw ql at valid.apart in
      let unlinked = rw ql at valid.unlinked in
      record {
        nodes = (apart.0, valid.nodes);
        keys = (Fresh-of_lookup k (items c.m_list) q, valid.keys);
        slots = Distinct-insert k it c.m_map valid.slots;
        agrees = λ j. ground (arith, lookup-insert k j it c.m_map, valid.agrees j);
        counts = omega (arith, valid.counts, length-insert k it c.m_map e);
        list_free = omega (arith, valid.list_free, ap length ql);
        map_free = omega (arith, valid.map_free, ap length qm, length-insert k it c.m_map e);
        unlinked = unlinked.1;
        apart = Apart-cons free a (k, w) c.m_list unlinked.0 apart.1;
      }

  pub emplace_lem :
      (k : ℕ) (w : V) (c : LruCache V)
      → IsValid c
      → lookup k c.m_map ≡ none
      → lookup k (items c.m_list) ≡ none
      → size c < c.m_capacity
      → (d : LruCache V) × (emplace k w c ≡ some d) × Shows c d ((k, w) ∷ items c.m_list)
  unfolding emplaced emplace
  emplace_lem k w c valid e q l =
      let (a, free, ql) = nonempty c.list_pool (omega (arith, valid.list_free)) in
      let (b, rest, qm) = nonempty c.map_pool (omega (arith, valid.map_free, valid.counts)) in
      (
        emplaced c k w a free b rest,
        rw (ql, e, qm, emplace, assign) refl,
        (emplaced-IsValid c k w a free b rest valid e q ql qm, refl, refl),
      )

  back_of : (l : CacheList V) → 0 < length l → (node : ℕ × (ℕ × V)) × (back l ≡ some node)
  back_of [] n = absurd (omega arith)
  back_of (node ∷ []) n = (node, refl)
  back_of (node ∷ next ∷ l) n = back_of (next ∷ l) (omega arith)

  slot_of :
      (j a : ℕ) (v : V) (c : LruCache V)
      → IsValid c
      → lookup a c.m_list ≡ some (j, v)
      → (it : MapItem) × (lookup j c.m_map ≡ some it)
  slot_of j a v c valid e = elim (Option-cases (lookup j c.m_map)) [
    | inl n ↦ cc (ap iterator_of n, valid.agrees j, index-lookup a j v c.m_list valid.keys e)
    | inr x ↦ x
  ]

  evicted : LruCache V → ℕ → ℕ → ℕ → LruCache V
  evicted c a j block = record c {
    m_list = remove a c.m_list;
    list_pool = a ∷ c.list_pool;
    m_map = remove j c.m_map;
    map_pool = block ∷ c.map_pool;
  }

  evicted-IsValid :
      (c : LruCache V) (a j : ℕ) (v : V) (it : MapItem)
      → IsValid c
      → lookup a c.m_list ≡ some (j, v)
      → lookup j c.m_map ≡ some it
      → IsValid (evicted c a j it.block)
  unfolding evicted
  evicted-IsValid c a j v it valid p e =
      let l = c.m_list in
      record {
        nodes = Distinct-remove a l valid.nodes;
        keys = rw (items-remove a j v l valid.keys p) (Distinct-remove j (items l) valid.keys);
        slots = Distinct-remove j c.m_map valid.slots;
        agrees = λ i. ground (
          arith,
          index-remove a j v l valid.keys p,
          lookup-remove j i c.m_map valid.slots,
          lookup-remove j i (index l) (index-Distinct l valid.keys),
          valid.agrees i,
        );
        counts =
            omega (arith, valid.counts, length-remove a (j, v) l p, length-remove j it c.m_map e);
        list_free = omega (arith, valid.list_free, length-remove a (j, v) l p);
        map_free = omega (arith, valid.map_free, length-remove j it c.m_map e);
        unlinked = (Apart-Absent c.list_pool a (j, v) l p valid.apart, valid.unlinked);
        apart = (Fresh-remove_same a l valid.nodes, Apart-remove c.list_pool a l valid.apart);
      }

  pub evict_lem :
      (k : ℕ) (c : LruCache V)
      → IsValid c
      → 0 < size c
      → lookup k c.m_map ≡ none
      → (d : LruCache V) × (evict c ≡ some d)
        × Shows c d (drop_last (items c.m_list))
        × (size d < d.m_capacity)
        × (lookup k d.m_map ≡ none)
  unfolding evicted evict
  evict_lem k c valid n m =
      let ((a, (j, v)), q) = back_of c.m_list n in
      let (p, r) = back-node c.m_list a (j, v) valid.nodes q in
      let (it, e) = slot_of j a v c valid p in
      (
        evicted c a j it.block,
        rw (q, e, r, evict, erase) refl,
        (evicted-IsValid c a j v it valid p e, rw (sym r) (items-pop_back c.m_list), refl),
        omega (arith, valid.list_free, length-remove a (j, v) c.m_list p),
        ground (arith, lookup-remove j k c.m_map valid.slots),
      )
