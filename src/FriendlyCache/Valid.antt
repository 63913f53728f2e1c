-- ===== src/FriendlyCache/Valid.antt =====
-- The invariant that ties the list, the map and the two pools of the cache together.
use knowledge_acquisition.Prelude.{
  ℕ, ◌+◌, ◌≡◌, refl, sym, ◌∙◌, arith, Option, none, some, List, [], ◌∷◌, length, lookup, remove,
  lookup-remove, Fresh, lookup-Fresh, Distinct, Fresh-remove, Distinct-remove,
}
use knowledge_acquisition.FriendlyCache.Pool.{
  Absent, Unlinked, init_pool, init_pool-Unlinked, length-link_blocks,
}
use knowledge_acquisition.FriendlyCache.LruCache.{CacheList, MapItem, LruCache, new_cache}
use knowledge_acquisition.FriendlyCache.Nodes.{
  items, index, length-remove, items-remove, index-remove, Fresh-remove_same, index-Distinct,
  index-lookup,
}

abbrev pub iterator_of : Option MapItem → Option ℕ
iterator_of none = none
iterator_of (some it) = some it.iterator

-- No free block is the block of a node.
abbrev pub Apart {ℓ} : {V : Type ℓ} → List ℕ → CacheList V → Type 0
Apart [] l = Unit {0}
Apart (b ∷ bs) l = Fresh b l × Apart bs l

pub record IsValid {ℓ} {V : Type ℓ} (c : LruCache V) : Type ℓ where
  pub nodes : Distinct c.m_list
  pub keys : Distinct (items c.m_list)
  pub slots : Distinct c.m_map
  pub agrees : (k : ℕ) → iterator_of (lookup k c.m_map) ≡ lookup k (index c.m_list)
  pub counts : length c.m_map ≡ length c.m_list
  pub list_free : length c.list_pool + length c.m_list ≡ c.m_capacity
  pub map_free : length c.map_pool + length c.m_map ≡ c.m_capacity
  pub unlinked : Unlinked c.list_pool
  pub apart : Apart c.list_pool c.m_list

module _ {ℓ} {V : Type ℓ} where
  Apart-nil : (bs : List ℕ) (l : CacheList V) → l ≡ [] → Apart bs l
  Apart-nil [] l e = tt
  Apart-nil (b ∷ bs) l e = (rw e tt, Apart-nil bs l e)

  pub Apart-remove : (bs : List ℕ) (a : ℕ) (l : CacheList V) → Apart bs l → Apart bs (remove a l)
  Apart-remove [] a l p = tt
  Apart-remove (b ∷ bs) a l p = (Fresh-remove b a l p.0, Apart-remove bs a l p.1)

  pub Apart-cons :
      (bs : List ℕ) (a : ℕ) (x : ℕ × V) (l : CacheList V)
      → Absent a bs
      → Apart bs l
      → Apart bs ((a, x) ∷ l)
  Apart-cons [] a x l n p = tt
  Apart-cons (b ∷ bs) a x l n p = ((λ e. n.0 (sym e), p.0), Apart-cons bs a x l n.1 p.1)

  pub Apart-Absent :
      (bs : List ℕ) (a : ℕ) (x : ℕ × V) (l : CacheList V)
      → lookup a l ≡ some x
      → Apart bs l
      → Absent a bs
  Apart-Absent [] a x l e p = tt
  Apart-Absent (b ∷ bs) a x l e p =
      (λ q. cc (rw (← q) at e, lookup-Fresh b l p.0), Apart-Absent bs a x l e p.1)

  pub new_cache-IsValid : (n : ℕ) → IsValid {V = V} (new_cache n)
  new_cache-IsValid n = record {
    nodes = tt;
    keys = tt;
    slots = tt;
    agrees = λ k. refl;
    counts = refl;
    list_free = omega (arith, length-link_blocks n 0 []);
    map_free = omega (arith, length-link_blocks n 0 []);
    unlinked = init_pool-Unlinked n;
    apart = Apart-nil (init_pool n) [] refl;
  }

  touch-index :
      (l : CacheList V) (a k : ℕ) (v : V) (j : ℕ)
      → Distinct (items l)
      → lookup a l ≡ some (k, v)
      → lookup j (index l) ≡ lookup j ((k, a) ∷ index (remove a l))
  touch-index l a k v j d e = ground (
    arith,
    index-remove a k v l d e,
    lookup-remove k j (index l) (index-Distinct l d),
    index-lookup a k v l d e,
  )

  -- A node goes to the front, with a new value or the old one.
  pub touch-IsValid :
      (c : LruCache V) (a k : ℕ) (v w : V)
      → IsValid c
      → lookup a c.m_list ≡ some (k, v)
      → IsValid (record c { m_list = (a, (k, w)) ∷ remove a c.m_list })
  touch-IsValid c a k v w valid e =
      let l = c.m_list in
      record {
        nodes = (Fresh-remove_same a l valid.nodes, Distinct-remove a l valid.nodes);
        keys =
            rw (items-remove a k v l valid.keys e)
              (Fresh-remove_same k (items l) valid.keys, Distinct-remove k (items l) valid.keys);
        slots = valid.slots;
        agrees = λ j. valid.agrees j ∙ touch-index l a k v j valid.keys e;
        counts = omega (arith, valid.counts, length-remove a (k, v) l e);
        list_free = omega (arith, valid.list_free, length-remove a (k, v) l e);
        map_free = valid.map_free;
        unlinked = valid.unlinked;
        apart =
            Apart-cons c.list_pool a (k, w) (remove a l)
              (Apart-Absent c.list_pool a (k, v) l e valid.apart)
              (Apart-remove c.list_pool a l valid.apart);
      }
