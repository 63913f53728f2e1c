-- ===== src/FriendlyCache/LruCache.antt =====
-- PoolAllocator.h, the class `MemoryFriendlyLRUCache`. A key is a number. The nodes of `m_list`
-- stand under their address, the block of the list's pool; an entry of `m_map` holds the iterator,
-- which is the address of a node of the list, and its own block of the map's pool. `none` is an
-- exception or undefined behaviour.
use knowledge_acquisition.Prelude.{
  ℕ, Option, none, some, List, [], ◌∷◌, length, leb, if◌then◌else◌, lookup, insert, remove,
}
use knowledge_acquisition.FriendlyCache.Pool.{init_pool, allocate, deallocate}

pub record MapItem : Type 0 where
  pub iterator : ℕ
  pub block : ℕ

abbrev pub CacheList {ℓ} : Type ℓ → Type ℓ
CacheList V = List (ℕ × (ℕ × V))

module _ {ℓ} {V : Type ℓ} where
  -- `m_list.splice(m_list.begin(), m_list, it)`.
  abbrev pub splice : ℕ → CacheList V → Option (CacheList V)
  splice it l = elim (lookup it l) [ none ↦ none | some item ↦ some ((it, item) ∷ remove it l) ]

  -- `it->second->second = value`.
  abbrev pub write : ℕ → V → CacheList V → Option (CacheList V)
  write it value l = elim (lookup it l) [
    | none ↦ none
    | some item ↦ some (insert it (item.0, value) l)
  ]

  abbrev pub back : CacheList V → Option (ℕ × (ℕ × V))
  back [] = none
  back (node ∷ []) = some node
  back (node ∷ next ∷ rest) = back (next ∷ rest)

  abbrev pub pop_back : CacheList V → CacheList V
  pop_back [] = []
  pop_back (node ∷ []) = []
  pop_back (node ∷ next ∷ rest) = node ∷ pop_back (next ∷ rest)

pub record LruCache {ℓ} (V : Type ℓ) : Type ℓ where
  pub m_list : CacheList V
  pub m_map : List (ℕ × MapItem)
  pub m_capacity : ℕ
  pub list_pool : List ℕ
  pub map_pool : List ℕ

module _ {ℓ} {V : Type ℓ} where
  abbrev pub new_cache : ℕ → LruCache V
  new_cache capacity = record {
    m_list = [];
    m_map = [];
    m_capacity = capacity;
    list_pool = init_pool capacity;
    map_pool = init_pool capacity;
  }

  abbrev pub size : LruCache V → ℕ
  size c = length c.m_list

  unfoldable pub get : ℕ → LruCache V → Option (Option V × LruCache V)
  get key c = elim (lookup key c.m_map) [
    | none ↦ some (none, c)
    | some it ↦ elim (splice it.iterator c.m_list) [
      | none ↦ none
      | some l ↦ elim (lookup it.iterator l) [
        | none ↦ none
        | some item ↦ some (some item.1, record c { m_list = l })
      ]
    ]
  ]

  -- `m_map.erase(key)`.
  abbrev pub erase : ℕ → LruCache V → LruCache V
  erase key c = elim (lookup key c.m_map) [
    | none ↦ c
    | some it ↦ record c {
      m_map = remove key c.m_map;
      map_pool = deallocate (some it.block) 1 c.map_pool;
    }
  ]

  -- The branch for an overflow of the capacity.
  unfoldable pub evict : LruCache V → Option (LruCache V)
  evict c = elim (back c.m_list) [
    | none ↦ none
    | some last ↦
        let erased = erase last.1.0 c in
        some (record erased {
          m_list = pop_back c.m_list;
          list_pool = deallocate (some last.0) 1 c.list_pool;
        })
  ]

  -- `m_map[key] = it`.
  unfoldable pub assign : ℕ → ℕ → LruCache V → Option (LruCache V)
  assign key it c = elim (lookup key c.m_map) [
    | some old ↦ some (record c { m_map = insert key (record old { iterator = it }) c.m_map })
    | none ↦ elim (allocate 0 1 c.map_pool) [
      | none ↦ none
      | some block ↦ some (record c {
        m_map = insert key (record { iterator = it; block = block.0 }) c.m_map;
        map_pool = block.1;
      })
    ]
  ]

  -- `m_list.emplace_front(key, value); m_map[key] = m_list.begin();`
  unfoldable pub emplace : ℕ → V → LruCache V → Option (LruCache V)
  unfolding assign
  emplace key value c = elim (allocate 0 1 c.list_pool) [
    | none ↦ none
    | some node ↦
        assign key node.0
          (record c { m_list = (node.0, (key, value)) ∷ c.m_list; list_pool = node.1 })
  ]

  unfoldable pub put : ℕ → V → LruCache V → Option (LruCache V)
  unfolding evict emplace
  put key value c = elim (lookup key c.m_map) [
    | some it ↦ elim (write it.iterator value c.m_list) [
      | none ↦ none
      | some written ↦ elim (splice it.iterator written) [
        | none ↦ none
        | some l ↦ some (record c { m_list = l })
      ]
    ]
    | none ↦ elim (if leb c.m_capacity (size c) then evict c else some c) [
      | none ↦ none
      | some d ↦ emplace key value d
    ]
  ]
