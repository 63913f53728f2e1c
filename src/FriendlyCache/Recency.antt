-- ===== src/FriendlyCache/Recency.antt =====
-- What a cache of least recently used keys promises, on the list of its entries, latest use first.
use knowledge_acquisition.Prelude.{
  ℕ, ◌≡◌, refl, ap, Option, none, some, List, [], ◌∷◌, length, leb, if◌then◌else◌, lookup, remove,
}
use knowledge_acquisition.FriendlyCache.LruCache.{CacheList, pop_back}
use knowledge_acquisition.FriendlyCache.Nodes.{items}

module _ {ℓ} {V : Type ℓ} where
  abbrev pub drop_last : List (ℕ × V) → List (ℕ × V)
  drop_last [] = []
  drop_last (entry ∷ []) = []
  drop_last (entry ∷ next ∷ rest) = entry ∷ drop_last (next ∷ rest)

  -- A hit makes the entry the latest one.
  abbrev pub recency_get : ℕ → List (ℕ × V) → Option V × List (ℕ × V)
  recency_get key entries = elim (lookup key entries) [
    | none ↦ (none, entries)
    | some value ↦ (some value, (key, value) ∷ remove key entries)
  ]

  -- A new key replaces the oldest entry of a full cache.
  abbrev pub recency_put : ℕ → ℕ → V → List (ℕ × V) → List (ℕ × V)
  recency_put capacity key value entries = elim (lookup key entries) [
    | some old ↦ (key, value) ∷ remove key entries
    | none ↦ (key, value) ∷ (if leb capacity (length entries) then drop_last entries else entries)
  ]

  pub items-pop_back : (l : CacheList V) → items (pop_back l) ≡ drop_last (items l)
  items-pop_back [] = refl
  items-pop_back ((a, item) ∷ []) = refl
  items-pop_back ((a, item) ∷ next ∷ l) = ap (◌∷◌ item) (items-pop_back (next ∷ l))
