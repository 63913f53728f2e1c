-- ===== src/FriendlyCache/Refine.antt =====
-- The cache does what the list of its entries, latest use first, says.
use knowledge_acquisition.Prelude.{
  ℕ, ◌≡◌, refl, sym, ◌∙◌, ap, none, some, List, ◌∷◌, ==_refl, Option-cases, inl, inr, lookup,
  remove, lookup-insert,
}
use knowledge_acquisition.FriendlyCache.LruCache.{MapItem, LruCache, get, put}
use knowledge_acquisition.FriendlyCache.Nodes.{
  items, remove-insert, index-node, items-none, items-remove,
}
use knowledge_acquisition.FriendlyCache.Recency.{recency_get}
use knowledge_acquisition.FriendlyCache.Valid.{iterator_of, IsValid, touch-IsValid}

module _ {ℓ} {V : Type ℓ} where
  -- What the map says about a key.
  pub data Entry (k : ℕ) (c : LruCache V) : Type ℓ where
    missing : lookup k c.m_map ≡ none → lookup k (items c.m_list) ≡ none → Entry k c
    held :
        (it : MapItem) (v : V)
        → lookup k c.m_map ≡ some it
        → lookup it.iterator c.m_list ≡ some (k, v)
        → lookup k (items c.m_list) ≡ some v
        → Entry k c

  pub entry : (k : ℕ) (c : LruCache V) → IsValid c → Entry k c
  entry k c valid = elim (Option-cases (lookup k c.m_map)) [
    | inl e ↦ missing e (items-none k c.m_list (sym (valid.agrees k) ∙ ap iterator_of e))
    | inr (it, e) ↦
        let (v, p, q) =
          index-node k it.iterator c.m_list valid.nodes (sym (valid.agrees k) ∙ ap iterator_of e) in
        held it v e p q
  ]

  -- The cache `d` is as large as `c` and shows the entries `s`.
  abbrev pub Shows : LruCache V → LruCache V → List (ℕ × V) → Type ℓ
  Shows c d s = IsValid d × (items d.m_list ≡ s) × (d.m_capacity ≡ c.m_capacity)

  pub get_lem :
      (k : ℕ) (c : LruCache V)
      → IsValid c
      → (d : LruCache V) × (get k c ≡ some ((recency_get k (items c.m_list)).0, d))
        × Shows c d (recency_get k (items c.m_list)).1
  unfolding get
  get_lem k c valid = elim (entry k c valid) [
    | missing e q ↦ (c, rw (e, q, get, recency_get) refl, (valid, rw (q, recency_get) refl, refl))
    | held it v e p q ↦ (
      record c { m_list = (it.iterator, (k, v)) ∷ remove it.iterator c.m_list },
      rw (e, p, q, ==_refl it.iterator, get, recency_get) refl,
      (
        touch-IsValid c it.iterator k v v valid p,
        rw (q, items-remove it.iterator k v c.m_list valid.keys p, recency_get) refl,
        refl,
      ),
    )
  ]

  pub put_held :
      (k : ℕ) (w v : V) (it : MapItem) (c : LruCache V)
      → lookup k c.m_map ≡ some it
      → lookup it.iterator c.m_list ≡ some (k, v)
      → put k w c ≡ some (record c { m_list = (it.iterator, (k, w)) ∷ remove it.iterator c.m_list })
  unfolding put
  put_held k w v it c e p =
      rw
        (
          e,
          p,
          lookup-insert it.iterator it.iterator (k, w) c.m_list,
          ==_refl it.iterator,
          remove-insert it.iterator (k, w) (k, v) c.m_list p,
          put,
        )
        refl
