-- ===== src/FriendlyCache/Run.antt =====
-- Any sequence of calls on the cache.
use knowledge_acquisition.Prelude.{
  ℕ, ◌≤◌, ◌<◌, ◌≡◌, refl, sym, ◌∙◌, ap, arith, Option, none, some, List, [], ◌∷◌, leb, Bool-cases,
  inl, inr, lookup, remove,
}
use knowledge_acquisition.FriendlyCache.LruCache.{LruCache, new_cache, size, get, put}
use knowledge_acquisition.FriendlyCache.Nodes.{items, items-none, length-items, items-remove}
use knowledge_acquisition.FriendlyCache.Recency.{recency_get, recency_put}
use knowledge_acquisition.FriendlyCache.Valid.{
  iterator_of, IsValid, touch-IsValid, new_cache-IsValid,
}
use knowledge_acquisition.FriendlyCache.Refine.{missing, held, entry, Shows, get_lem, put_held}
use knowledge_acquisition.FriendlyCache.Grow.{emplace_lem, evict_lem}

module _ {ℓ} {V : Type ℓ} where
  put_new :
      (k : ℕ) (w : V) (c : LruCache V)
      → IsValid c
      → 0 < c.m_capacity
      → lookup k c.m_map ≡ none
      → lookup k (items c.m_list) ≡ none
      → (d : LruCache V) × (put k w c ≡ some d)
        × Shows c d (recency_put c.m_capacity k w (items c.m_list))
  unfolding put
  put_new k w c valid pos e q = elim (Bool-cases (leb c.m_capacity (size c))) [
    | inl t ↦
        let (d, f, (dv, di, dc), room, de) = evict_lem k c valid (ground arith) e in
        let (x, g, (xv, xi, xc)) =
          emplace_lem k w d dv de (items-none k d.m_list (sym (dv.agrees k) ∙ ap iterator_of de))
            room in
        (
          x,
          rw (e, t, f, put) g,
          (xv, rw (q, length-items c.m_list, t, recency_put) (xi ∙ ap (◌∷◌ (k, w)) di), xc ∙ dc),
        )
    | inr t ↦
        let (x, g, (xv, xi, xc)) = emplace_lem k w c valid e q (ground arith) in
        (x, rw (e, t, put) g, (xv, rw (q, length-items c.m_list, t, recency_put) xi, xc))
  ]

  put_lem :
      (k : ℕ) (w : V) (c : LruCache V)
      → IsValid c
      → 0 < c.m_capacity
      → (d : LruCache V) × (put k w c ≡ some d)
        × Shows c d (recency_put c.m_capacity k w (items c.m_list))
  put_lem k w c valid pos = elim (entry k c valid) [
    | missing e q ↦ put_new k w c valid pos e q
    | held it v e p q ↦ (
      record c { m_list = (it.iterator, (k, w)) ∷ remove it.iterator c.m_list },
      put_held k w v it c e p,
      (
        touch-IsValid c it.iterator k v w valid p,
        rw (q, items-remove it.iterator k v c.m_list valid.keys p, recency_put) refl,
        refl,
      ),
    )
  ]

pub data Call {ℓ} (V : Type ℓ) : Type ℓ where
  get_call : (key : ℕ) → Call V
  put_call : (key : ℕ) (value : V) → Call V

module _ {ℓ} {V : Type ℓ} where
  -- The calls one after the other, with the results of the gets.
  unfoldable pub run : List (Call V) → LruCache V → Option (List (Option V) × LruCache V)
  run [] c = some ([], c)
  run (get_call key ∷ calls) c = elim (get key c) [
    | none ↦ none
    | some o ↦ elim (run calls o.1) [ none ↦ none | some rest ↦ some (o.0 ∷ rest.0, rest.1) ]
  ]
  run (put_call key value ∷ calls) c = elim (put key value c) [ none ↦ none | some d ↦ run calls d ]

  -- The same calls on the list of the entries.
  abbrev pub recency_run : ℕ → List (Call V) → List (ℕ × V) → List (Option V) × List (ℕ × V)
  recency_run capacity [] entries = ([], entries)
  recency_run capacity (get_call key ∷ calls) entries =
      let o = recency_get key entries in
      let rest = recency_run capacity calls o.1 in (o.0 ∷ rest.0, rest.1)
  recency_run capacity (put_call key value ∷ calls) entries =
      recency_run capacity calls (recency_put capacity key value entries)

  run_lem :
      (calls : List (Call V)) (c : LruCache V) (n : ℕ) (s : List (ℕ × V))
      → IsValid c
      → c.m_capacity ≡ n
      → 0 < n
      → items c.m_list ≡ s
      → (d : LruCache V) × (run calls c ≡ some ((recency_run n calls s).0, d))
        × (items d.m_list ≡ (recency_run n calls s).1)
        × (size d ≤ n)
  unfolding run
  run_lem [] c n s valid cap pos q = (c, refl, q, omega (arith, valid.list_free))
  run_lem (get_call key ∷ calls) c n s valid cap pos q =
      let (d, g, (dv, di, dc)) = get_lem key c valid in
      let (x, r, xi, l) = run_lem calls d n (recency_get key s).1 dv (dc ∙ cap) pos (rw q at di) in
      (x, rw (g, r, q, run) refl, xi, l)
  run_lem (put_call key value ∷ calls) c n s valid cap pos q =
      let (d, g, (dv, di, dc)) = put_lem key value c valid (omega arith) in
      let (x, r, xi, l) =
        run_lem calls d n (recency_put n key value s) dv (dc ∙ cap) pos (rw (q, cap) at di) in
      (x, rw (g, r, run) refl, xi, l)

  -- On a new cache of a positive capacity any sequence of calls neither throws nor leaves its pools:
  -- the gets answer what the list of the entries, latest use first, answers, the cache holds this
  -- list's entries in its order, and never more than its capacity.
  pub run-recency_run :
      (n : ℕ) (calls : List (Call V))
      → 0 < n
      → (d : LruCache V) × (run calls (new_cache n) ≡ some ((recency_run n calls []).0, d))
        × (items d.m_list ≡ (recency_run n calls []).1)
        × (size d ≤ n)
  run-recency_run n calls pos = run_lem calls (new_cache n) n [] (new_cache-IsValid n) refl pos refl
