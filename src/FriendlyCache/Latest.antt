-- ===== src/FriendlyCache/Latest.antt =====
-- Which entries a sequence of puts leaves in the cache.
use knowledge_acquisition.Prelude.{
  ℕ, zero, suc, ◌≤◌, ◌<◌, ◌≡◌, refl, sym, ◌∙◌, ap, arith, none, some, List, [], ◌∷◌, length, leb,
  Bool-cases, Option-cases, inl, inr, lookup, remove,
}
use knowledge_acquisition.FriendlyCache.LruCache.{LruCache, new_cache}
use knowledge_acquisition.FriendlyCache.Nodes.{items}
use knowledge_acquisition.FriendlyCache.Recency.{drop_last, recency_put}
use knowledge_acquisition.FriendlyCache.Run.{Call, put_call, run, recency_run, run-recency_run}

module _ {ℓ} {V : Type ℓ} where
  -- The entries put so far, each key with its last value, the last put first; without a bound.
  abbrev pub latest : List (ℕ × V) → List (ℕ × V) → List (ℕ × V)
  latest entries [] = entries
  latest entries (put ∷ puts) = latest (put ∷ remove put.0 entries) puts

  abbrev pub take : ℕ → List (ℕ × V) → List (ℕ × V)
  take zero entries = []
  take (suc n) [] = []
  take (suc n) (entry ∷ rest) = entry ∷ take n rest

  take-nil : (n : ℕ) → take n [] ≡ []
  take-nil zero = refl
  take-nil (suc n) = refl

  take-remove :
      (m k : ℕ) (v : V) (s : List (ℕ × V))
      → lookup k (take (suc m) s) ≡ some v
      → remove k (take (suc m) s) ≡ take m (remove k s)
  take-remove m k v [] e = cc
  take-remove zero k v ((j, w) ∷ s) e = ground arith
  take-remove (suc m) k v ((j, w) ∷ s) e = ground (arith, take-remove m k v s)

  drop_last-take :
      (m k : ℕ) (s : List (ℕ × V))
      → lookup k (take (suc m) s) ≡ none
      → suc m ≤ length (take (suc m) s)
      → drop_last (take (suc m) s) ≡ take m (remove k s)
  drop_last-take m k [] e l = absurd (omega arith)
  drop_last-take zero k ((j, w) ∷ s) e l = refl
  drop_last-take (suc m) k ((j, w) ∷ []) e l = absurd (omega arith)
  drop_last-take (suc m) k ((j, w) ∷ x ∷ s) e l = ground (arith, drop_last-take m k (x ∷ s))

  take-short :
      (m k : ℕ) (s : List (ℕ × V))
      → lookup k (take (suc m) s) ≡ none
      → length (take (suc m) s) < suc m
      → take (suc m) s ≡ take m (remove k s)
  take-short m k [] e l = sym (take-nil m)
  take-short zero k ((j, w) ∷ s) e l = absurd (omega arith)
  take-short (suc m) k ((j, w) ∷ s) e l = ground (arith, take-short m k s)

  recency_put-take :
      (m k : ℕ) (v : V) (s : List (ℕ × V))
      → recency_put (suc m) k v (take (suc m) s) ≡ take (suc m) ((k, v) ∷ remove k s)
  recency_put-take m k v s = elim (Option-cases (lookup k (take (suc m) s))) [
    | inr (w, e) ↦ rw (e, recency_put) (ap (◌∷◌ (k, v)) (take-remove m k w s e))
    | inl e ↦ elim (Bool-cases (leb (suc m) (length (take (suc m) s)))) [
      | inl t ↦ rw (e, t, recency_put) (ap (◌∷◌ (k, v)) (drop_last-take m k s e (ground arith)))
      | inr t ↦ rw (e, t, recency_put) (ap (◌∷◌ (k, v)) (take-short m k s e (ground arith)))
    ]
  ]

  abbrev pub put_calls : List (ℕ × V) → List (Call V)
  put_calls [] = []
  put_calls (put ∷ puts) = put_call put.0 put.1 ∷ put_calls puts

  recency_run-latest :
      (m : ℕ) (puts s : List (ℕ × V))
      → recency_run (suc m) (put_calls puts) (take (suc m) s) ≡ ([], take (suc m) (latest s puts))
  recency_run-latest m [] s = refl
  recency_run-latest m ((k, v) ∷ puts) s =
      ap (recency_run (suc m) (put_calls puts)) (recency_put-take m k v s)
      ∙ recency_run-latest m puts ((k, v) ∷ remove k s)

  -- After any puts a new cache of `m + 1` entries holds, in the order of the last puts, the `m + 1`
  -- keys that were put last, or all keys if they are fewer, each with its last value.
  pub run-latest :
      (m : ℕ) (puts : List (ℕ × V))
      → (d : LruCache V) × (run (put_calls puts) (new_cache (suc m)) ≡ some ([], d))
        × (items d.m_list ≡ take (suc m) (latest [] puts))
  run-latest m puts =
      let (d, r, i, l) = run-recency_run (suc m) (put_calls puts) (omega arith) in
      let e = recency_run-latest m puts [] in (d, rw e at r, rw e at i)
