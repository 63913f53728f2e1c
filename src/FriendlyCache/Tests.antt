-- ===== src/FriendlyCache/Tests.antt =====
-- The theorems about the cache at small runs.
use knowledge_acquisition.Prelude.{ℕ, ◌≤◌, ◌≡◌, refl, arith, none, some, List, [], ◌∷◌}
use knowledge_acquisition.FriendlyCache.LruCache.{LruCache, new_cache, size}
use knowledge_acquisition.FriendlyCache.Nodes.{items}
use knowledge_acquisition.FriendlyCache.Run.{
  Call, get_call, put_call, run, recency_run, run-recency_run,
}
use knowledge_acquisition.FriendlyCache.Latest.{put_calls, run-latest}

run-latest_example :
    (d : LruCache ℕ) × (run (put_calls ((1, 10) ∷ (2, 20) ∷ (1, 11) ∷ (3, 30) ∷ [])) (new_cache 2)
      ≡ some ([], d))
    × (items d.m_list ≡ (3, 30) ∷ (1, 11) ∷ [])
run-latest_example = run-latest 1 ((1, 10) ∷ (2, 20) ∷ (1, 11) ∷ (3, 30) ∷ [])

-- The key 1 is read, so that the key 2 is the one that goes.
abbrev calls : List (Call ℕ)
calls =
    put_call 1 10
    ∷ put_call 2 20
    ∷ get_call 1
    ∷ put_call 3 30
    ∷ get_call 2
    ∷ get_call 3
    ∷ put_call 1 11
    ∷ []

recency_run-calls : recency_run 2 calls [] ≡ (some 10 ∷ none ∷ some 30 ∷ [], (1, 11) ∷ (3, 30) ∷ [])
recency_run-calls = refl

run-recency_run_example :
    (d : LruCache ℕ) × (run calls (new_cache 2) ≡ some ((recency_run 2 calls []).0, d))
    × (items d.m_list ≡ (recency_run 2 calls []).1)
    × (size d ≤ 2)
run-recency_run_example = run-recency_run 2 calls (omega arith)
