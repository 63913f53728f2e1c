-- ===== src/FriendlyCache/Pool.antt =====
-- PoolAllocator.h, the class `PoolAllocator`. A block is named by its index in `m_pool`, and the
-- free list by the blocks that its links go through. What `operator new` answers is an argument.
use knowledge_acquisition.Prelude.{
  ℕ, zero, suc, ◌+◌, ◌<◌, ◌≡◌, ◌≢◌, arith, Option, none, some, List, [], ◌∷◌, length, ltb,
  if◌then◌else◌,
}

-- The loop of `init_pool`: `n` blocks are left, and `i` is the next one.
abbrev pub link_blocks : ℕ → ℕ → List ℕ → List ℕ
link_blocks zero i free_list = free_list
link_blocks (suc n) i free_list = link_blocks n (suc i) (i ∷ free_list)

abbrev pub init_pool : ℕ → List ℕ
init_pool block_count = link_blocks block_count 0 []

-- `none` is `std::bad_alloc`.
abbrev pub allocate : ℕ → ℕ → List ℕ → Option (ℕ × List ℕ)
allocate heap n free_list =
    if ltb 1 n
    then some (heap, free_list)
    else elim free_list [ [] ↦ none | node ∷ next ↦ some (node, next) ]

abbrev pub deallocate : Option ℕ → ℕ → List ℕ → List ℕ
deallocate none n free_list = free_list
deallocate (some node) n free_list = if ltb 1 n then free_list else node ∷ free_list

-- No block stands twice in the free list.
abbrev pub Absent : ℕ → List ℕ → Type 0
Absent a [] = Unit {0}
Absent a (b ∷ bs) = (b ≢ a) × Absent a bs

abbrev pub Unlinked : List ℕ → Type 0
Unlinked [] = Unit {0}
Unlinked (b ∷ bs) = Absent b bs × Unlinked bs

pub length-link_blocks :
    (n i : ℕ) (free_list : List ℕ) → length (link_blocks n i free_list) ≡ n + length free_list
length-link_blocks zero i free_list = omega arith
length-link_blocks (suc n) i free_list = omega (arith, length-link_blocks n (suc i) (i ∷ free_list))

-- Every block is below `i`.
Below : ℕ → List ℕ → Type 0
Below i [] = Unit {0}
Below i (b ∷ bs) = (b < i) × Below i bs

Below-Absent : (i : ℕ) (bs : List ℕ) → Below i bs → Absent i bs
unfolding Below
Below-Absent i [] l = tt
Below-Absent i (b ∷ bs) l = (omega arith, Below-Absent i bs l.1)

Below-suc : (i : ℕ) (bs : List ℕ) → Below i bs → Below (suc i) bs
unfolding Below
Below-suc i [] l = tt
Below-suc i (b ∷ bs) l = (omega arith, Below-suc i bs l.1)

link_blocks-Unlinked :
    (n i : ℕ) (free_list : List ℕ)
    → Below i free_list
    → Unlinked free_list
    → Unlinked (link_blocks n i free_list)
unfolding Below
link_blocks-Unlinked zero i free_list l u = u
link_blocks-Unlinked (suc n) i free_list l u =
    link_blocks-Unlinked n (suc i) (i ∷ free_list) (omega arith, Below-suc i free_list l)
      (Below-Absent i free_list l, u)

pub init_pool-Unlinked : (n : ℕ) → Unlinked (init_pool n)
unfolding Below
init_pool-Unlinked n = link_blocks-Unlinked n 0 [] tt tt
