-- ===== src/Sfd/Shared/Program.antt =====
-- Programs of constructions, copies, moves, assignments and destructions.
use knowledge_acquisition.Prelude.{
  ℕ, suc, ◌+◌, ◌<◌, ◌≡◌, inl, inr, refl, ap, ◌∙◌, arith, Option, none, some, List, [], ◌∷◌, length,
  get_elem?, length-replicate, All, ltb, Option-cases, if◌then◌else◌,
}
use knowledge_acquisition.Sfd.Registry.{empty_slot, get_count, size_mod}
use knowledge_acquisition.Sfd.Registry.Direct.{new_registry-Counts}
use knowledge_acquisition.Sfd.Shared.{
  Shared, World, start, construct, copy, reset, copy_assign, move, move_assign,
}
use knowledge_acquisition.Sfd.Shared.Counting.{Fits, holders, IsCounted, Fits-at}
use knowledge_acquisition.Sfd.Shared.Closing.{lost, closings, ClosesLost}
use knowledge_acquisition.Sfd.Registry.Direct.{get_count_lem, get_count-none}
use knowledge_acquisition.Sfd.Shared.{use_count}
use knowledge_acquisition.Sfd.Shared.Run.{
  Keeps, reset-Keeps, construct-Keeps, copy-Keeps, copy_assign-Keeps, move_assign-Keeps, move-Keeps,
}

pub data Op {ℓ} (C : Type ℓ) : Type ℓ where
  construct_op : (fd : Option ℕ) (ctx : C) → Op C
  copy_op : (other : ℕ) → Op C
  move_op : (other : ℕ) → Op C
  copy_assign_op : (i other : ℕ) → Op C
  move_assign_op : (i other : ℕ) → Op C
  destroy_op : (i : ℕ) → Op C

-- A new descriptor has a slot of its own.
abbrev pub Legal {ℓ} : {C : Type ℓ} → ℕ → Op C → Type 0
Legal n (construct_op fd ctx) = Fits n fd
Legal n (copy_op other) = Unit {0}
Legal n (move_op other) = Unit {0}
Legal n (copy_assign_op i other) = Unit {0}
Legal n (move_assign_op i other) = Unit {0}
Legal n (destroy_op i) = Unit {0}

module _ {ℓ} {C : Type ℓ} (left : C → C) where
  unfoldable pub apply : Op C → World C → Option (World C)
  apply (construct_op fd ctx) w = some (construct fd ctx w)
  apply (copy_op other) w = copy other w
  apply (move_op other) w = move left other w
  apply (copy_assign_op i other) w = copy_assign i other w
  apply (move_assign_op i other) w = move_assign left i other w
  apply (destroy_op i) w = reset i w

module _ {ℓ} {C : Type ℓ} where
  pub apply-Keeps :
      (left : C → C) (op : Op C) (w : World C)
      → IsCounted w
      → Legal (length w.registry) op
      → suc (length w.objects) < size_mod
      → Keeps w (apply left op w)
  unfolding apply
  apply-Keeps left (construct_op fd ctx) w v l b = construct-Keeps fd ctx w v l b
  apply-Keeps left (copy_op other) w v l b = copy-Keeps other w v b
  apply-Keeps left (move_op other) w v l b = move-Keeps left other w v b
  apply-Keeps left (copy_assign_op i other) w v l b = copy_assign-Keeps i other w v b
  apply-Keeps left (move_assign_op i other) w v l b = move_assign-Keeps left i other w v
  apply-Keeps left (destroy_op i) w v l b = reset-Keeps i w v

-- Each operation runs on what the one before left.
module _ {ℓ} {C : Type ℓ} (left : C → C) where
  unfoldable pub run : List (Op C) → World C → Option (World C)
  run [] w = some w
  run (op ∷ ops) w = elim (apply left op w) [ none ↦ none | some w' ↦ run ops w' ]

  -- How often a descriptor that no object holds comes into use.
  unfoldable pub openings : ℕ → List (Op C) → World C → ℕ
  openings fd [] w = 0
  openings fd (op ∷ ops) w = elim (apply left op w) [
    | none ↦ 0
    | some w' ↦ lost (holders fd w'.objects) (holders fd w.objects) + openings fd ops w'
  ]

-- The number of the objects that hold what one of them holds.
abbrev pub users {ℓ} : {C : Type ℓ} → Option ℕ → List (Shared C) → ℕ
users none objects = 0
users (some fd) objects = holders fd objects

abbrev pub present : ℕ → ℕ
present count = if ltb 0 count then 1 else 0

module _ {ℓ} {C : Type ℓ} (left : C → C) where
  -- What a program leaves.
  abbrev pub Balances : ℕ → List (Op C) → World C → World C → Type ℓ
  Balances fd ops w w' =
      IsCounted w'
      × (length w'.registry ≡ length w.registry)
      × (closings fd w'.closed + present (holders fd w'.objects)
          ≡ closings fd w.closed + present (holders fd w.objects) + openings left fd ops w)

  run-Balances :
      (fd : ℕ) (ops : List (Op C)) (w w' : World C)
      → IsCounted w
      → All (Legal (length w.registry)) ops
      → length ops + length w.objects < size_mod
      → run left ops w ≡ some w'
      → Balances fd ops w w'
  unfolding run openings ClosesLost
  run-Balances fd [] w w' v l b e =
      let q : w ≡ w' = ground (arith, e) in rw (← q) (v, refl, omega arith)
  run-Balances fd (op ∷ ops) w w' v l b e =
      let k = apply-Keeps left op w v l.0 (omega arith) in
      elim (Option-cases (apply left op w)) [
        | inl n ↦ let q = rw (n, run) at e in cc
        | inr (u, n) ↦
            let (c, x, s, o) = rw n at k in
            let f : All (Legal (length u.registry)) ops = rw s l.1 in
            let r = run-Balances fd ops u w' c f (omega arith) (rw (n, run) at e) in
            let m = x fd in (r.0, r.1 ∙ s, rw (n, openings) (ground arith))
      ]

  start-IsCounted : (n : ℕ) → IsCounted {C = C} (start n)
  start-IsCounted n = record { counts = new_registry-Counts n; fit = tt; few = omega arith }

  balance :
      (n fd : ℕ) (ops : List (Op C)) (w : World C)
      → All (Legal n) ops
      → length ops < size_mod
      → run left ops (start n) ≡ some w
      → Balances fd ops (start n) w
  balance n fd ops w l b e =
      run-Balances fd ops (start n) w (start-IsCounted n) (rw (length-replicate n empty_slot) l)
        (omega arith) e

  count_of :
      (w : World C) (held : Option ℕ)
      → IsCounted w
      → Fits (length w.registry) held
      → get_count held w.registry ≡ users held w.objects
  count_of w none v f = get_count-none w.registry (λ d. holders d w.objects) v.counts
  count_of w (some fd) v f = get_count_lem w.registry (λ d. holders d w.objects) fd v.counts f

  -- When a program of fewer than 2 ^ 64 operations runs from the start, with descriptors below the number
  -- of slots, the use count of an object is the number of the objects that hold its descriptor, and 0
  -- if it holds none.
  pub use_count-run :
      (n i : ℕ) (ops : List (Op C)) (w : World C) (object : Shared C)
      → All (Legal n) ops
      → length ops < size_mod
      → run left ops (start n) ≡ some w
      → get_elem? w.objects i ≡ some object
      → use_count i w ≡ some (users object.fd w.objects)
  unfolding use_count
  use_count-run n i ops w object l b e g =
      let r = balance n 0 ops w l b e in
      rw (g, use_count)
        (ap some
          (count_of w object.fd r.0 (Fits-at (length w.registry) w.objects i object r.0.fit g)))

  -- When a program of fewer than 2 ^ 64 operations runs from the start, with descriptors below the number
  -- of slots, each descriptor is closed once for every time it came into use, which `openings` counts,
  -- less once if an object still holds it.
  pub closings-run :
      (n fd : ℕ) (ops : List (Op C)) (w : World C)
      → All (Legal n) ops
      → length ops < size_mod
      → run left ops (start n) ≡ some w
      → closings fd w.closed + present (holders fd w.objects) ≡ openings left fd ops (start n)
  closings-run n fd ops w l b e = let r = balance n fd ops w l b e in omega (arith, r.2)
