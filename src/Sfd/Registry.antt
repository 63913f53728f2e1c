-- ===== src/Sfd/Registry.antt =====
-- sfd_static_registry.h, the class `StaticFileDescriptionRegistry`: a table of reference counts with
-- open addressing. `none` is the descriptor -1, and every call returns at once for a negative
-- descriptor, so the descriptors here are numbers. A call runs as one step.
pub mod Direct
pub mod Collision
use knowledge_acquisition.Prelude.{
  ℕ, zero, suc, ◌+◌, ◌-◌, ◌*◌, ◌%◌, ◌^◌, Bool, true, false, Option, none, some, List, [], ◌∷◌,
  length, get_elem?, set, replicate, ◌==◌, if◌then◌else◌,
}

pub record Slot : Type 0 where
  pub fd : Option ℕ
  pub count : ℕ

abbrev pub empty_slot : Slot
empty_slot = record { fd = none; count = 0 }

-- `size_t` has 64 bits.
abbrev pub size_mod : ℕ
size_mod = 2 ^ 64

abbrev pub new_registry : ℕ → List Slot
new_registry max_slots = replicate max_slots empty_slot

abbrev pub holds : Slot → ℕ → Bool
holds slot fd = elim slot.fd [ none ↦ false | some other ↦ other == fd ]

-- The slot of the `i`-th round of a loop.
abbrev pub probe : ℕ → ℕ → List Slot → ℕ
probe i fd registry = (fd % length registry + i) % length registry

-- `count.fetch_add(1)`.
abbrev pub increment : ℕ → Slot → List Slot → List Slot
increment idx slot registry = set registry idx (record slot { count = (slot.count + 1) % size_mod })

-- How the fast scan ends.
pub data Scan : Type 0 where
  found : (idx : ℕ) (slot : Slot) → Scan
  unregistered : Scan

-- `n` rounds are left, and the next is the `i`-th. The read of a slot that is not there stands for
-- nothing: the index is below the length.
unfoldable pub scan : ℕ → ℕ → ℕ → List Slot → Scan
scan zero i fd registry = unregistered
scan (suc n) i fd registry =
    let rest = scan n (suc i) fd registry in
    elim (get_elem? registry (probe i fd registry)) [
      | none ↦ unregistered
      | some slot ↦
          if holds slot fd
          then found (probe i fd registry) slot
          else elim slot.fd [ none ↦ unregistered | some other ↦ rest ]
    ]

-- The loop that claims a slot. A full table is left as it is.
unfoldable pub claim : ℕ → ℕ → ℕ → List Slot → List Slot
claim zero i fd registry = registry
claim (suc n) i fd registry =
    let rest = claim n (suc i) fd registry in
    elim (get_elem? registry (probe i fd registry)) [
      | none ↦ registry
      | some slot ↦ elim slot.fd [
        | none ↦ set registry (probe i fd registry) (record { fd = some fd; count = 1 })
        | some other ↦ if other == fd then increment (probe i fd registry) slot registry else rest
      ]
    ]

unfoldable pub retain : ℕ → List Slot → List Slot
retain fd registry = elim (scan (length registry) 0 fd registry) [
  | found idx slot ↦ increment idx slot registry
  | unregistered ↦ claim (length registry) 0 fd registry
]

-- `count.fetch_sub(1)`, and the slot is empty again when the count was 1.
abbrev pub drop_count : ℕ → Slot → List Slot → List Slot × Bool
drop_count idx slot registry =
    if slot.count == 1
    then (set registry idx empty_slot, true)
    else (set registry idx (record slot { count = (slot.count + size_mod - 1) % size_mod }), false)

unfoldable pub release_loop : ℕ → ℕ → ℕ → List Slot → List Slot × Bool
release_loop zero i fd registry = (registry, false)
release_loop (suc n) i fd registry =
    let rest = release_loop n (suc i) fd registry in
    elim (get_elem? registry (probe i fd registry)) [
      | none ↦ (registry, false)
      | some slot ↦ if holds slot fd then drop_count (probe i fd registry) slot registry else rest
    ]

-- The registry and whether the caller is to close the descriptor.
unfoldable pub release : ℕ → List Slot → List Slot × Bool
release fd registry = release_loop (length registry) 0 fd registry

-- A load of a descriptor against the one that is asked for.
abbrev pub same_fd : Option ℕ → Option ℕ → Bool
same_fd none none = true
same_fd none (some other) = false
same_fd (some fd) none = false
same_fd (some fd) (some other) = fd == other

unfoldable pub get_count : Option ℕ → List Slot → ℕ
get_count fd [] = 0
get_count fd (slot ∷ registry) =
    let rest = get_count fd registry in if same_fd slot.fd fd then slot.count else rest
