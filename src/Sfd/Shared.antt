-- ===== src/Sfd/Shared.antt =====
-- smart_file_descriptor.h, the class `SharedFileDescriptor`. The objects of a program are numbered in
-- the order of their construction, and the registry is shared by them. `none` in an object is the
-- descriptor -1, as in the registry. `closed` records the calls of `Policy::close`, the latest first.
-- What a moved context is left as is an argument, and `none` as a result says that there is no such
-- object.
pub mod Counting
pub mod Closing
pub mod Steps
pub mod Run
pub mod Program
use knowledge_acquisition.Prelude.{
  ℕ, ◌==◌, Bool, true, false, Option, none, some, List, [], ◌∷◌, ◌++◌, get_elem?, set,
  if◌then◌else◌,
}
use knowledge_acquisition.Sfd.Registry.{Slot, new_registry, retain, release, get_count}

pub record Shared {ℓ} (C : Type ℓ) : Type ℓ where
  pub fd : Option ℕ
  pub ctx : C

pub record World {ℓ} (C : Type ℓ) : Type ℓ where
  pub registry : List Slot
  pub objects : List (Shared C)
  pub closed : List (ℕ × C)

-- `if (_fd >= 0) Registry::retain(_fd);`
abbrev pub retain_fd : Option ℕ → List Slot → List Slot
retain_fd none registry = registry
retain_fd (some fd) registry = retain fd registry

abbrev pub release_fd : Option ℕ → List Slot → List Slot
release_fd none registry = registry
release_fd (some fd) registry = (release fd registry).0

module _ {ℓ} {C : Type ℓ} where
  abbrev pub start : ℕ → World C
  start max_slots = record { registry = new_registry max_slots; objects = []; closed = [] }

  -- A constructor that takes a descriptor; with `LinuxArgs` what `Policy::open` answers.
  unfoldable pub construct : Option ℕ → C → World C → World C
  construct fd ctx w = record w {
    registry = retain_fd fd w.registry;
    objects = w.objects ++ (record { fd = fd; ctx = ctx } ∷ []);
  }

  -- The copy constructor.
  unfoldable pub copy : ℕ → World C → Option (World C)
  unfolding construct
  copy other w = elim (get_elem? w.objects other) [
    | none ↦ none
    | some object ↦ some (construct object.fd object.ctx w)
  ]

  abbrev pub reset_fd : ℕ → Shared C → Option ℕ → World C → World C
  reset_fd i object none w = w
  reset_fd i object (some fd) w =
      let (registry, last) = release fd w.registry in
      record w {
        registry = registry;
        objects = set w.objects i (record object { fd = none });
        closed = if last then (fd, object.ctx) ∷ w.closed else w.closed;
      }

  -- `reset`, which is also the destructor.
  unfoldable pub reset : ℕ → World C → Option (World C)
  reset i w = elim (get_elem? w.objects i) [
    | none ↦ none
    | some object ↦ some (reset_fd i object object.fd w)
  ]

  -- `_fd = other._fd; _ctx = other._ctx;` and the reference.
  abbrev pub take_copy : ℕ → ℕ → World C → Option (World C)
  take_copy i other w = elim (get_elem? w.objects other) [
    | none ↦ none
    | some object ↦
        some
          (record w { registry = retain_fd object.fd w.registry; objects = set w.objects i object })
  ]

  unfoldable pub copy_assign : ℕ → ℕ → World C → Option (World C)
  unfolding reset
  copy_assign i other w =
      if i == other
      then some w
      else elim (reset i w) [ none ↦ none | some w' ↦ take_copy i other w' ]

  -- `release`, which gives the descriptor away.
  unfoldable pub release_object : ℕ → World C → Option (Option ℕ × World C)
  release_object i w = elim (get_elem? w.objects i) [
    | none ↦ none
    | some object ↦ some (
      object.fd,
      record w {
        registry = release_fd object.fd w.registry;
        objects = set w.objects i (record object { fd = none });
      },
    )
  ]

  unfoldable pub use_count : ℕ → World C → Option ℕ
  use_count i w = elim (get_elem? w.objects i) [
    | none ↦ none
    | some object ↦ some (get_count object.fd w.registry)
  ]

  module _ (left : C → C) where
    -- The move constructor.
    unfoldable pub move : ℕ → World C → Option (World C)
    move other w = elim (get_elem? w.objects other) [
      | none ↦ none
      | some object ↦ some (record w {
        objects =
            set w.objects other (record { fd = none; ctx = left object.ctx }) ++ (object ∷ []);
      })
    ]

    abbrev pub take_move : ℕ → ℕ → World C → Option (World C)
    take_move i other w = elim (get_elem? w.objects other) [
      | none ↦ none
      | some object ↦ some (record w {
        objects = set (set w.objects i object) other (record { fd = none; ctx = left object.ctx });
      })
    ]

    unfoldable pub move_assign : ℕ → ℕ → World C → Option (World C)
    unfolding reset
    move_assign i other w =
        if i == other
        then some w
        else elim (reset i w) [ none ↦ none | some w' ↦ take_move i other w' ]
