-- ===== src/Sfd/Unique.antt =====
-- smart_file_descriptor.h, the class `UniqueFileDescriptor`. The objects of a program are numbered in
-- the order of their construction. `none` in an object is the descriptor -1. `closed` records the
-- calls of `Policy::close` and `given` what `release_ownership` answered, the latest first. What a
-- moved context is left as is an argument, and `none` as a result says that there is no such object.
pub mod Owned
mod Tests
use knowledge_acquisition.Prelude.{
  ℕ, ◌==◌, Option, none, some, List, [], ◌∷◌, ◌++◌, get_elem?, set, if◌then◌else◌,
}

pub record Unique {ℓ} (C : Type ℓ) : Type ℓ where
  pub fd : Option ℕ
  pub ctx : C

pub record Uniques {ℓ} (C : Type ℓ) : Type ℓ where
  pub objects : List (Unique C)
  pub closed : List (ℕ × C)
  pub given : List ℕ

-- The caller gets -1 from an object without a descriptor.
abbrev pub give : Option ℕ → List ℕ → List ℕ
give none given = given
give (some fd) given = fd ∷ given

module _ {ℓ} {C : Type ℓ} where
  abbrev pub empty : Uniques C
  empty = record { objects = []; closed = []; given = [] }

  -- A constructor; with `LinuxArgs` the descriptor is what the policy opened, if it did.
  unfoldable pub construct : Option ℕ → C → Uniques C → Uniques C
  construct fd ctx w = record w { objects = w.objects ++ (record { fd = fd; ctx = ctx } ∷ []) }

  abbrev pub release_fd : ℕ → Unique C → Option ℕ → Uniques C → Uniques C
  release_fd i object none w = w
  release_fd i object (some fd) w = record w {
    objects = set w.objects i (record object { fd = none });
    closed = (fd, object.ctx) ∷ w.closed;
  }

  -- `release`, which is also the destructor.
  unfoldable pub release : ℕ → Uniques C → Option (Uniques C)
  release i w = elim (get_elem? w.objects i) [
    | none ↦ none
    | some object ↦ some (release_fd i object object.fd w)
  ]

  unfoldable pub release_ownership : ℕ → Uniques C → Option (Uniques C)
  release_ownership i w = elim (get_elem? w.objects i) [
    | none ↦ none
    | some object ↦ some (record w {
      objects = set w.objects i (record object { fd = none });
      given = give object.fd w.given;
    })
  ]

  module _ (left : C → C) where
    -- The move constructor.
    unfoldable pub move : ℕ → Uniques C → Option (Uniques C)
    move other w = elim (get_elem? w.objects other) [
      | none ↦ none
      | some object ↦ some (record w {
        objects =
            set w.objects other (record { fd = none; ctx = left object.ctx }) ++ (object ∷ []);
      })
    ]

    abbrev pub take_move : ℕ → ℕ → Uniques C → Option (Uniques C)
    take_move i other w = elim (get_elem? w.objects other) [
      | none ↦ none
      | some object ↦ some (record w {
        objects = set (set w.objects i object) other (record { fd = none; ctx = left object.ctx });
      })
    ]

    unfoldable pub move_assign : ℕ → ℕ → Uniques C → Option (Uniques C)
    unfolding release
    move_assign i other w =
        if i == other
        then some w
        else elim (release i w) [ none ↦ none | some w' ↦ take_move i other w' ]
