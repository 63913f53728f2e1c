-- ===== src/Sfd/Tests.antt =====
-- Runs of the smart file descriptors.
use knowledge_acquisition.Prelude.{ℕ, ◌+◌, ◌≡◌, refl, arith, true, none, some, List, [], ◌∷◌}
use knowledge_acquisition.Sfd.Registry.{
  empty_slot, new_registry, retain, release, scan, claim, release_loop,
}
use knowledge_acquisition.Sfd.Registry.Collision.{reopened, release-reopened}
use knowledge_acquisition.Sfd.Shared.{
  World, start, construct, copy, reset, copy_assign, move, use_count,
}
use knowledge_acquisition.Sfd.Shared.Counting.{holders}
use knowledge_acquisition.Sfd.Shared.Closing.{closings}
use knowledge_acquisition.Sfd.Shared.Program.{
  Op, construct_op, copy_op, move_op, copy_assign_op, destroy_op, apply, run, openings, present,
  use_count-run, closings-run,
}

abbrev forget : ℕ → ℕ
forget ctx = 0

-- A descriptor is copied twice and one of the copies moved; two of the three holders go.
abbrev session : List (Op ℕ)
session =
    construct_op (some 3) 7
    ∷ copy_op 0
    ∷ construct_op none 9
    ∷ copy_assign_op 2 0
    ∷ move_op 1
    ∷ destroy_op 0
    ∷ destroy_op 3
    ∷ []

abbrev left_over : World ℕ
left_over = record {
  registry = empty_slot ∷ empty_slot ∷ empty_slot ∷ record { fd = some 3; count = 1 } ∷ [];
  objects =
      record { fd = none; ctx = 7 }
      ∷ record { fd = none; ctx = 0 }
      ∷ record { fd = some 3; ctx = 7 }
      ∷ record { fd = none; ctx = 7 }
      ∷ [];
  closed = [];
}

run-session : run forget session (start 4) ≡ some left_over
unfolding run apply construct copy copy_assign move reset retain release scan claim release_loop
run-session = refl

closings-run_example :
    closings 3 left_over.closed + present (holders 3 left_over.objects)
    ≡ openings forget 3 session (start 4)
closings-run_example =
    closings-run forget 4 3 session left_over (omega arith, (tt, (tt, (tt, (tt, (tt, (tt, tt)))))))
      (omega arith) run-session

use_count-run_example : use_count 2 left_over ≡ some 1
use_count-run_example =
    use_count-run forget 4 2 session left_over (record { fd = some 3; ctx = 7 })
      (omega arith, (tt, (tt, (tt, (tt, (tt, (tt, tt))))))) (omega arith) run-session refl

release-reopened_example :
    ((reopened 3 7 (new_registry 4)).1 ≡ true)
    × ((release 7 (reopened 3 7 (new_registry 4)).0).1 ≡ true)
release-reopened_example = release-reopened 4 3 7 (omega arith) refl (omega arith)
