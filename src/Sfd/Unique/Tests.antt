-- ===== src/Sfd/Unique/Tests.antt =====
-- A run of unique objects.
use knowledge_acquisition.Prelude.{ℕ, ◌+◌, ◌≡◌, refl, none, some, List, [], ◌∷◌}
use knowledge_acquisition.Sfd.Unique.{
  Uniques, empty, construct, release, release_ownership, move, move_assign,
}
use knowledge_acquisition.Sfd.Unique.Owned.{
  Act, constructs, moves, assigns, releases, gives_up, perform_all, handed, owners, closings,
  givings, perform_all-places,
}

abbrev forget : ℕ → ℕ
forget ctx = 0

-- Descriptor 5 is assigned over descriptor 4, moved on and given away; the kernel hands it out again.
abbrev acts : List (Act ℕ)
acts =
    constructs (some 4) 1
    ∷ constructs (some 5) 2
    ∷ assigns 0 1
    ∷ moves 0
    ∷ gives_up 2
    ∷ constructs (some 5) 3
    ∷ releases 3
    ∷ constructs (some 5) 4
    ∷ []

abbrev last : Uniques ℕ
last = record {
  objects =
      record { fd = none; ctx = 0 }
      ∷ record { fd = none; ctx = 0 }
      ∷ record { fd = none; ctx = 2 }
      ∷ record { fd = none; ctx = 3 }
      ∷ record { fd = some 5; ctx = 4 }
      ∷ [];
  closed = (5, 3) ∷ (4, 1) ∷ [];
  given = 5 ∷ [];
}

performed : perform_all forget acts empty ≡ some last
unfolding construct release release_ownership move move_assign
performed = refl

perform_all-places_example : owners 5 last + closings 5 last + givings 5 last ≡ handed 5 acts
perform_all-places_example = perform_all-places 5 forget acts last performed
