-- ===== src/Sfd/Unique/Owned.antt =====
-- Where the descriptors of the unique objects are.
use knowledge_acquisition.Prelude.{
  ℕ, ◌+◌, ◌≡◌, ◌≢◌, refl, ◌∙◌, arith, Option, none, some, List, [], ◌∷◌, get_elem?,
  get_elem?-set_other, get_elem?-set_here, set, total, total-append, total-set, ◌==◌, ==_refl,
  Bool-cases, Option-cases, inl, inr, if◌then◌else◌,
}
use mathlib.Core.Option.{some-injective}
use knowledge_acquisition.Sfd.Unique.{
  Unique, Uniques, empty, construct, release_fd, release, give, release_ownership, move, take_move,
  move_assign,
}

-- The operations on the objects that a program constructs.
pub data Act {ℓ} (C : Type ℓ) : Type ℓ where
  constructs : Option ℕ → C → Act C
  moves : ℕ → Act C
  assigns : ℕ → ℕ → Act C
  releases gives_up : ℕ → Act C

abbrev pub same_fd : ℕ → Option ℕ → ℕ
same_fd fd none = 0
same_fd fd (some f) = if f == fd then 1 else 0

count-give :
    (fd : ℕ) (own : Option ℕ) (given : List ℕ)
    → total (λ f. if f == fd then 1 else 0) (give own given)
      ≡ same_fd fd own + total (λ f. if f == fd then 1 else 0) given
count-give fd none given = omega arith
count-give fd (some f) given = refl

module _ {ℓ} {C : Type ℓ} where
  abbrev pub perform : (C → C) → Act C → Uniques C → Option (Uniques C)
  perform left (constructs fd ctx) w = some (construct fd ctx w)
  perform left (moves other) w = move left other w
  perform left (assigns i other) w = move_assign left i other w
  perform left (releases i) w = release i w
  perform left (gives_up i) w = release_ownership i w

  abbrev pub perform_all : (C → C) → List (Act C) → Uniques C → Option (Uniques C)
  perform_all left [] w = some w
  perform_all left (act ∷ acts) w = elim (perform left act w) [
    | none ↦ none
    | some w' ↦ perform_all left acts w'
  ]

  -- How often the program was handed a descriptor.
  abbrev pub handed : ℕ → List (Act C) → ℕ
  handed fd [] = 0
  handed fd (constructs f ctx ∷ acts) = same_fd fd f + handed fd acts
  handed fd (moves other ∷ acts) = handed fd acts
  handed fd (assigns i other ∷ acts) = handed fd acts
  handed fd (releases i ∷ acts) = handed fd acts
  handed fd (gives_up i ∷ acts) = handed fd acts

  abbrev pub owners : ℕ → Uniques C → ℕ
  owners fd w = total (λ (o : Unique C). same_fd fd o.fd) w.objects

  abbrev pub closings : ℕ → Uniques C → ℕ
  closings fd w = total (λ (e : ℕ × C). if e.0 == fd then 1 else 0) w.closed

  abbrev pub givings : ℕ → Uniques C → ℕ
  givings fd w = total (λ f. if f == fd then 1 else 0) w.given

  -- Owned, closed or given away.
  abbrev pub places : ℕ → Uniques C → ℕ
  places fd w = owners fd w + closings fd w + givings fd w

  module _ (fd : ℕ) where
    release_fd-places :
        (i : ℕ) (object : Unique C) (own : Option ℕ) (w : Uniques C)
        → get_elem? w.objects i ≡ some object
        → object.fd ≡ own
        → places fd (release_fd i object own w) ≡ places fd w
    release_fd-places i object none w e o = refl
    release_fd-places i object (some f) w e o =
        let s =
          total-set (λ (u : Unique C). same_fd fd u.fd) w.objects i object
            (record object { fd = none }) e in
        let k : same_fd fd object.fd ≡ (if f == fd then 1 else 0) = rw o refl in omega arith

    release-places : (i : ℕ) (w w' : Uniques C) → release i w ≡ some w' → places fd w' ≡ places fd w
    unfolding release
    release-places i w w' r = elim (Option-cases (get_elem? w.objects i)) [
      | inl e ↦ let x = rw (e, release) at r in absurd cc
      | inr (object, e) ↦
          let x = some-injective (release_fd i object object.fd w) w' (rw (e, release) at r) in
          rw (← x) (release_fd-places i object object.fd w e refl)
    ]

    release_ownership-places :
        (i : ℕ) (w w' : Uniques C) → release_ownership i w ≡ some w' → places fd w' ≡ places fd w
    unfolding release_ownership
    release_ownership-places i w w' r = elim (Option-cases (get_elem? w.objects i)) [
      | inl e ↦ let x = rw (e, release_ownership) at r in absurd cc
      | inr (object, e) ↦
          let s =
            total-set (λ (u : Unique C). same_fd fd u.fd) w.objects i object
              (record object { fd = none }) e in
          let g = count-give fd object.fd w.given in
          rw (← some-injective _ w' (rw (e, release_ownership) at r)) (omega arith)
    ]

    construct-places :
        (f : Option ℕ) (ctx : C) (w : Uniques C)
        → places fd (construct f ctx w) ≡ same_fd fd f + places fd w
    unfolding construct
    construct-places f ctx w =
        let a =
          total-append (λ (u : Unique C). same_fd fd u.fd) w.objects
            (record { fd = f; ctx = ctx } ∷ []) in
        omega arith

    module _ (left : C → C) where
      move-places :
          (other : ℕ) (w w' : Uniques C) → move left other w ≡ some w' → places fd w' ≡ places fd w
      unfolding move
      move-places other w w' r = elim (Option-cases (get_elem? w.objects other)) [
        | inl e ↦ let x = rw (e, move) at r in absurd cc
        | inr (object, e) ↦
            let moved : Unique C = record { fd = none; ctx = left object.ctx } in
            let s = total-set (λ (u : Unique C). same_fd fd u.fd) w.objects other object moved e in
            let a =
              total-append (λ (u : Unique C). same_fd fd u.fd) (set w.objects other moved)
                (object ∷ []) in
            rw (← some-injective _ w' (rw (e, move) at r)) (omega arith)
      ]

      -- The object that takes the descriptor has none of its own.
      take_move-places :
          (i other : ℕ) (object : Unique C) (w w' : Uniques C)
          → i ≢ other
          → get_elem? w.objects i ≡ some object
          → object.fd ≡ none
          → take_move left i other w ≡ some w'
          → places fd w' ≡ places fd w
      take_move-places i other object w w' n e o r =
          elim (Option-cases (get_elem? w.objects other)) [
            | inl k ↦ let x = rw (k, take_move) at r in absurd cc
            | inr (source, k) ↦
                let moved : Unique C = record { fd = none; ctx = left source.ctx } in
                let s = total-set (λ (u : Unique C). same_fd fd u.fd) w.objects i object source e in
                let k' = get_elem?-set_other w.objects i other source n ∙ k in
                let t =
                  total-set (λ (u : Unique C). same_fd fd u.fd) (set w.objects i source) other
                    source moved k' in
                let z : same_fd fd object.fd ≡ 0 = rw o refl in
                rw (← some-injective _ w' (rw (k, take_move) at r)) (omega arith)
          ]

      -- A released object has no descriptor.
      release_fd-none :
          (i : ℕ) (object : Unique C) (own : Option ℕ) (w : Uniques C)
          → get_elem? w.objects i ≡ some object
          → object.fd ≡ own
          → (object' : Unique C) × (get_elem? (release_fd i object own w).objects i ≡ some object')
            × (object'.fd ≡ none)
      release_fd-none i object none w e o = (object, e, o)
      release_fd-none i object (some f) w e o = (
        record object { fd = none },
        get_elem?-set_here w.objects i object (record object { fd = none }) e,
        refl,
      )

      move_assign-places :
          (i other : ℕ) (w w' : Uniques C)
          → move_assign left i other w ≡ some w'
          → places fd w' ≡ places fd w
      unfolding move_assign release
      move_assign-places i other w w' r = elim (Bool-cases (i == other)) [
        | inl t ↦ rw (← some-injective w w' (rw (t, move_assign) at r)) refl
        | inr t ↦ elim (Option-cases (get_elem? w.objects i)) [
          | inl e ↦ let x = rw (t, e, move_assign, release) at r in absurd cc
          | inr (object, e) ↦
              let n : i ≢ other = λ q. (let one = ==_refl other in ground arith) in
              let (object', k, z) = release_fd-none i object object.fd w e refl in
              take_move-places i other object' (release_fd i object object.fd w) w' n k z
                (rw (t, e, move_assign, release) at r)
              ∙ release_fd-places i object object.fd w e refl
        ]
      ]

      perform-places :
          (act : Act C) (w w' : Uniques C)
          → perform left act w ≡ some w'
          → places fd w' ≡ handed fd (act ∷ []) + places fd w
      perform-places (constructs f ctx) w w' r =
          rw (← some-injective _ w' r) (let c = construct-places f ctx w in omega arith)
      perform-places (moves other) w w' r = let p = move-places other w w' r in omega arith
      perform-places (assigns i other) w w' r =
          let p = move_assign-places i other w w' r in omega arith
      perform-places (releases i) w w' r = let p = release-places i w w' r in omega arith
      perform-places (gives_up i) w w' r = let p = release_ownership-places i w w' r in omega arith

      handed-cons :
          (act : Act C) (acts : List (Act C))
          → handed fd (act ∷ acts) ≡ handed fd (act ∷ []) + handed fd acts
      handed-cons (constructs f ctx) acts = omega arith
      handed-cons (moves other) acts = omega arith
      handed-cons (assigns i other) acts = omega arith
      handed-cons (releases i) acts = omega arith
      handed-cons (gives_up i) acts = omega arith

      perform_all-from :
          (acts : List (Act C)) (w w' : Uniques C)
          → perform_all left acts w ≡ some w'
          → places fd w' ≡ handed fd acts + places fd w
      perform_all-from [] w w' r = rw (← some-injective w w' r) (omega arith)
      perform_all-from (act ∷ acts) w w' r = elim (Option-cases (perform left act w)) [
        | inl e ↦ let x = rw (e, perform_all) at r in absurd cc
        | inr (v, e) ↦
            let a = perform-places act w v e in
            let b = perform_all-from acts v w' (rw (e, perform_all) at r) in
            let c = handed-cons act acts in omega arith
      ]

      -- When a program of operations runs from the start, every descriptor is owned, was closed or was
      -- given away as often as an object was constructed with it: so many objects own it, so many
      -- times it was closed and so many times it was given away.
      pub perform_all-places :
          (acts : List (Act C)) (w : Uniques C)
          → perform_all left acts empty ≡ some w
          → owners fd w + closings fd w + givings fd w ≡ handed fd acts
      perform_all-places acts w r = let a = perform_all-from acts empty w r in omega arith
