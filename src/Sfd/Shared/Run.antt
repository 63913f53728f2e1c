-- ===== src/Sfd/Shared/Run.antt =====
-- What every operation on the objects keeps.
use knowledge_acquisition.Prelude.{
  get_elem?-set_here, ℕ, suc, ◌+◌, ◌<◌, ◌≤◌, ◌≡◌, ◌≢◌, inl, inr, refl, sym, ap, ◌∙◌, arith, Option,
  none, some, List, [], ◌∷◌, ◌++◌, length, length-set, length-append, get_elem?, set, All-append,
  total-append, total-set, ◌==◌, Bool-cases, Option-cases,
}
use knowledge_acquisition.Sfd.Registry.{Slot, size_mod}
use knowledge_acquisition.Sfd.Registry.Direct.{Counts, length-retain}
use knowledge_acquisition.Sfd.Shared.{
  Shared, World, retain_fd, construct, copy, reset, take_copy, copy_assign, move, take_move,
  move_assign,
}
use knowledge_acquisition.Sfd.Shared.Counting.{
  Counts-cong, holding, Fits, holders, holders-le, IsCounted, construct-IsCounted, Fits-at,
  Fits-set, vacant_set,
}
use knowledge_acquisition.Sfd.Shared.Closing.{ClosesLost, same-ClosesLost, Vacates, reset-Vacates}
use knowledge_acquisition.Sfd.Shared.Steps.{
  copied, copied-IsCounted, moved, holders-moved, moved-IsCounted, occupied_set,
}

length-retain_fd :
    (held : Option ℕ) (registry : List Slot) (live : ℕ → ℕ)
    → Counts registry live
    → Fits (length registry) held
    → ((d : ℕ) → suc (live d) < size_mod)
    → length (retain_fd held registry) ≡ length registry
length-retain_fd none registry live c f b = refl
length-retain_fd (some fd) registry live c f b = length-retain registry live fd c f (b fd)

module _ {ℓ} {C : Type ℓ} where
  -- What holds after an operation, if its objects are there.
  abbrev pub Keeps : World C → Option (World C) → Type ℓ
  Keeps w none = Unit {ℓ}
  Keeps w (some w') =
      IsCounted w'
      × ClosesLost w w'
      × (length w'.registry ≡ length w.registry)
      × (length w'.objects ≤ suc (length w.objects))

  pub reset-Keeps : (i : ℕ) (w : World C) → IsCounted w → Keeps w (reset i w)
  unfolding reset
  reset-Keeps i w v = elim (Option-cases (get_elem? w.objects i)) [
    | inl n ↦ rw (n, reset) tt
    | inr (object, n) ↦
        let (w', x) = reset-Vacates i object w v n in
        let l = length-set w.objects i (record object { fd = none }) in
        rw x.done (x.counted, x.closes, x.slots, omega (arith, ap length x.objects, l))
  ]

  length-construct :
      (fd : Option ℕ) (ctx : C) (w : World C)
      → IsCounted w
      → Fits (length w.registry) fd
      → suc (length w.objects) < size_mod
      → length (construct fd ctx w).registry ≡ length w.registry
  unfolding construct
  length-construct none ctx w v f b = refl
  length-construct (some fd) ctx w v f b =
      length-retain w.registry (λ d. holders d w.objects) fd v.counts f
        (omega (arith, holders-le fd w.objects))

  pub construct-Keeps :
      (fd : Option ℕ) (ctx : C) (w : World C)
      → IsCounted w
      → Fits (length w.registry) fd
      → suc (length w.objects) < size_mod
      → Keeps w (some (construct fd ctx w))
  unfolding construct
  construct-Keeps fd ctx w v f b =
      let object : Shared C = record { fd = fd; ctx = ctx } in
      (
        construct-IsCounted fd ctx w v f b,
        same-ClosesLost w (construct fd ctx w) refl (λ d.
            omega (arith, total-append (λ (o : Shared C). holding d o.fd) w.objects (object ∷ []))),
        length-construct fd ctx w v f b,
        omega (arith, length-append w.objects (object ∷ [])),
      )

  pub copy-Keeps :
      (other : ℕ) (w : World C)
      → IsCounted w
      → suc (length w.objects) < size_mod
      → Keeps w (copy other w)
  unfolding copy
  copy-Keeps other w v b = elim (Option-cases (get_elem? w.objects other)) [
    | inl n ↦ rw (n, copy) tt
    | inr (object, n) ↦
        rw (n, copy)
          (construct-Keeps object.fd object.ctx w v
            (Fits-at (length w.registry) w.objects other object v.fit n) b)
  ]

  -- Nothing changes when an object is assigned to itself.
  same-Keeps : (w : World C) → IsCounted w → Keeps w (some w)
  same-Keeps w v = (v, same-ClosesLost w w refl (λ d. omega arith), refl, omega arith)

  holding_at :
      (d : ℕ) (objects : List (Shared C)) (j : ℕ) (object : Shared C)
      → get_elem? objects j ≡ some object
      → holding d object.fd ≤ holders d objects
  holding_at d objects j object e =
      let t = vacant_set d objects j object object.fd e refl in omega arith

  reset-none : (i : ℕ) (w : World C) → get_elem? w.objects i ≡ none → reset i w ≡ none
  unfolding reset
  reset-none i w n = rw (n, reset) refl

  vacated :
      (i : ℕ) (vacant : Shared C) (w w' : World C)
      → Vacates i vacant w w'
      → get_elem? w.objects i ≡ some vacant
      → get_elem? w'.objects i ≡ some (record vacant { fd = none })
  vacated i vacant w w' x n =
      ap (λ (os : List (Shared C)). get_elem? os i) x.objects
      ∙ get_elem?-set_here w.objects i vacant (record vacant { fd = none }) n

  -- What follows `reset` in an assignment.
  then-Keeps :
      (w w' w'' : World C)
      → ClosesLost w w'
      → (length w'.registry ≡ length w.registry)
      → (length w'.objects ≡ length w.objects)
      → IsCounted w''
      → w''.closed ≡ w'.closed
      → (length w''.registry ≡ length w'.registry)
      → (length w''.objects ≡ length w'.objects)
      → ((d : ℕ) → holders d w'.objects ≤ holders d w''.objects)
      → ((d : ℕ) → holders d w''.objects ≤ holders d w'.objects + holders d w'.objects)
      → Keeps w (some w'')
  unfolding ClosesLost
  then-Keeps w w' w'' c r o v e s p low high = (
    v,
    (λ d. let k = c d in let l = low d in let h = high d in rw e (ground arith)),
    s ∙ r,
    omega arith,
  )

  take_copy-Keeps :
      (i other : ℕ) (vacant object : Shared C) (w w' : World C)
      → Vacates i vacant w w'
      → get_elem? w'.objects i ≡ some (record vacant { fd = none })
      → get_elem? w'.objects other ≡ some object
      → suc (length w.objects) < size_mod
      → Keeps w (some (copied i object object.fd w'))
  unfolding copied
  take_copy-Keeps i other vacant object w w' x e g b =
      let fit = Fits-at (length w'.registry) w'.objects other object x.counted.fit g in
      let l = ap length x.objects ∙ length-set w.objects i (record vacant { fd = none }) in
      let few : (d : ℕ) → suc (holders d w'.objects) < size_mod =
        λ d. omega (arith, l, holders-le d w'.objects) in
      let h = λ (d : ℕ).
        occupied_set d w'.objects i (record vacant { fd = none }) object object.fd e refl refl in
      then-Keeps w w' (copied i object object.fd w') x.closes x.slots l
        (copied-IsCounted i (record vacant { fd = none }) object w' object.fd x.counted e refl fit
          refl)
        refl
        (length-retain_fd object.fd w'.registry (λ d. holders d w'.objects) x.counted.counts fit
          few)
        (length-set w'.objects i object) (λ d. omega (arith, h d))
        (λ d. omega (arith, h d, holding_at d w'.objects other object g))

  take_move-Keeps :
      (i other : ℕ) (vacant object rest : Shared C) (w w' : World C)
      → Vacates i vacant w w'
      → i ≢ other
      → get_elem? w'.objects i ≡ some (record vacant { fd = none })
      → get_elem? w'.objects other ≡ some object
      → rest.fd ≡ none
      → Keeps w (some (moved i other object rest w'))
  unfolding moved
  take_move-Keeps i other vacant object rest w w' x n e g r =
      let l = ap length x.objects ∙ length-set w.objects i (record vacant { fd = none }) in
      let h = λ (d : ℕ).
        holders-moved d w' i other (record vacant { fd = none }) object rest n e refl g r in
      then-Keeps w w' (moved i other object rest w') x.closes x.slots l
        (moved-IsCounted w' i other (record vacant { fd = none }) object rest x.counted n e refl g
          r)
        refl refl (length-set (set w'.objects i object) other rest ∙ length-set w'.objects i object)
        (λ d. let k = h d in omega arith) (λ d. let k = h d in omega arith)

  pub copy_assign-Keeps :
      (i other : ℕ) (w : World C)
      → IsCounted w
      → suc (length w.objects) < size_mod
      → Keeps w (copy_assign i other w)
  unfolding copy_assign copied
  copy_assign-Keeps i other w v b = elim (Bool-cases (i == other)) [
    | inl t ↦ rw (t, copy_assign) (same-Keeps w v)
    | inr t ↦ elim (Option-cases (get_elem? w.objects i)) [
      | inl n ↦ rw (t, reset-none i w n, copy_assign) tt
      | inr (vacant, n) ↦
          let (w', x) = reset-Vacates i vacant w v n in
          let e = vacated i vacant w w' x n in
          elim (Option-cases (get_elem? w'.objects other)) [
            | inl g ↦ rw (t, x.done, copy_assign) (rw (g, take_copy) tt)
            | inr (object, g) ↦
                rw (t, x.done, copy_assign)
                  (rw (g, take_copy) (take_copy-Keeps i other vacant object w w' x e g b))
          ]
    ]
  ]

  pub move_assign-Keeps :
      (left : C → C) (i other : ℕ) (w : World C)
      → IsCounted w
      → Keeps w (move_assign left i other w)
  unfolding move_assign moved
  move_assign-Keeps left i other w v = elim (Bool-cases (i == other)) [
    | inl t ↦ rw (t, move_assign) (same-Keeps w v)
    | inr t ↦ elim (Option-cases (get_elem? w.objects i)) [
      | inl n ↦ rw (t, reset-none i w n, move_assign) tt
      | inr (vacant, n) ↦
          let (w', x) = reset-Vacates i vacant w v n in
          let e = vacated i vacant w w' x n in
          let ne : i ≢ other = λ q. ground arith in
          elim (Option-cases (get_elem? w'.objects other)) [
            | inl g ↦ rw (t, x.done, move_assign) (rw (g, take_move) tt)
            | inr (object, g) ↦
                rw (t, x.done, move_assign)
                  (rw (g, take_move)
                    (take_move-Keeps i other vacant object
                      (record { fd = none; ctx = left object.ctx }) w w' x ne e g refl))
          ]
    ]
  ]

  moved_sum :
      (d : ℕ) (objects : List (Shared C)) (other : ℕ) (object rest : Shared C)
      → get_elem? objects other ≡ some object
      → rest.fd ≡ none
      → holders d (set objects other rest ++ (object ∷ [])) ≡ holders d objects
  moved_sum d objects other object rest e r =
      let t = total-set (λ (o : Shared C). holding d o.fd) objects other object rest e in
      let u =
        total-append (λ (o : Shared C). holding d o.fd) (set objects other rest) (object ∷ []) in
      let z : holding d rest.fd ≡ 0 = ap (holding d) r in omega arith

  pub move-Keeps :
      (left : C → C) (other : ℕ) (w : World C)
      → IsCounted w
      → suc (length w.objects) < size_mod
      → Keeps w (move left other w)
  unfolding move
  move-Keeps left other w v b = elim (Option-cases (get_elem? w.objects other)) [
    | inl n ↦ rw (n, move) tt
    | inr (object, n) ↦
        let rest : Shared C = record { fd = none; ctx = left object.ctx } in
        let fit = Fits-at (length w.registry) w.objects other object v.fit n in
        let h = λ (d : ℕ). moved_sum d w.objects other object rest n refl in
        let l : length (set w.objects other rest ++ (object ∷ [])) ≡ suc (length w.objects) =
          omega (
            arith,
            length-append (set w.objects other rest) (object ∷ []),
            length-set w.objects other rest,
          ) in
        rw (n, move)
          (
            record {
              counts = Counts-cong w.registry _ _ (λ d. sym (h d)) v.counts;
              fit =
                  All-append _ (set w.objects other rest) (object ∷ [])
                    (Fits-set (length w.registry) w.objects other rest v.fit tt) (fit, tt);
              few = omega arith;
            },
            same-ClosesLost w _ refl (λ d. omega (arith, h d)),
            refl,
            omega arith,
          )
  ]
