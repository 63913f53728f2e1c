-- ===== src/Sfd/Shared/Closing.antt =====
-- Which operation closes which descriptor.
use knowledge_acquisition.Prelude.{
  ℕ, zero, suc, ◌+◌, ◌≤◌, ◌≡◌, inl, inr, refl, sym, ap, arith, Option, none, some, List, [], ◌∷◌,
  length, get_elem?, set, total, ◌==◌, Bool-cases, ltb, ◌&&◌, if◌then◌else◌,
}
use knowledge_acquisition.Sfd.Shared.{Shared, World, reset}
use knowledge_acquisition.Sfd.Shared.Counting.{holders, IsCounted, vacant_set, reset_lem}

-- 1 if the last holder goes.
abbrev pub lost : ℕ → ℕ → ℕ
lost before after = if ltb 0 before && (after == 0) then 1 else 0

module _ {ℓ} {C : Type ℓ} where
  -- How often a descriptor was closed.
  abbrev pub closings : ℕ → List (ℕ × C) → ℕ
  closings fd closed = total (λ entry. if entry.0 == fd then 1 else 0) closed

  -- A descriptor is closed exactly when its last holder goes, and once.
  unfoldable pub ClosesLost : World C → World C → Type 0
  ClosesLost w w' =
      (fd : ℕ)
      → closings fd w'.closed
        ≡ closings fd w.closed + lost (holders fd w.objects) (holders fd w'.objects)

  pub same-ClosesLost :
      (w w' : World C)
      → w'.closed ≡ w.closed
      → ((fd : ℕ) → holders fd w.objects ≤ holders fd w'.objects)
      → ClosesLost w w'
  unfolding ClosesLost
  same-ClosesLost w w' e h fd = let k = h fd in rw e (ground arith)

  -- What `reset` makes of a world.
  pub record Vacates (i : ℕ) (object : Shared C) (w w' : World C) : Type ℓ where
    pub done : reset i w ≡ some w'
    pub counted : IsCounted w'
    pub objects : w'.objects ≡ set w.objects i (record object { fd = none })
    pub slots : length w'.registry ≡ length w.registry
    pub closes : ClosesLost w w'

  set_same :
      (objects : List (Shared C)) (i : ℕ) (object : Shared C)
      → get_elem? objects i ≡ some object
      → object.fd ≡ none
      → set objects i (record object { fd = none }) ≡ objects
  set_same [] i object e q = refl
  set_same (o ∷ objects) zero object e q = ground (arith, e, q)
  set_same (o ∷ objects) (suc i) object e q = ap (◌∷◌ o) (set_same objects i object e q)

  close_once :
      (d fd : ℕ) (ctx : C) (closed : List (ℕ × C)) (before after own : ℕ)
      → after + (if fd == d then 1 else 0) ≡ before
      → (fd ≡ d → own ≡ after)
      → closings d (if own == 0 then (fd, ctx) ∷ closed else closed)
        ≡ closings d closed + lost before after
  close_once d fd ctx closed before after own e h = elim (Bool-cases (own == 0)) [
    | inl t ↦ rw t (ground (arith, h))
    | inr t ↦ rw t (ground (arith, h))
  ]

  Vacates-by :
      (i : ℕ) (object : Shared C) (w : World C) (held : Option ℕ)
      → IsCounted w
      → get_elem? w.objects i ≡ some object
      → object.fd ≡ held
      → (w' : World C) × Vacates i object w w'
  unfolding reset ClosesLost
  Vacates-by i object w none v e q = (
    w,
    record {
      done = rw (e, q, reset) refl;
      counted = v;
      objects = sym (set_same w.objects i object e q);
      slots = refl;
      closes = same-ClosesLost w w refl (λ fd. omega arith);
    },
  )
  Vacates-by i object w (some fd) v e q =
      let (w', r, c, o, n, x) = reset_lem i fd object w v e q in
      (
        w',
        record {
          done = r;
          counted = c;
          objects = o;
          slots = n;
          closes = λ d.
              let t = rw (← o) at (vacant_set d w.objects i object (some fd) e q) in
              rw x (
                close_once d fd object.ctx w.closed (holders d w.objects) (holders d w'.objects)
                  (holders fd w'.objects) t (λ k. ap (λ (f : ℕ). holders f w'.objects) k));
        },
      )

  -- `reset` of any object.
  pub reset-Vacates :
      (i : ℕ) (object : Shared C) (w : World C)
      → IsCounted w
      → get_elem? w.objects i ≡ some object
      → (w' : World C) × Vacates i object w w'
  reset-Vacates i object w v e = Vacates-by i object w object.fd v e refl
