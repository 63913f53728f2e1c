-- ===== src/Sfd/Shared/Counting.antt =====
-- The registry counts the objects, and a descriptor is closed with its last object.
use knowledge_acquisition.Prelude.{
  ℕ, zero, suc, ◌+◌, ◌<◌, ◌≤◌, ◌≡◌, refl, ap, ◌∙◌, arith, Option, none, some, List, [], ◌∷◌, length,
  length-set, length-append, get_elem?, set, All, All-append, total, total-append, total-set,
  total-le, ◌==◌, ==_refl, if◌then◌else◌,
}
use knowledge_acquisition.Sfd.Registry.{Slot, size_mod, retain, release}
use knowledge_acquisition.Sfd.Registry.Direct.{
  Counts, slot_of, changed, retain-Counts, release-Counts, length-retain, length-release,
}
use knowledge_acquisition.Sfd.Shared.{Shared, World, construct, reset_fd, reset}

pub Counts-cong :
    (registry : List Slot) (live live' : ℕ → ℕ)
    → ((fd : ℕ) → live fd ≡ live' fd)
    → Counts registry live
    → Counts registry live'
Counts-cong registry live live' h c i l = c i l ∙ ap (λ n. some (slot_of i n)) (h i)

abbrev pub holding : ℕ → Option ℕ → ℕ
holding fd none = 0
holding fd (some other) = if other == fd then 1 else 0

pub holding-le : (fd : ℕ) (held : Option ℕ) → holding fd held ≤ 1
holding-le fd none = omega arith
holding-le fd (some other) = ground arith

-- The descriptor has a slot of its own.
abbrev pub Fits : ℕ → Option ℕ → Type 0
Fits n none = Unit {0}
Fits n (some fd) = fd < n

module _ {ℓ} {C : Type ℓ} where
  -- How many objects hold a descriptor.
  abbrev pub holders : ℕ → List (Shared C) → ℕ
  holders fd objects = total (λ object. holding fd object.fd) objects

  pub holders-le : (fd : ℕ) (objects : List (Shared C)) → holders fd objects ≤ length objects
  holders-le fd objects = total-le _ objects (λ object. holding-le fd object.fd)

  pub record IsCounted (w : World C) : Type ℓ where
    pub counts : Counts w.registry (λ fd. holders fd w.objects)
    pub fit : All (λ object. Fits (length w.registry) object.fd) w.objects
    pub few : length w.objects < size_mod

  pub construct-IsCounted :
      (fd : Option ℕ) (ctx : C) (w : World C)
      → IsCounted w
      → Fits (length w.registry) fd
      → suc (length w.objects) < size_mod
      → IsCounted (construct fd ctx w)
  unfolding construct
  construct-IsCounted none ctx w v f b =
      let object : Shared C = record { fd = none; ctx = ctx } in
      record {
        counts =
            Counts-cong w.registry _ _
              (λ fd.
                omega
                  (arith, total-append (λ (o : Shared C). holding fd o.fd) w.objects (object ∷ [])))
              v.counts;
        fit = All-append _ w.objects (object ∷ []) v.fit (tt, tt);
        few = omega (arith, length-append w.objects (object ∷ []));
      }
  construct-IsCounted (some fd) ctx w v f b =
      let object : Shared C = record { fd = some fd; ctx = ctx } in
      let live = λ (d : ℕ). holders d w.objects in
      let l : suc (live fd) < size_mod = omega (arith, holders-le fd w.objects) in
      let e = length-retain w.registry live fd v.counts f l in
      record {
        counts =
            Counts-cong (retain fd w.registry) (changed live fd (suc (live fd))) _
              (λ d.
                let t = total-append (λ (o : Shared C). holding d o.fd) w.objects (object ∷ []) in
                ground arith)
              (retain-Counts w.registry live fd v.counts f l);
        fit = rw e (All-append _ w.objects (object ∷ []) v.fit (f, tt));
        few = omega (arith, length-append w.objects (object ∷ []));
      }

  pub Fits-at :
      (n : ℕ) (objects : List (Shared C)) (i : ℕ) (object : Shared C)
      → All (λ o. Fits n o.fd) objects
      → get_elem? objects i ≡ some object
      → Fits n object.fd
  Fits-at n [] i object a e = cc
  Fits-at n (o ∷ objects) zero object a e = let q : o ≡ object = ground (arith, e) in rw (← q) a.0
  Fits-at n (o ∷ objects) (suc i) object a e = Fits-at n objects i object a.1 e

  pub Fits-set :
      (n : ℕ) (objects : List (Shared C)) (i : ℕ) (object : Shared C)
      → All (λ o. Fits n o.fd) objects
      → Fits n object.fd
      → All (λ o. Fits n o.fd) (set objects i object)
  Fits-set n [] i object a f = tt
  Fits-set n (o ∷ objects) zero object a f = (f, a.1)
  Fits-set n (o ∷ objects) (suc i) object a f = (a.0, Fits-set n objects i object a.1 f)

  -- An object that holds nothing takes the place of one that holds nothing.
  pub vacant_set :
      (d : ℕ) (objects : List (Shared C)) (i : ℕ) (object : Shared C) (held : Option ℕ)
      → get_elem? objects i ≡ some object
      → object.fd ≡ held
      → holders d (set objects i (record object { fd = none })) + holding d held ≡ holders d objects
  vacant_set d objects i object held e q =
      let t =
        total-set (λ (o : Shared C). holding d o.fd) objects i object (record object { fd = none })
          e in
      rw (← q) (omega arith)

  -- What `reset` does to the objects, and when it closes.
  pub reset_lem :
      (i fd : ℕ) (object : Shared C) (w : World C)
      → IsCounted w
      → get_elem? w.objects i ≡ some object
      → object.fd ≡ some fd
      → (w' : World C) × (reset i w ≡ some w')
        × IsCounted w'
        × (w'.objects ≡ set w.objects i (record object { fd = none }))
        × (length w'.registry ≡ length w.registry)
        × (w'.closed
            ≡ (if holders fd w'.objects == 0 then (fd, object.ctx) ∷ w.closed else w.closed))
  unfolding reset
  reset_lem i fd object w v e q =
      let live = λ (d : ℕ). holders d w.objects in
      let objects = set w.objects i (record object { fd = none }) in
      let count = holders fd objects in
      let t = vacant_set fd w.objects i object (some fd) e q in
      let one : count + 1 ≡ live fd = rw (==_refl fd) at t in
      let c : live fd ≡ suc count = omega arith in
      let f : fd < length w.registry =
        rw q at (Fits-at (length w.registry) w.objects i object v.fit e) in
      let b : live fd < size_mod = omega (arith, holders-le fd w.objects, v.few) in
      let (r, last) = release-Counts w.registry live fd count v.counts f c b in
      let n = length-release w.registry live fd count v.counts f c b in
      (
        reset_fd i object (some fd) w,
        rw (e, q, reset) refl,
        record {
          counts =
              Counts-cong (release fd w.registry).0 (changed live fd count) _
                (λ d. ground (arith, vacant_set d w.objects i object (some fd) e q)) r;
          fit =
              rw n
                (Fits-set (length w.registry) w.objects i (record object { fd = none }) v.fit tt);
          few = omega (arith, v.few, length-set w.objects i (record object { fd = none }));
        },
        refl,
        n,
        rw last refl,
      )
