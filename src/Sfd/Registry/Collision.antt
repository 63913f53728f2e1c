-- ===== src/Sfd/Registry/Collision.antt =====
-- Two descriptors with the same slot: the fast scan ends at the slot that the first one leaves, and
-- the second one is registered twice.
use native.Mathlib.Nat.{mod-lt}
use knowledge_acquisition.Prelude.{
  ℕ, zero, suc, ◌+◌, ◌%◌, ◌<◌, ◌≡◌, ◌≢◌, refl, sym, ◌∙◌, arith, Bool, true, false, some, List,
  length, get_elem?, set, ◌==◌, ==_refl, length-set, length-replicate,
}
use knowledge_acquisition.Sfd.Registry.Direct.{slot_of, get_elem?-set, get_elem?-replicate}
use knowledge_acquisition.Sfd.Registry.{
  unregistered, probe, Slot, empty_slot, new_registry, retain, release, scan, claim, release_loop,
}

-- `a` is used while `b` is opened, then `a` is closed, and `b` is copied and the copy is dropped.
abbrev pub reopened : ℕ → ℕ → List Slot → List Slot × Bool
reopened a b registry =
    let both = retain b (retain a registry) in
    let alone = (release a both).0 in release b (retain b alone)

module _ (fd idx : ℕ) (registry : List Slot) (own : probe 0 fd registry ≡ idx) where
  scan_first :
      (n : ℕ) → get_elem? registry idx ≡ some empty_slot → scan n 0 fd registry ≡ unregistered
  unfolding scan
  scan_first zero e = refl
  scan_first (suc n) e = rw (own, e, scan) refl

  claim_first :
      (n : ℕ)
      → 0 < n
      → get_elem? registry idx ≡ some empty_slot
      → claim n 0 fd registry ≡ set registry idx (slot_of fd 1)
  unfolding claim
  claim_first zero l e = absurd (omega arith)
  claim_first (suc n) l e = rw (own, e, claim) (rw own refl)

  retain_first :
      0 < length registry
      → get_elem? registry idx ≡ some empty_slot
      → retain fd registry ≡ set registry idx (slot_of fd 1)
  unfolding retain
  retain_first l e = rw (scan_first (length registry) e, retain) (claim_first (length registry) l e)

  release_first :
      (n : ℕ)
      → 0 < n
      → get_elem? registry idx ≡ some (slot_of fd 1)
      → release_loop n 0 fd registry ≡ (set registry idx empty_slot, true)
  unfolding release_loop
  release_first zero l e = absurd (omega arith)
  release_first (suc n) l e = rw (own, e, ==_refl fd, release_loop) (rw own refl)

  -- The slot is taken, and the next one is not.
  module _ (next other : ℕ) (after : probe 1 fd registry ≡ next) where
    scan_second :
        (n : ℕ)
        → get_elem? registry idx ≡ some (slot_of other 1)
        → (other == fd) ≡ false
        → get_elem? registry next ≡ some empty_slot
        → scan n 0 fd registry ≡ unregistered
    unfolding scan
    scan_second zero e q f = refl
    scan_second (suc zero) e q f = rw (own, e, q, scan) refl
    scan_second (suc (suc n)) e q f = rw (own, e, q, scan) (rw (after, f, scan) refl)

    claim_second :
        (n : ℕ)
        → 1 < n
        → get_elem? registry idx ≡ some (slot_of other 1)
        → (other == fd) ≡ false
        → get_elem? registry next ≡ some empty_slot
        → claim n 0 fd registry ≡ set registry next (slot_of fd 1)
    unfolding claim
    claim_second zero l e q f = absurd (omega arith)
    claim_second (suc zero) l e q f = absurd (omega arith)
    claim_second (suc (suc n)) l e q f =
        rw (own, e, q, claim) (rw (after, f, claim) (rw after refl))

    retain_second :
        1 < length registry
        → get_elem? registry idx ≡ some (slot_of other 1)
        → (other == fd) ≡ false
        → get_elem? registry next ≡ some empty_slot
        → retain fd registry ≡ set registry next (slot_of fd 1)
    unfolding retain
    retain_second l e q f =
        rw (scan_second (length registry) e q f, retain) (claim_second (length registry) l e q f)

    release_second :
        (n : ℕ)
        → 1 < n
        → get_elem? registry idx ≡ some empty_slot
        → get_elem? registry next ≡ some (slot_of fd 1)
        → release_loop n 0 fd registry ≡ (set registry next empty_slot, true)
    unfolding release_loop
    release_second zero l e f = absurd (omega arith)
    release_second (suc zero) l e f = absurd (omega arith)
    release_second (suc (suc n)) l e f =
        rw (own, e, release_loop) (rw (after, f, ==_refl fd, release_loop) (rw after refl))

probe_here :
    (fd n idx : ℕ) (registry : List Slot)
    → length registry ≡ n
    → fd % n ≡ idx
    → idx < n
    → probe 0 fd registry ≡ idx
probe_here fd n idx registry l e b = rw (l, e) (grind arith)

probe_next :
    (fd n idx : ℕ) (registry : List Slot)
    → length registry ≡ n
    → fd % n ≡ idx
    → probe 1 fd registry ≡ (idx + 1) % n
probe_next fd n idx registry l e = rw (l, e) refl

next_slot : (n idx : ℕ) → 1 < n → idx < n → (idx + 1) % n ≢ idx
next_slot n idx k l = grind arith

next_slot-lt : (n idx : ℕ) → 1 < n → (idx + 1) % n < n
next_slot-lt n idx k = let positive : zero < n = omega arith in mod-lt (idx + 1) positive

get_elem?-here :
    (registry : List Slot) (i : ℕ) (slot : Slot)
    → i < length registry
    → get_elem? (set registry i slot) i ≡ some slot
get_elem?-here registry i slot l = rw (==_refl i) at (get_elem?-set registry i i slot l)

get_elem?-elsewhere :
    (registry : List Slot) (i j : ℕ) (slot : Slot)
    → j < length registry
    → i ≢ j
    → get_elem? (set registry i slot) j ≡ get_elem? registry j
get_elem?-elsewhere registry i j slot l n =
    let e = get_elem?-set registry i j slot l in ground arith

-- The contents of the slot of the two descriptors and of the next one.
record Near (n idx : ℕ) (registry : List Slot) (here next : Slot) : Type 0 where
  slots : length registry ≡ n
  at_idx : get_elem? registry idx ≡ some here
  at_next : get_elem? registry ((idx + 1) % n) ≡ some next

module _ (n idx : ℕ) (two : 1 < n) (within : idx < n) where
  put_here :
      (registry : List Slot) (here next slot : Slot)
      → Near n idx registry here next
      → Near n idx (set registry idx slot) slot next
  put_here registry here next slot r = record {
    slots = length-set registry idx slot ∙ r.slots;
    at_idx = get_elem?-here registry idx slot (omega (arith, r.slots));
    at_next =
        get_elem?-elsewhere registry idx ((idx + 1) % n) slot
          (omega (arith, r.slots, next_slot-lt n idx two)) (λ e. next_slot n idx two within (sym e))
        ∙ r.at_next;
  }

  put_next :
      (registry : List Slot) (here next slot : Slot)
      → Near n idx registry here next
      → Near n idx (set registry ((idx + 1) % n) slot) here slot
  put_next registry here next slot r = record {
    slots = length-set registry ((idx + 1) % n) slot ∙ r.slots;
    at_idx =
        get_elem?-elsewhere registry ((idx + 1) % n) idx slot (omega (arith, r.slots))
          (next_slot n idx two within)
        ∙ r.at_idx;
    at_next =
        get_elem?-here registry ((idx + 1) % n) slot
          (omega (arith, r.slots, next_slot-lt n idx two));
  }

  module _ (fd : ℕ) (its : fd % n ≡ idx) (registry : List Slot) where
    retain_here :
        (next : Slot)
        → Near n idx registry empty_slot next
        → Near n idx (retain fd registry) (slot_of fd 1) next
    retain_here next r =
        let own = probe_here fd n idx registry r.slots its within in
        rw (retain_first fd idx registry own (omega (arith, r.slots)) r.at_idx)
          (put_here registry empty_slot next (slot_of fd 1) r)

    retain_next :
        (other : ℕ)
        → (other == fd) ≡ false
        → Near n idx registry (slot_of other 1) empty_slot
        → Near n idx (retain fd registry) (slot_of other 1) (slot_of fd 1)
    retain_next other q r =
        let own = probe_here fd n idx registry r.slots its within in
        let after = probe_next fd n idx registry r.slots its in
        rw
          (retain_second fd idx registry own ((idx + 1) % n) other after (omega (arith, r.slots))
            r.at_idx q r.at_next)
          (put_next registry (slot_of other 1) empty_slot (slot_of fd 1) r)

    release_here :
        (next : Slot)
        → Near n idx registry (slot_of fd 1) next
        → Near n idx (release fd registry).0 empty_slot next × ((release fd registry).1 ≡ true)
    unfolding release
    release_here next r =
        let own = probe_here fd n idx registry r.slots its within in
        rw
          (
            release_first fd idx registry own (length registry) (omega (arith, r.slots)) r.at_idx,
            release,
          )
          (put_here registry (slot_of fd 1) next empty_slot r, refl)

    release_next : Near n idx registry empty_slot (slot_of fd 1) → (release fd registry).1 ≡ true
    unfolding release
    release_next r =
        let own = probe_here fd n idx registry r.slots its within in
        let after = probe_next fd n idx registry r.slots its in
        rw
          (
            release_second fd idx registry own ((idx + 1) % n) 0 after (length registry)
                (omega (arith, r.slots)) r.at_idx r.at_next,
            release,
          )
          refl

-- On a new registry of more than one slot, with two different descriptors of the same slot index: `a`
-- is retained, then `b`; `a` is released; `b` is retained again and released twice. Then both releases
-- of `b` answer that it is to be closed, the first one too, when one reference of `b` is left.
pub release-reopened :
    (n a b : ℕ)
    → 1 < n
    → a % n ≡ b % n
    → a ≢ b
    → ((reopened a b (new_registry n)).1 ≡ true)
      × ((release b (reopened a b (new_registry n)).0).1 ≡ true)
release-reopened n a b two e ne =
    let idx = b % n in
    let positive : zero < n = omega arith in
    let within = mod-lt b positive in
    let q : (a == b) ≡ false = ground arith in
    let r0 : Near n idx (new_registry n) empty_slot empty_slot = record {
      slots = length-replicate n empty_slot;
      at_idx = get_elem?-replicate n idx empty_slot within;
      at_next = get_elem?-replicate n ((idx + 1) % n) empty_slot (next_slot-lt n idx two);
    } in
    let r1 = retain_here n idx two within a e (new_registry n) empty_slot r0 in
    let r2 = retain_next n idx two within b refl _ a q r1 in
    let r3 = release_here n idx two within a e _ (slot_of b 1) r2 in
    let r4 = retain_here n idx two within b refl _ (slot_of b 1) r3.0 in
    let r5 = release_here n idx two within b refl _ (slot_of b 1) r4 in
    (r5.1, release_next n idx two within b refl _ r5.0)
