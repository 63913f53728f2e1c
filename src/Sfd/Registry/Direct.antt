-- ===== src/Sfd/Registry/Direct.antt =====
-- Descriptors below the number of slots have a slot of their own.
use mathlib.Core.Option.{some-injective}
use knowledge_acquisition.Prelude.{
  ℕ, zero, suc, ◌+◌, ◌-◌, ◌%◌, ◌<◌, ◌≡◌, refl, ap, ◌∙◌, arith, false, none, some, List, [], ◌∷◌,
  length, length-set, get_elem?, set, replicate, length-replicate, leb, ltb, ◌&&◌, ◌==◌, ==_refl,
  if◌then◌else◌,
}
use knowledge_acquisition.Sfd.Registry.{
  Slot, empty_slot, size_mod, new_registry, probe, found, unregistered, scan, claim, retain,
  release_loop, release, get_count,
}

-- The slot of a descriptor that is held `count` times.
abbrev pub slot_of : ℕ → ℕ → Slot
slot_of fd zero = empty_slot
slot_of fd (suc count) = record { fd = some fd; count = suc count }

-- Every slot counts its own descriptor.
abbrev pub Counts : List Slot → (ℕ → ℕ) → Type 0
Counts registry live =
    (i : ℕ) → i < length registry → get_elem? registry i ≡ some (slot_of i (live i))

pub get_elem?-set {ℓ} :
    {A : Type ℓ} (xs : List A) (i j : ℕ) (v : A)
    → j < length xs
    → get_elem? (set xs i v) j ≡ (if i == j then some v else get_elem? xs j)
get_elem?-set [] i j v l = absurd (omega arith)
get_elem?-set (x ∷ xs) zero zero v l = refl
get_elem?-set (x ∷ xs) zero (suc j) v l = ground arith
get_elem?-set (x ∷ xs) (suc i) zero v l = ground arith
get_elem?-set (x ∷ xs) (suc i) (suc j) v l = ground (arith, get_elem?-set xs i j v)

-- One count changes.
abbrev pub changed : (ℕ → ℕ) → ℕ → ℕ → ℕ → ℕ
changed live fd count i = if fd == i then count else live i

Counts-set :
    (registry : List Slot) (live : ℕ → ℕ) (fd count : ℕ)
    → Counts registry live
    → Counts (set registry fd (slot_of fd count)) (changed live fd count)
Counts-set registry live fd count c i l =
    let k : i < length registry = omega (arith, length-set registry fd (slot_of fd count)) in
    let e = get_elem?-set registry fd i (slot_of fd count) k in let d = c i k in ground arith

first_probe : (fd : ℕ) (registry : List Slot) → fd < length registry → probe 0 fd registry ≡ fd
first_probe fd registry l = grind arith

-- The first of `n` rounds of each loop, at a descriptor's own slot.
module _ (fd : ℕ) (registry : List Slot) (own : probe 0 fd registry ≡ fd) where
  scan_held :
      (n count : ℕ)
      → 0 < n
      → get_elem? registry fd ≡ some (slot_of fd (suc count))
      → scan n 0 fd registry ≡ found fd (slot_of fd (suc count))
  unfolding scan
  scan_held zero count l e = absurd (omega arith)
  scan_held (suc n) count l e = rw (own, e, ==_refl fd, scan) (rw own refl)

  scan_free :
      (n : ℕ)
      → 0 < n
      → get_elem? registry fd ≡ some empty_slot
      → scan n 0 fd registry ≡ unregistered
  unfolding scan
  scan_free zero l e = absurd (omega arith)
  scan_free (suc n) l e = rw (own, e, scan) refl

  claim_free :
      (n : ℕ)
      → 0 < n
      → get_elem? registry fd ≡ some empty_slot
      → claim n 0 fd registry ≡ set registry fd (slot_of fd 1)
  unfolding claim
  claim_free zero l e = absurd (omega arith)
  claim_free (suc n) l e = rw (own, e, claim) (rw own refl)

  release_held :
      (n count : ℕ)
      → 0 < n
      → get_elem? registry fd ≡ some (slot_of fd (suc count))
      → suc count < size_mod
      → release_loop n 0 fd registry ≡ (set registry fd (slot_of fd count), count == 0)
  unfolding release_loop
  release_held zero count k e l = absurd (omega arith)
  release_held (suc n) zero k e l = rw (own, e, ==_refl fd, release_loop) (rw own refl)
  release_held (suc n) (suc count) k e l =
      let m : (suc (suc count) + size_mod - 1) % size_mod ≡ suc count = omega arith in
      let more : (suc (suc count) == 1) ≡ false = ground arith in
      let left : (suc count == 0) ≡ false = ground arith in
      rw (own, e, ==_refl fd, release_loop) (rw (own, m, more, left) refl)

-- `retain` as one write.
retain_lem :
    (registry : List Slot) (fd count : ℕ)
    → fd < length registry
    → get_elem? registry fd ≡ some (slot_of fd count)
    → suc count < size_mod
    → retain fd registry ≡ set registry fd (slot_of fd (suc count))
unfolding retain
retain_lem registry fd zero l e b =
    let own = first_probe fd registry l in
    let k : 0 < length registry = omega arith in
    rw (scan_free fd registry own (length registry) k e, retain)
      (claim_free fd registry own (length registry) k e)
retain_lem registry fd (suc count) l e b =
    let own = first_probe fd registry l in
    let k : 0 < length registry = omega arith in
    let m : (suc count + 1) % size_mod ≡ suc (suc count) = omega arith in
    rw (scan_held fd registry own (length registry) count k e, retain) (rw m refl)

pub retain-Counts :
    (registry : List Slot) (live : ℕ → ℕ) (fd : ℕ)
    → Counts registry live
    → fd < length registry
    → suc (live fd) < size_mod
    → Counts (retain fd registry) (changed live fd (suc (live fd)))
retain-Counts registry live fd c l b =
    rw (retain_lem registry fd (live fd) l (c fd l) b)
      (Counts-set registry live fd (suc (live fd)) c)

pub release-Counts :
    (registry : List Slot) (live : ℕ → ℕ) (fd count : ℕ)
    → Counts registry live
    → fd < length registry
    → live fd ≡ suc count
    → live fd < size_mod
    → Counts (release fd registry).0 (changed live fd count)
      × ((release fd registry).1 ≡ (count == 0))
unfolding release
release-Counts registry live fd count c l e b =
    let own = first_probe fd registry l in
    let k : 0 < length registry = omega arith in
    let h = c fd l ∙ ap (λ n. some (slot_of fd n)) e in
    let r = release_held fd registry own (length registry) count k h (omega arith) in
    rw (r, release) (Counts-set registry live fd count c, refl)

pub length-retain :
    (registry : List Slot) (live : ℕ → ℕ) (fd : ℕ)
    → Counts registry live
    → fd < length registry
    → suc (live fd) < size_mod
    → length (retain fd registry) ≡ length registry
length-retain registry live fd c l b =
    rw (retain_lem registry fd (live fd) l (c fd l) b)
      (length-set registry fd (slot_of fd (suc (live fd))))

pub length-release :
    (registry : List Slot) (live : ℕ → ℕ) (fd count : ℕ)
    → Counts registry live
    → fd < length registry
    → live fd ≡ suc count
    → live fd < size_mod
    → length (release fd registry).0 ≡ length registry
unfolding release
length-release registry live fd count c l e b =
    let own = first_probe fd registry l in
    let k : 0 < length registry = omega arith in
    let h = c fd l ∙ ap (λ n. some (slot_of fd n)) e in
    rw (release_held fd registry own (length registry) count k h (omega arith), release)
      (length-set registry fd (slot_of fd count))

pub get_elem?-replicate :
    (n i : ℕ) (slot : Slot) → i < n → get_elem? (replicate n slot) i ≡ some slot
get_elem?-replicate zero i slot l = absurd (omega arith)
get_elem?-replicate (suc n) zero slot l = refl
get_elem?-replicate (suc n) (suc i) slot l = get_elem?-replicate n i slot (omega arith)

pub new_registry-Counts : (n : ℕ) → Counts (new_registry n) (λ fd. 0)
new_registry-Counts n i l =
    get_elem?-replicate n i empty_slot (omega (arith, length-replicate n empty_slot))

get_count_step :
    (count k fd : ℕ) (registry : List Slot)
    → get_count (some fd) (slot_of k count ∷ registry)
      ≡ (if k == fd && ltb 0 count then count else get_count (some fd) registry)
unfolding get_count
get_count_step zero k fd registry = ground arith
get_count_step (suc count) k fd registry = ground arith

get_count_skip :
    (count k : ℕ) (registry : List Slot)
    → get_count none registry ≡ 0
    → get_count none (slot_of k count ∷ registry) ≡ 0
unfolding get_count
get_count_skip zero k registry e = refl
get_count_skip (suc count) k registry e = e

-- The scan of the whole table, which starts at descriptor `k`.
get_count_from :
    (registry : List Slot) (live : ℕ → ℕ) (k fd : ℕ)
    → ((i : ℕ) → i < length registry → get_elem? registry i ≡ some (slot_of (k + i) (live (k + i))))
    → get_count (some fd) registry
      ≡ (if leb k fd && ltb fd (k + length registry) then live fd else 0)
unfolding get_count
get_count_from [] live k fd c = ground arith
get_count_from (slot ∷ registry) live k fd c =
    let z : k + 0 ≡ k = omega arith in
    let h : slot ≡ slot_of k (live k) =
      rw z at (some-injective slot (slot_of (k + 0) (live (k + 0))) (c 0 (omega arith))) in
    let next : (i : ℕ) → suc k + i ≡ k + suc i = λ i. omega arith in
    let r =
      get_count_from registry live (suc k) fd (λ i l. rw (next i) (c (suc i) (omega arith))) in
    let s = get_count_step (live k) k fd registry in rw h (s ∙ ground arith)

get_count_vacant :
    (registry : List Slot) (live : ℕ → ℕ) (k : ℕ)
    → ((i : ℕ) → i < length registry → get_elem? registry i ≡ some (slot_of (k + i) (live (k + i))))
    → get_count none registry ≡ 0
unfolding get_count
get_count_vacant [] live k c = refl
get_count_vacant (slot ∷ registry) live k c =
    let z : k + 0 ≡ k = omega arith in
    let h : slot ≡ slot_of k (live k) =
      rw z at (some-injective slot (slot_of (k + 0) (live (k + 0))) (c 0 (omega arith))) in
    let next : (i : ℕ) → suc k + i ≡ k + suc i = λ i. omega arith in
    let r = get_count_vacant registry live (suc k) (λ i l. rw (next i) (c (suc i) (omega arith))) in
    rw h (get_count_skip (live k) k registry r)

pub get_count_lem :
    (registry : List Slot) (live : ℕ → ℕ) (fd : ℕ)
    → Counts registry live
    → fd < length registry
    → get_count (some fd) registry ≡ live fd
get_count_lem registry live fd c l =
    let z : (i : ℕ) → 0 + i ≡ i = λ i. omega arith in
    let r = get_count_from registry live 0 fd (λ i l. rw (z i) (c i l)) in ground arith

pub get_count-none :
    (registry : List Slot) (live : ℕ → ℕ) → Counts registry live → get_count none registry ≡ 0
get_count-none registry live c =
    let z : (i : ℕ) → 0 + i ≡ i = λ i. omega arith in
    get_count_vacant registry live 0 (λ i l. rw (z i) (c i l))
