-- ===== src/Sfd/Shared/Steps.antt =====
-- Every operation on the objects keeps the counts and closes what it has to.
use knowledge_acquisition.Prelude.{
  get_elem?-set_other, ℕ, suc, ◌+◌, ◌<◌, ◌≡◌, ◌≢◌, refl, sym, ap, ◌∙◌, arith, Option, none, some,
  List, length, length-set, get_elem?, set, total-set, ==_refl,
}
use knowledge_acquisition.Sfd.Registry.{size_mod, retain}
use knowledge_acquisition.Sfd.Registry.Direct.{changed, retain-Counts, length-retain}
use knowledge_acquisition.Sfd.Shared.{Shared, World, retain_fd}
use knowledge_acquisition.Sfd.Shared.Counting.{
  Counts-cong, holding, Fits, holders, holders-le, IsCounted, Fits-at, Fits-set,
}

module _ {ℓ} {C : Type ℓ} where
  -- An object takes the place of one that holds nothing.
  pub occupied_set :
      (d : ℕ) (objects : List (Shared C)) (i : ℕ) (vacant object : Shared C) (held : Option ℕ)
      → get_elem? objects i ≡ some vacant
      → vacant.fd ≡ none
      → object.fd ≡ held
      → holders d (set objects i object) ≡ holders d objects + holding d held
  occupied_set d objects i vacant object held e q h =
      let t = total-set (λ (o : Shared C). holding d o.fd) objects i vacant object e in
      rw (← h) (let u = rw q at t in omega arith)

  unfoldable pub copied : (i : ℕ) (object : Shared C) (held : Option ℕ) (w : World C) → World C
  copied i object held w = record w {
    registry = retain_fd held w.registry;
    objects = set w.objects i object;
  }

  pub copied-IsCounted :
      (i : ℕ) (vacant object : Shared C) (w : World C) (held : Option ℕ)
      → IsCounted w
      → get_elem? w.objects i ≡ some vacant
      → vacant.fd ≡ none
      → Fits (length w.registry) held
      → object.fd ≡ held
      → IsCounted (copied i object held w)
  unfolding copied
  copied-IsCounted i vacant object w none v e q f h = record {
    counts =
        Counts-cong w.registry _ _
          (λ d. omega (arith, occupied_set d w.objects i vacant object none e q h)) v.counts;
    fit = Fits-set (length w.registry) w.objects i object v.fit (rw h tt);
    few = omega (arith, v.few, length-set w.objects i object);
  }
  copied-IsCounted i vacant object w (some fd) v e q f h =
      let live = λ (d : ℕ). holders d w.objects in
      let more = rw (==_refl fd) at (occupied_set fd w.objects i vacant object (some fd) e q h) in
      let l : suc (live fd) < size_mod =
        omega
          (arith, v.few, holders-le fd (set w.objects i object), length-set w.objects i object) in
      let n = length-retain w.registry live fd v.counts f l in
      record {
        counts =
            Counts-cong (retain fd w.registry) (changed live fd (suc (live fd))) _
              (λ d. ground (arith, occupied_set d w.objects i vacant object (some fd) e q h))
              (retain-Counts w.registry live fd v.counts f l);
        fit = rw n (Fits-set (length w.registry) w.objects i object v.fit (rw h f));
        few = omega (arith, v.few, length-set w.objects i object);
      }

  -- The moved object takes the place of the vacant one, and leaves nothing.
  unfoldable pub moved : (i other : ℕ) (object rest : Shared C) (w : World C) → World C
  moved i other object rest w = record w { objects = set (set w.objects i object) other rest }

  pub holders-moved :
      (d : ℕ) (w : World C) (i other : ℕ) (vacant object rest : Shared C)
      → i ≢ other
      → get_elem? w.objects i ≡ some vacant
      → vacant.fd ≡ none
      → get_elem? w.objects other ≡ some object
      → rest.fd ≡ none
      → holders d (moved i other object rest w).objects ≡ holders d w.objects
  unfolding moved
  holders-moved d w i other vacant object rest n e q f r =
      let t = occupied_set d w.objects i vacant object object.fd e q refl in
      let g = get_elem?-set_other w.objects i other object n ∙ f in
      let u =
        total-set (λ (o : Shared C). holding d o.fd) (set w.objects i object) other object rest g in
      let z : holding d rest.fd ≡ 0 = ap (holding d) r in omega arith

  pub moved-IsCounted :
      (w : World C) (i other : ℕ) (vacant object rest : Shared C)
      → IsCounted w
      → i ≢ other
      → get_elem? w.objects i ≡ some vacant
      → vacant.fd ≡ none
      → get_elem? w.objects other ≡ some object
      → rest.fd ≡ none
      → IsCounted (moved i other object rest w)
  unfolding moved
  moved-IsCounted w i other vacant object rest v n e q f r =
      let fit = Fits-at (length w.registry) w.objects other object v.fit f in
      record {
        counts =
            Counts-cong w.registry _ _
              (λ d. sym (holders-moved d w i other vacant object rest n e q f r)) v.counts;
        fit =
            Fits-set (length w.registry) (set w.objects i object) other rest
              (Fits-set (length w.registry) w.objects i object v.fit fit) (rw r tt);
        few = omega (
          arith,
          v.few,
          length-set w.objects i object,
          length-set (set w.objects i object) other rest,
        );
      }
