-- ===== src/Dungeon/Fight.antt =====
-- A fight ends, and a game without input does not.
use knowledge_acquisition.Prelude.{
  ℕ, zero, suc, ◌+◌, ◌*◌, ◌%◌, ◌≤◌, ◌≡◌, ◌⊎◌, refl, arith, true, false, ◌||◌, Option, none, some,
  List, [], ◌∷◌, get_elem?, set, Bool-cases, inl, inr, pos, negsuc, ◌-ℤ◌, ◌≤ℤ◌, leb_ℤ, -ℤ_parts,
}
use knowledge_acquisition.Dungeon.{
  Player, Room, Game, get_input, rand, level_up, defeat, strike_back, hit, attack_enemy,
}
use knowledge_acquisition.Dungeon.Play.{playing, dispatch, check_victory, finish, act, turn, play}
use knowledge_acquisition.Dungeon.Valid.{IsValid}
use knowledge_acquisition.Dungeon.Safety.{attack_enemy-Ends}

get_elem?-set_here :
    (xs : List Room) (i : ℕ) (x y : Room)
    → get_elem? xs i ≡ some x
    → get_elem? (set xs i y) i ≡ some y
get_elem?-set_here [] i x y e = cc
get_elem?-set_here (z ∷ xs) zero x y e = refl
get_elem?-set_here (z ∷ xs) (suc i) x y e = get_elem?-set_here xs i x y e

-- `attack_enemy` again and again.
unfoldable pub attacks : ℕ → Game → Option Game
unfolding attack_enemy
attacks zero g = some g
attacks (suc n) g = elim (attack_enemy g) [ none ↦ none | some g' ↦ attacks n g' ]

level_up-current_room : (p : Player) → (level_up p).current_room ≡ p.current_room
level_up-current_room p = ground arith

-- The enemy of the room where the player is has at most `bound` points left, or has fallen.
unfoldable pub Weakened : ℕ → Game → Type 0
Weakened bound g =
    (room : Room) × (get_elem? g.rooms g.player.current_room ≡ some room)
    × ((room.cleared ≡ true) ⊎ (room.enemy_hp ≤ℤ pos bound))

defeat-Weakened :
    (room old : Room) (bound : ℕ) (g : Game)
    → get_elem? g.rooms g.player.current_room ≡ some old
    → Weakened bound (defeat room g)
unfolding Weakened
defeat-Weakened room old bound g e = (
  record room { cleared = true },
  rw level_up-current_room
      (get_elem?-set_here g.rooms g.player.current_room old (record room { cleared = true }) e),
  inl refl,
)

strike_back-Weakened :
    (room old : Room) (bound : ℕ) (g : Game)
    → get_elem? g.rooms g.player.current_room ≡ some old
    → room.enemy_hp ≤ℤ pos bound
    → Weakened bound (strike_back room g)
unfolding Weakened
strike_back-Weakened room old bound g e l =
    (room, get_elem?-set_here g.rooms g.player.current_room old room e, inr l)

hit-Weakened :
    (room : Room) (draw bound : ℕ) (g : Game)
    → get_elem? g.rooms g.player.current_room ≡ some room
    → 15 ≤ g.player.attack
    → room.enemy_hp ≤ℤ pos (15 + bound)
    → Weakened bound (hit room (draw, g))
hit-Weakened room draw bound g e s l =
    let damage = g.player.attack + draw % 5 in
    let wounded = record room { enemy_hp = room.enemy_hp -ℤ pos damage } in
    elim (Bool-cases (leb_ℤ (room.enemy_hp -ℤ pos damage) (pos 0))) [
      | inl t ↦
          let h : hit room (draw, g) ≡ defeat wounded g = rw (t, hit) refl in
          rw h (defeat-Weakened wounded room bound g e)
      | inr t ↦
          let h : hit room (draw, g) ≡ strike_back wounded g = rw (t, hit) refl in
          rw h (
            strike_back-Weakened wounded room bound g e
              (omega (arith, l, s, -ℤ_parts room.enemy_hp (pos damage))))
    ]

beaten :
    (room : Room) (bound : ℕ)
    → (room.cleared || leb_ℤ room.enemy_hp (pos 0)) ≡ true
    → (room.cleared ≡ true) ⊎ (room.enemy_hp ≤ℤ pos bound)
beaten room bound t = elim (Bool-cases room.cleared) [ inl c ↦ inl c | inr c ↦ inr (ground arith) ]

standing :
    (room : Room) (bound : ℕ)
    → (room.cleared || leb_ℤ room.enemy_hp (pos 0)) ≡ false
    → ((room.cleared ≡ true) ⊎ (room.enemy_hp ≤ℤ pos bound))
    → room.enemy_hp ≤ℤ pos bound
standing room bound t (inl c) = ground arith
standing room bound t (inr l) = l

-- One attack takes at least fifteen points, or the enemy has fallen.
attack_step :
    (bound : ℕ) (g : Game)
    → IsValid g
    → Weakened (15 + bound) g
    → (g' : Game) × (attack_enemy g ≡ some g') × Weakened bound g'
unfolding attack_enemy Weakened
attack_step bound g v (room, e, w) =
    elim (Bool-cases (room.cleared || leb_ℤ room.enemy_hp (pos 0))) [
      | inl t ↦ (g, rw (e, t, attack_enemy) refl, (room, e, beaten room bound t))
      | inr t ↦
          let p = v.player in
          (
            hit room (rand g),
            rw (e, t, attack_enemy) refl,
            hit-Weakened room (rand g).0 bound (rand g).1 e (omega (arith, p.strength, p.grown))
                (standing room (15 + bound) t w),
          )
    ]

-- An enemy with at most fifteen points for each of `n` attacks has fallen after them, or has no
-- points left, whatever is drawn; the attacks never leave an array.
pub attacks-Weakened :
    (n : ℕ) (g : Game)
    → IsValid g
    → Weakened (15 * n) g
    → (g' : Game) × (attacks n g ≡ some g') × Weakened 0 g'
unfolding attacks
attacks-Weakened zero g v w = (g, refl, w)
attacks-Weakened (suc n) g v w =
    let e : 15 * suc n ≡ 15 + 15 * n = omega arith in
    let (h, a, x) = attack_step (15 * n) g v (rw e at w) in
    let (g', b, y) = attacks-Weakened n h (rw a at (attack_enemy-Ends g v)) x in
    (g', rw (a, attacks) b, y)

-- At the end of the input the loop goes on for ever: while the player lives and the dragon does, no
-- number of turns ends the game or changes it.
pub play-end_of_input :
    (turns : ℕ) (g : Game)
    → g.input ≡ []
    → leb_ℤ g.player.hp (pos 0) ≡ false
    → check_victory g ≡ some false
    → play turns g ≡ some (g, playing)
unfolding play turn dispatch finish
play-end_of_input zero g e l w = refl
play-end_of_input (suc turns) g e l w =
    let i : get_input g ≡ (negsuc 0, g) = ground arith in
    let t : turn g ≡ some (g, playing) = rw (i, w, l, turn, act, finish) refl in
    rw (t, play) (play-end_of_input turns g e l w)
