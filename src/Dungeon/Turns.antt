-- ===== src/Dungeon/Turns.antt =====
-- Every turn, and every play from the start.
use knowledge_acquisition.Prelude.{
  ℕ, zero, suc, arith, Bool, true, false, ◌&&◌, Option, none, some, List, if◌then◌else◌, Bool-cases,
  inl, inr, ℤ, pos, negsuc, leb_ℤ,
}
use knowledge_acquisition.Dungeon.{
  Game, get_input, move_player, pickup_item, use_item, attack_enemy,
}
use knowledge_acquisition.Dungeon.Rooms.{init_game}
use knowledge_acquisition.Dungeon.Play.{
  Status, playing, quit, dead, victory, going_on, numbered, dispatch, check_victory, finish, turn,
  play,
}
use knowledge_acquisition.Dungeon.Valid.{IsValid, Ends, get_elem?-some, move_player-Ends}
use knowledge_acquisition.Dungeon.Safety.{
  get_input-IsValid, pickup_item-Ends, use_item-Ends, attack_enemy-Ends,
}

data Goes : Option (Game × Bool) → Type 0 where
  goes : (g : Game) (is_playing : Bool) → IsValid g → Goes (some (g, is_playing))

-- A turn, or a play, ends in a well-formed state.
abbrev pub Leaves : Option (Game × Status) → Type 0
Leaves none = ⊥
Leaves (some o) = IsValid o.0

going_on-Goes : (o : Option Game) → Ends o → Goes (going_on o)
going_on-Goes none e = elim e [ ]
going_on-Goes (some g) e = goes g true e

if-Goes :
    (test : Bool) (x y : Option (Game × Bool)) → Goes x → Goes y → Goes (if test then x else y)
if-Goes true x y hx hy = hx
if-Goes false x y hx hy = hy

numbered-Goes : (n : ℕ) (g : Game) → IsValid g → Goes (numbered n g)
numbered-Goes n g v =
    let moves = λ (d : ℕ). going_on-Goes (move_player d g) (move_player-Ends g v d) in
    if-Goes _ _ _ (moves 0) (
      if-Goes _ _ _ (moves 1) (
        if-Goes _ _ _ (moves 2) (
          if-Goes _ _ _ (moves 3) (
            if-Goes _ _ _ (going_on-Goes (pickup_item g) (pickup_item-Ends g v)) (
              if-Goes _ _ _ (going_on-Goes (use_item g) (use_item-Ends g v)) (
                if-Goes _ _ _ (goes g true v) (
                  if-Goes _ _ _ (going_on-Goes (attack_enemy g) (attack_enemy-Ends g v))
                    (if-Goes _ _ _ (goes g false v) (goes g true v)))))))))

dispatch-Goes : (choice : ℤ) (g : Game) → IsValid g → Goes (dispatch choice g)
unfolding dispatch
dispatch-Goes (pos n) g v = numbered-Goes n g v
dispatch-Goes (negsuc n) g v = goes g true v

finish-Leaves : (g : Game) (is_playing : Bool) → IsValid g → Leaves (finish (g, is_playing))
unfolding finish check_victory
finish-Leaves g is_playing v =
    let (lair, e) = get_elem?-some g.rooms 5 (omega (arith, v.all_rooms)) in
    elim (Bool-cases (lair.cleared && leb_ℤ lair.enemy_hp (pos 0))) [
      | inl t ↦ rw (e, t, check_victory, finish) v
      | inr t ↦ rw (e, t, check_victory, finish) v
    ]

finish_goes :
    (o : Option (Game × Bool)) → Goes o → Leaves (elim o [ none ↦ none | some x ↦ finish x ])
finish_goes _ (goes g is_playing v) = finish-Leaves g is_playing v

pub turn-Leaves : (g : Game) → IsValid g → Leaves (turn g)
unfolding turn
turn-Leaves g v =
    let (choice, h) = get_input g in
    finish_goes (dispatch choice h) (dispatch-Goes choice h (get_input-IsValid g v))

play_on :
    (turns : ℕ)
    → ((g : Game) → IsValid g → Leaves (play turns g))
    → (o : Option (Game × Status)) → Leaves o
    → Leaves (elim o [
      | none ↦ none
      | some (g, playing) ↦ play turns g
      | some (g, status) ↦ some (g, status)
    ])
play_on turns k none l = l
play_on turns k (some (g, playing)) l = k g l
play_on turns k (some (g, quit)) l = l
play_on turns k (some (g, dead)) l = l
play_on turns k (some (g, victory)) l = l

play-Leaves : (turns : ℕ) (g : Game) → IsValid g → Leaves (play turns g)
unfolding play
play-Leaves zero g v = v
play-Leaves (suc turns) g v = play_on turns (play-Leaves turns) (turn g) (turn-Leaves g v)

init_game-IsValid : (input : List ℤ) (random : ℕ → ℕ) → IsValid (init_game input random)
init_game-IsValid input random = ground arith

-- Whatever is typed and drawn, a play of any length from the start never leaves an array, and
-- afterwards the player is in one of the eight rooms with at most ten items, each room has at most
-- ten items, health is within its maximum, and maximum, attack and defense fit the level.
pub play-init_game :
    (turns : ℕ) (input : List ℤ) (random : ℕ → ℕ) → Leaves (play turns (init_game input random))
play-init_game turns input random =
    play-Leaves turns (init_game input random) (init_game-IsValid input random)
