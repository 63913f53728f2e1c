-- ===== src/Dungeon/Play.antt =====
-- dungeon.c, the loop of `main`.
use knowledge_acquisition.Prelude.{
  ℕ, zero, suc, Bool, true, false, ◌&&◌, Option, none, some, get_elem?, ◌==◌, if◌then◌else◌, ℤ, pos,
  negsuc, leb_ℤ,
}
use knowledge_acquisition.Dungeon.{
  Game, get_input, move_player, pickup_item, use_item, attack_enemy,
}

-- How a turn ends: `playing` goes on; `victory` is `exit(0)`.
pub data Status : Type 0 where
  playing quit dead victory : Status

abbrev pub going_on : Option Game → Option (Game × Bool)
going_on none = none
going_on (some g) = some (g, true)

-- The cases 1 to 9 of the switch; the inventory is only shown.
abbrev pub numbered : ℕ → Game → Option (Game × Bool)
numbered n g =
    if n == 1
    then going_on (move_player 0 g)
    else if n == 2
    then going_on (move_player 1 g)
    else if n == 3
    then going_on (move_player 2 g)
    else if n == 4
    then going_on (move_player 3 g)
    else if n == 5
    then going_on (pickup_item g)
    else if n == 6
    then going_on (use_item g)
    else if n == 7
    then some (g, true)
    else if n == 8
    then going_on (attack_enemy g)
    else if n == 9
    then some (g, false)
    else some (g, true)

-- The switch, with `is_playing`.
unfoldable pub dispatch : ℤ → Game → Option (Game × Bool)
dispatch (pos n) g = numbered n g
dispatch (negsuc n) g = some (g, true)

unfoldable pub check_victory : Game → Option Bool
check_victory g = elim (get_elem? g.rooms 5) [
  | none ↦ none
  | some lair ↦ some (lair.cleared && leb_ℤ lair.enemy_hp (pos 0))
]

-- The end of a turn.
unfoldable pub finish : Game × Bool → Option (Game × Status)
unfolding check_victory
finish (g, is_playing) = elim (check_victory g) [
  | none ↦ none
  | some true ↦ some (g, victory)
  | some false ↦
      some (g, if leb_ℤ g.player.hp (pos 0) then dead else if is_playing then playing else quit)
]

abbrev pub act : ℤ × Game → Option (Game × Status)
act (choice, g) = elim (dispatch choice g) [ none ↦ none | some o ↦ finish o ]

unfoldable pub turn : Game → Option (Game × Status)
unfolding dispatch finish
turn g = act (get_input g)

-- At most `turns` rounds of the loop.
unfoldable pub play : ℕ → Game → Option (Game × Status)
unfolding turn
play zero g = some (g, playing)
play (suc turns) g = elim (turn g) [
  | none ↦ none
  | some (g', playing) ↦ play turns g'
  | some (g', status) ↦ some (g', status)
]
