-- ===== src/Dungeon/Tests.antt =====
-- The theorems about the adventure at concrete states, and a play that ends with the victory.
use knowledge_acquisition.Prelude.{
  ◌*◌, ◌≡◌, refl, arith, Option, none, some, List, [], ◌∷◌, map, ℤ, pos, inr, ◌-ℤ◌,
}
use knowledge_acquisition.Dungeon.{Game, move_player, pickup_item, use_item, attack_enemy}
use knowledge_acquisition.Dungeon.Rooms.{init_game, hero, guard_room}
use knowledge_acquisition.Dungeon.Play.{Status, playing, victory, check_victory, play}
use knowledge_acquisition.Dungeon.Turns.{Leaves, play-init_game}
use knowledge_acquisition.Dungeon.Valid.{IsValid}
use knowledge_acquisition.Dungeon.Fight.{attacks, Weakened, attacks-Weakened, play-end_of_input}

-- What a player types: to the storage room, the sword, and on to the dragon.
abbrev winning : List ℤ
winning = map pos (3 ∷ 5 ∷ 1 ∷ 6 ∷ 2 ∷ 1 ∷ 8 ∷ 1 ∷ 8 ∷ 8 ∷ 8 ∷ 3 ∷ 8 ∷ 8 ∷ 8 ∷ 8 ∷ 8 ∷ [])

status : Option (Game × Status) → Option Status
status none = none
status (some o) = some o.1

play-winning : status (play 15 (init_game winning (λ n. 0))) ≡ some victory
unfolding status play move_player pickup_item use_item attack_enemy ◌-ℤ◌
play-winning = refl

play-init_game_example : Leaves (play 3 (init_game winning (λ n. n)))
play-init_game_example = play-init_game 3 winning (λ n. n)

play-end_of_input_example : play 7 (init_game [] (λ n. 0)) ≡ some (init_game [] (λ n. 0), playing)
unfolding check_victory
play-end_of_input_example = play-end_of_input 7 (init_game [] (λ n. 0)) refl refl refl

-- The hero stands before the goblin guard, with thirty points.
abbrev at_guard : Game
at_guard = record (init_game [] (λ n. 0)) { player = record hero { current_room = 1 } }

at_guard-IsValid : IsValid at_guard
at_guard-IsValid = ground arith

at_guard-Weakened : Weakened (15 * 2) at_guard
unfolding Weakened
at_guard-Weakened = (guard_room, refl, inr (omega arith))

attacks-Weakened_example : (g : Game) × (attacks 2 at_guard ≡ some g) × Weakened 0 g
attacks-Weakened_example = attacks-Weakened 2 at_guard at_guard-IsValid at_guard-Weakened
