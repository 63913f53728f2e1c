-- ===== src/Dungeon.antt =====
-- dungeon.c, the text adventure under document/laboratory/c/collection/dungeon. The globals `player`
-- and `rooms` are one record, with the numbers that `scanf` still has to read and with what the calls
-- of `rand` answer. An action is a function on this record; what it prints is left out. `none` is an
-- access outside of an array. An `int` that is only set to numbers from 0 and grows by them is a
-- natural number, far below its limit; the others are integers.
pub mod Rooms
pub mod Play
pub mod Valid
pub mod Safety
pub mod Turns
pub mod Fight
mod Tests
use text.Mathlib.Text.{◌==◌ as str_eq}
use Prim.Native.String.{String}
use knowledge_acquisition.Prelude.{
  ℕ, zero, suc, ◌+◌, ◌-◌, ◌*◌, ◌%◌, Bool, true, false, ◌||◌, Option, none, some, List, [], ◌∷◌,
  length, get_elem?, set, ltb, leb, ◌==◌, if◌then◌else◌, ℤ, pos, negsuc, ◌+ℤ◌, ◌-ℤ◌, leb_ℤ,
}

abbrev pub max_items : ℕ
max_items = 10

abbrev pub max_rooms : ℕ
max_rooms = 8

pub record Item : Type 0 where
  pub name : String
  pub description : String
  pub heal_amount : ℕ
  pub damage_bonus : ℕ
  pub value : ℕ

pub record Player : Type 0 where
  pub name : String
  pub hp : ℤ
  pub max_hp : ℕ
  pub attack : ℕ
  pub defense : ℕ
  pub gold : ℕ
  pub level : ℕ
  pub experience : ℕ
  pub inventory : List Item
  pub inventory_count : ℕ
  pub current_room : ℕ

-- `none` is the connection -1.
pub record Room : Type 0 where
  pub name : String
  pub description : String
  pub north : Option ℕ
  pub south : Option ℕ
  pub east : Option ℕ
  pub west : Option ℕ
  pub items : List Item
  pub item_count : ℕ
  pub enemy_hp : ℤ
  pub enemy_name : String
  pub enemy_attack : ℕ
  pub cleared : Bool

pub record Game : Type 0 where
  pub player : Player
  pub rooms : List Room
  pub input : List ℤ
  pub random : ℕ → ℕ
  pub drawn : ℕ

-- -1 is also the answer where `scanf` reads no number, and at the end of the input.
abbrev pub get_input : Game → ℤ × Game
get_input g = elim g.input [
  | [] ↦ (negsuc 0, g)
  | choice ∷ rest ↦ (choice, record g { input = rest })
]

abbrev pub rand : Game → ℕ × Game
rand g = (g.random g.drawn, record g { drawn = suc g.drawn })

abbrev pub exit_to : ℕ → Room → Option ℕ
exit_to direction room =
    if direction == 0
    then room.north
    else if direction == 1
    then room.south
    else if direction == 2
    then room.east
    else if direction == 3
    then room.west
    else none

unfoldable pub move_player : ℕ → Game → Option Game
move_player direction g = elim (get_elem? g.rooms g.player.current_room) [
  | none ↦ none
  | some room ↦ elim (exit_to direction room) [
    | none ↦ some g
    | some new_room ↦ elim (get_elem? g.rooms new_room) [
      | none ↦ none
      | some named ↦ some (record g { player = record g.player { current_room = new_room } })
    ]
  ]
]

-- `choice >= 1 && choice <= count`, and then the index `choice - 1`.
abbrev pub choice_index : ℤ → ℕ → Option ℕ
choice_index (pos zero) count = none
choice_index (pos (suc k)) count = if ltb k count then some k else none
choice_index (negsuc k) count = none

-- `for (i; i < i + n; i++) items[i] = items[i + 1];`
unfoldable pub shift_down : ℕ → ℕ → List Item → Option (List Item)
shift_down zero i items = some items
shift_down (suc n) i items = elim (get_elem? items (i + 1)) [
  | none ↦ none
  | some next ↦ shift_down n (i + 1) (set items i next)
]

-- The item goes into the inventory, and out again if it is gold.
abbrev pub keep : Item → Player → Player
keep item p =
    let taken = record p {
      inventory = set p.inventory p.inventory_count item;
      inventory_count = p.inventory_count + 1;
    } in
    if str_eq item.name "Gold Coins"
    then record taken { gold = p.gold + item.value; inventory_count = taken.inventory_count - 1 }
    else taken

unfoldable pub take_item : ℕ → Room → Game → Option Game
unfolding shift_down
take_item i room g = elim (get_elem? room.items i) [
  | none ↦ none
  | some item ↦
      if ltb g.player.inventory_count (length g.player.inventory)
      then elim (shift_down (room.item_count - 1 - i) i room.items) [
        | none ↦ none
        | some items ↦ some (record g {
          player = keep item g.player;
          rooms =
              set g.rooms g.player.current_room
                (record room { items = items; item_count = room.item_count - 1 });
        })
      ]
      else none
]

abbrev pub pick_choice : Room → ℤ × Game → Option Game
pick_choice room (choice, g) = elim (choice_index choice room.item_count) [
  | none ↦ some g
  | some i ↦ take_item i room g
]

unfoldable pub pickup_item : Game → Option Game
unfolding take_item
pickup_item g = elim (get_elem? g.rooms g.player.current_room) [
  | none ↦ none
  | some room ↦
      if room.item_count == 0
      then some g
      else if leb max_items g.player.inventory_count
      then some g
      else pick_choice room (get_input g)
]

abbrev pub heal : ℤ → Player → Player
heal hp p = record p { hp = if leb_ℤ hp (pos p.max_hp) then hp else pos p.max_hp }

-- What an item does when it is used.
abbrev pub apply_item : Item → Player → Player
apply_item item p =
    if ltb 0 item.heal_amount
    then heal (p.hp +ℤ pos item.heal_amount) p
    else if ltb 0 item.damage_bonus
    then record p { attack = p.attack + item.damage_bonus }
    else p

unfoldable pub use_at : ℕ → Game → Option Game
unfolding shift_down
use_at i g = elim (get_elem? g.player.inventory i) [
  | none ↦ none
  | some item ↦ elim (shift_down (g.player.inventory_count - 1 - i) i g.player.inventory) [
    | none ↦ none
    | some items ↦ some (record g {
      player = record (apply_item item g.player) {
        inventory = items;
        inventory_count = g.player.inventory_count - 1;
      };
    })
  ]
]

abbrev pub use_choice : ℤ × Game → Option Game
use_choice (choice, g) = elim (choice_index choice g.player.inventory_count) [
  | none ↦ some g
  | some i ↦ use_at i g
]

unfoldable pub use_item : Game → Option Game
unfolding use_at
use_item g = if g.player.inventory_count == 0 then some g else use_choice (get_input g)

abbrev pub level_up : Player → Player
level_up p =
    if leb (p.level * 50) p.experience
    then record p {
      level = p.level + 1;
      max_hp = p.max_hp + 20;
      hp = pos (p.max_hp + 20);
      attack = p.attack + 3;
      defense = p.defense + 2;
    }
    else p

-- The enemy has fallen.
abbrev pub defeat : Room → Game → Game
defeat room g =
    let (exp_draw, g') = rand g in
    let (gold_draw, g'') = rand g' in
    record g'' {
      rooms = set g.rooms g.player.current_room (record room { cleared = true });
      player = level_up (record g.player {
        experience = g.player.experience + (20 + exp_draw % 15);
        gold = g.player.gold + (10 + gold_draw % 20);
      });
    }

-- The enemy attacks back.
abbrev pub strike_back : Room → Game → Game
strike_back room g =
    let (draw, g') = rand g in
    let enemy_damage = pos (room.enemy_attack + draw % 4) -ℤ pos g.player.defense in
    record g' {
      rooms = set g.rooms g.player.current_room room;
      player = record g.player {
        hp = g.player.hp -ℤ (if leb_ℤ (pos 1) enemy_damage then enemy_damage else pos 1);
      };
    }

abbrev pub hit : Room → ℕ × Game → Game
hit room (draw, g) =
    let wounded = record room { enemy_hp = room.enemy_hp -ℤ pos (g.player.attack + draw % 5) } in
    if leb_ℤ wounded.enemy_hp (pos 0) then defeat wounded g else strike_back wounded g

unfoldable pub attack_enemy : Game → Option Game
attack_enemy g = elim (get_elem? g.rooms g.player.current_room) [
  | none ↦ none
  | some room ↦
      if room.cleared || leb_ℤ room.enemy_hp (pos 0) then some g else some (hit room (rand g))
]
