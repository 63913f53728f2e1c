-- ===== src/Dungeon/Safety.antt =====
-- From a well-formed state every turn ends in one, so that the adventure never leaves an array.
use knowledge_acquisition.Prelude.{
  ℕ, zero, suc, ◌+◌, ◌%◌, ◌<◌, ◌≡◌, refl, arith, true, some, Bool-cases, Option-cases, inl, inr,
  leb, ◌==◌, ℤ, pos, negsuc, ◌-ℤ◌, ◌≤ℤ◌, leb_ℤ, -ℤ_parts, ◌||◌,
}
use knowledge_acquisition.Dungeon.{
  Player, Room, Game, max_items, get_input, choice_index, pick_choice, pickup_item, use_choice,
  use_item, hit, attack_enemy, rand,
}
use knowledge_acquisition.Dungeon.Valid.{
  IsRoom, IsPlayer, IsValid, Ends, level_up-IsPlayer, room_here, here-IsValid, take_item-Ends,
  use_at-Ends,
}

choice_index-lt : (choice : ℤ) (count i : ℕ) → choice_index choice count ≡ some i → i < count
choice_index-lt (pos zero) count i e = cc
choice_index-lt (pos (suc k)) count i e = ground arith
choice_index-lt (negsuc k) count i e = cc

wounded-IsRoom : (room : Room) (hp : ℤ) → IsRoom room → IsRoom (record room { enemy_hp = hp })
wounded-IsRoom room hp v = ground arith

cleared-IsRoom : (room : Room) → IsRoom room → IsRoom (record room { cleared = true })
cleared-IsRoom room v = ground arith

rewarded-IsPlayer :
    (p : Player) (experience gold : ℕ)
    → IsPlayer p
    → IsPlayer (record p { experience = experience; gold = gold })
rewarded-IsPlayer p experience gold v = ground arith

struck-IsPlayer :
    (p : Player) (damage : ℤ)
    → IsPlayer p
    → pos 1 ≤ℤ damage
    → IsPlayer (record p { hp = p.hp -ℤ damage })
struck-IsPlayer p damage v l = let e = -ℤ_parts p.hp damage in ground arith

-- The other fields of the state play no part in its being well formed.
same-IsValid : (g h : Game) → IsValid g → h.player ≡ g.player → h.rooms ≡ g.rooms → IsValid h
same-IsValid g h v p r = record {
  player = rw p v.player;
  all_rooms = rw r v.all_rooms;
  rooms = rw r v.rooms;
}

get_input-player : (g : Game) → (get_input g).1.player ≡ g.player
get_input-player g = ground arith

get_input-rooms : (g : Game) → (get_input g).1.rooms ≡ g.rooms
get_input-rooms g = ground arith

pub get_input-IsValid : (g : Game) → IsValid g → IsValid (get_input g).1
get_input-IsValid g v = same-IsValid g (get_input g).1 v (get_input-player g) (get_input-rooms g)

pick_choice-Ends :
    (room : Room) (choice : ℤ) (g : Game)
    → IsValid g
    → IsRoom room
    → g.player.inventory_count < max_items
    → Ends (pick_choice room (choice, g))
pick_choice-Ends room choice g v r l = elim (Option-cases (choice_index choice room.item_count)) [
  | inl n ↦ rw (n, pick_choice) v
  | inr (i, n) ↦
      rw (n, pick_choice)
        (take_item-Ends g v i room r (choice_index-lt choice room.item_count i n) l)
]

pub pickup_item-Ends : (g : Game) → IsValid g → Ends (pickup_item g)
unfolding pickup_item
pickup_item-Ends g v =
    let (room, e, r) = room_here g v in
    elim (Bool-cases (room.item_count == 0)) [
      | inl t ↦ rw (e, t, pickup_item) v
      | inr t ↦ elim (Bool-cases (leb max_items g.player.inventory_count)) [
        | inl f ↦ rw (e, t, f, pickup_item) v
        | inr f ↦
            rw (e, t, f, pickup_item)
              (pick_choice-Ends room (get_input g).0 (get_input g).1 (get_input-IsValid g v) r
                (rw (get_input-player g) (ground arith)))
      ]
    ]

use_choice-Ends : (choice : ℤ) (g : Game) → IsValid g → Ends (use_choice (choice, g))
use_choice-Ends choice g v = elim (Option-cases (choice_index choice g.player.inventory_count)) [
  | inl n ↦ rw (n, use_choice) v
  | inr (i, n) ↦
      rw (n, use_choice) (use_at-Ends g v i (choice_index-lt choice g.player.inventory_count i n))
]

pub use_item-Ends : (g : Game) → IsValid g → Ends (use_item g)
unfolding use_item
use_item-Ends g v = elim (Bool-cases (g.player.inventory_count == 0)) [
  | inl t ↦ rw (t, use_item) v
  | inr t ↦
      rw (t, use_item) (use_choice-Ends (get_input g).0 (get_input g).1 (get_input-IsValid g v))
]

hit-IsValid :
    (room : Room) (draw : ℕ) (g : Game) → IsValid g → IsRoom room → IsValid (hit room (draw, g))
hit-IsValid room draw g v r =
    let wounded = record room { enemy_hp = room.enemy_hp -ℤ pos (g.player.attack + draw % 5) } in
    let w = wounded-IsRoom room (room.enemy_hp -ℤ pos (g.player.attack + draw % 5)) r in
    elim (Bool-cases (leb_ℤ wounded.enemy_hp (pos 0))) [
      | inl t ↦
          rw (t, hit)
            (here-IsValid g v _ (record wounded { cleared = true }) (cleared-IsRoom wounded w)
              (level_up-IsPlayer _ (rewarded-IsPlayer g.player _ _ v.player)) refl)
      | inr t ↦
          rw (t, hit)
            (here-IsValid g v _ wounded w (struck-IsPlayer g.player _ v.player (ground arith)) refl)
    ]

pub attack_enemy-Ends : (g : Game) → IsValid g → Ends (attack_enemy g)
unfolding attack_enemy
attack_enemy-Ends g v =
    let (room, e, r) = room_here g v in
    elim (Bool-cases (room.cleared || leb_ℤ room.enemy_hp (pos 0))) [
      | inl t ↦ rw (e, t, attack_enemy) v
      | inr t ↦
          rw (e, t, attack_enemy)
            (hit-IsValid room (rand g).0 (rand g).1 (same-IsValid g (rand g).1 v refl refl) r)
    ]
