-- ===== src/Dungeon/Valid.antt =====
-- The state of the adventure stays well formed, and no action leaves an array.
use knowledge_acquisition.Prelude.{
  ℕ, zero, suc, ◌+◌, ◌-◌, ◌*◌, ◌<◌, ◌≤◌, ◌≡◌, refl, ◌∙◌, arith, Option, none, some, List, [], ◌∷◌,
  length, length-set, get_elem?, set, All, Option-cases, inl, inr, lt→ltb, pos, ◌≤ℤ◌,
}
use knowledge_acquisition.Dungeon.{
  Item, Player, Room, Game, max_items, max_rooms, exit_to, move_player, shift_down, keep, take_item,
  apply_item, use_at, level_up,
}

-- A connection is -1 or a room.
abbrev pub IsExit : Option ℕ → Type 0
IsExit none = Unit {0}
IsExit (some room) = room < max_rooms

pub record IsRoom (r : Room) : Type 0 where
  pub north : IsExit r.north
  pub south : IsExit r.south
  pub east : IsExit r.east
  pub west : IsExit r.west
  pub slots : length r.items ≡ max_items
  pub held : r.item_count ≤ max_items

-- Health has its bound, and the strength of a player goes with the level.
pub record IsPlayer (p : Player) : Type 0 where
  pub slots : length p.inventory ≡ max_items
  pub held : p.inventory_count ≤ max_items
  pub here : p.current_room < max_rooms
  pub health : p.hp ≤ℤ pos p.max_hp
  pub stamina : p.max_hp ≡ 80 + 20 * p.level
  pub armour : p.defense ≡ 3 + 2 * p.level
  pub strength : 12 + 3 * p.level ≤ p.attack
  pub grown : 1 ≤ p.level

pub record IsValid (g : Game) : Type 0 where
  pub player : IsPlayer g.player
  pub all_rooms : length g.rooms ≡ max_rooms
  pub rooms : All IsRoom g.rooms

-- An action ends, in a well-formed state.
abbrev pub Ends : Option Game → Type 0
Ends none = ⊥
Ends (some g) = IsValid g

module _ {A : Type 0} where
  pub get_elem?-some : (xs : List A) (i : ℕ) → i < length xs → (x : A) × (get_elem? xs i ≡ some x)
  get_elem?-some [] i l = absurd (omega arith)
  get_elem?-some (x ∷ xs) zero l = (x, refl)
  get_elem?-some (x ∷ xs) (suc i) l = get_elem?-some xs i (omega arith)

  pub All-get_elem? :
      (P : A → Type 0) (xs : List A) (i : ℕ) (x : A) → All P xs → get_elem? xs i ≡ some x → P x
  All-get_elem? P [] i x a e = cc
  All-get_elem? P (y ∷ xs) zero x a e = let q : y ≡ x = ground (arith, e) in rw (← q) a.0
  All-get_elem? P (y ∷ xs) (suc i) x a e = All-get_elem? P xs i x a.1 e

  pub All-set : (P : A → Type 0) (xs : List A) (i : ℕ) (x : A) → All P xs → P x → All P (set xs i x)
  All-set P [] i x a h = tt
  All-set P (y ∷ xs) zero x a h = (h, a.1)
  All-set P (y ∷ xs) (suc i) x a h = (a.0, All-set P xs i x a.1 h)

-- The loop stays inside of the array.
pub shift_down-some :
    (n i : ℕ) (items : List Item)
    → i + n < length items
    → (shifted : List Item) × (shift_down n i items ≡ some shifted)
      × (length shifted ≡ length items)
unfolding shift_down
shift_down-some zero i items l = (items, refl, refl)
shift_down-some (suc n) i items l =
    let (next, e) = get_elem?-some items (i + 1) (omega arith) in
    let m = length-set items i next in
    let (shifted, s, k) = shift_down-some n (i + 1) (set items i next) (omega arith) in
    (shifted, rw (e, shift_down) s, omega arith)

keep-IsPlayer :
    (item : Item) (p : Player) → IsPlayer p → p.inventory_count < max_items → IsPlayer (keep item p)
keep-IsPlayer item p v l =
    let s = length-set p.inventory p.inventory_count item in ground (arith, v)

apply_item-IsPlayer : (item : Item) (p : Player) → IsPlayer p → IsPlayer (apply_item item p)
apply_item-IsPlayer item p v = ground arith

pub level_up-IsPlayer : (p : Player) → IsPlayer p → IsPlayer (level_up p)
level_up-IsPlayer p v = ground arith

moved-IsPlayer :
    (p : Player) (room : ℕ)
    → IsPlayer p
    → room < max_rooms
    → IsPlayer (record p { current_room = room })
moved-IsPlayer p room v l = ground arith

spent-IsPlayer :
    (p : Player) (items : List Item) (n : ℕ)
    → IsPlayer p
    → length items ≡ max_items
    → n ≤ max_items
    → IsPlayer (record p { inventory = items; inventory_count = n })
spent-IsPlayer p items n v e l = ground arith

emptied-IsRoom :
    (room : Room) (items : List Item) (n : ℕ)
    → IsRoom room
    → length items ≡ max_items
    → n ≤ max_items
    → IsRoom (record room { items = items; item_count = n })
emptied-IsRoom room items n v e l = ground arith

exit_to-IsExit : (direction : ℕ) (room : Room) → IsRoom room → IsExit (exit_to direction room)
exit_to-IsExit direction room v = ground arith

module _ (g : Game) (v : IsValid g) where
  pub room_here :
      (room : Room) × (get_elem? g.rooms g.player.current_room ≡ some room) × IsRoom room
  room_here =
      let vp = v.player in
      let (room, e) =
        get_elem?-some g.rooms g.player.current_room (omega (arith, v.all_rooms, vp.here)) in
      (room, e, All-get_elem? IsRoom g.rooms g.player.current_room room v.rooms e)

  pub move_player-Ends : (direction : ℕ) → Ends (move_player direction g)
  unfolding move_player
  move_player-Ends direction =
      let (room, e, r) = room_here in
      let x = exit_to-IsExit direction room r in
      elim (Option-cases (exit_to direction room)) [
        | inl n ↦ rw (e, n, move_player) v
        | inr (target, n) ↦
            let h : target < max_rooms = rw n at x in
            let (named, k) = get_elem?-some g.rooms target (omega (arith, v.all_rooms)) in
            rw (e, n, k, move_player)
              (record {
                player = moved-IsPlayer g.player target v.player h;
                all_rooms = v.all_rooms;
                rooms = v.rooms;
              })
      ]

  -- A change of the room where the player is, and of the player.
  pub here-IsValid :
      (h : Game) (room : Room)
      → IsRoom room
      → IsPlayer h.player
      → h.rooms ≡ set g.rooms g.player.current_room room
      → IsValid h
  here-IsValid h room r p e = record {
    player = p;
    all_rooms = rw e (length-set g.rooms g.player.current_room room ∙ v.all_rooms);
    rooms = rw e (All-set IsRoom g.rooms g.player.current_room room v.rooms r);
  }

  pub take_item-Ends :
      (i : ℕ) (room : Room)
      → IsRoom room
      → i < room.item_count
      → g.player.inventory_count < max_items
      → Ends (take_item i room g)
  unfolding take_item
  take_item-Ends i room r l free =
      let (item, e) = get_elem?-some room.items i (omega (arith, r.slots, r.held)) in
      let (items, s, k) =
        shift_down-some (room.item_count - 1 - i) i room.items (omega (arith, r.slots, r.held)) in
      let space =
        lt→ltb g.player.inventory_count (length g.player.inventory)
          (omega (arith, v.player.slots)) in
      rw (e, space, s, take_item)
        (here-IsValid _ (record room { items = items; item_count = room.item_count - 1 })
          (emptied-IsRoom room items (room.item_count - 1) r (k ∙ r.slots) (omega (arith, r.held)))
          (keep-IsPlayer item g.player v.player free) refl)

  pub use_at-Ends : (i : ℕ) → i < g.player.inventory_count → Ends (use_at i g)
  unfolding use_at
  use_at-Ends i l =
      let p = v.player in
      let (item, e) = get_elem?-some g.player.inventory i (omega (arith, p.slots, p.held)) in
      let (items, s, k) =
        shift_down-some (g.player.inventory_count - 1 - i) i g.player.inventory
          (omega (arith, p.slots, p.held)) in
      let used = apply_item-IsPlayer item g.player p in
      rw (e, s, use_at)
        (record {
          player =
              spent-IsPlayer _ items (g.player.inventory_count - 1) used (k ∙ p.slots)
                (omega (arith, p.held));
          all_rooms = v.all_rooms;
          rooms = v.rooms;
        })
