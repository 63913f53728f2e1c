-- ===== src/Dungeon/Rooms.antt =====
-- dungeon.c, `init_game` and `init_rooms`. The globals are zero before they are set.
use knowledge_acquisition.Prelude.{ℕ, none, some, true, false, List, [], ◌∷◌, replicate, ℤ, pos}
use knowledge_acquisition.Dungeon.{Item, Player, Room, Game, max_items}

abbrev pub no_item : Item
no_item = record { name = ""; description = ""; heal_amount = 0; damage_bonus = 0; value = 0 }

abbrev pub health_potion : Item
health_potion = record {
  name = "Health Potion";
  description = "Restore 30 HP";
  heal_amount = 30;
  damage_bonus = 0;
  value = 10;
}

abbrev pub iron_sword : Item
iron_sword = record {
  name = "Iron Sword";
  description = "A sturdy blade (+5 attack)";
  heal_amount = 0;
  damage_bonus = 5;
  value = 25;
}

abbrev pub gold_coins : Item
gold_coins = record {
  name = "Gold Coins";
  description = "A pile of shiny gold (+50 gold)";
  heal_amount = 0;
  damage_bonus = 0;
  value = 50;
}

-- A room before it is set.
abbrev pub zero_room : Room
zero_room = record {
  name = "";
  description = "";
  north = some 0;
  south = some 0;
  east = some 0;
  west = some 0;
  items = replicate max_items no_item;
  item_count = 0;
  enemy_hp = pos 0;
  enemy_name = "";
  enemy_attack = 0;
  cleared = false;
}

abbrev pub entrance_hall : Room
entrance_hall = record zero_room {
  name = "Entrance Hall";
  description =
      "You stand in a dimly lit stone hallway.Torches flicker on the walls, casting dancing shadows. The air is cold and damp.";
  north = some 1;
  south = none;
  east = some 2;
  west = none;
  cleared = true;
}

abbrev pub guard_room : Room
guard_room = record zero_room {
  name = "Guard Room";
  description =
      "A small chamber with broken furniture. A goblin guard snarls at you, clutching a rusty dagger!";
  north = none;
  south = some 0;
  east = some 3;
  west = none;
  enemy_name = "Goblin Guard";
  enemy_hp = pos 30;
  enemy_attack = 8;
}

abbrev pub storage_room : Room
storage_room = record zero_room {
  name = "Storage Room";
  description =
      "Dusty crates and barrels line the walls. You spot something shiny among the debris";
  north = some 3;
  south = none;
  east = none;
  west = some 0;
  items = iron_sword ∷ health_potion ∷ replicate 8 no_item;
  item_count = 2;
  cleared = true;
}

abbrev pub dark_corridor : Room
dark_corridor = record zero_room {
  name = "Dark Corridor";
  description =
      "A narrow passage stretches before you. Strange scratching sounds echo from the shadows";
  north = some 4;
  south = some 2;
  east = none;
  west = some 1;
  enemy_name = "Giant Rat";
  enemy_hp = pos 20;
  enemy_attack = 6;
}

abbrev pub treasure_chamber : Room
treasure_chamber = record zero_room {
  name = "Treasure Chamber";
  description =
      "Gold coins and jewels glitter in a stone chest! But a massive creature guards it too...";
  north = none;
  south = some 3;
  east = some 5;
  west = none;
  items = gold_coins ∷ replicate 9 no_item;
  item_count = 1;
  enemy_name = "Orc Warrior";
  enemy_hp = pos 50;
  enemy_attack = 12;
}

abbrev pub dragons_lair : Room
dragons_lair = record zero_room {
  name = "Dragon's Lair";
  description =
      "A massive cavern filled with treasure. A fearsome dragon awakens, smoke curling from its nostrils!";
  north = none;
  south = none;
  east = none;
  west = some 4;
  enemy_name = "Ancient Dragon";
  enemy_hp = pos 100;
  enemy_attack = 20;
}

abbrev pub init_rooms : List Room
init_rooms =
    entrance_hall ∷ guard_room ∷ storage_room ∷ dark_corridor ∷ treasure_chamber ∷ dragons_lair
    ∷ zero_room ∷ zero_room ∷ []

abbrev pub hero : Player
hero = record {
  name = "Hero";
  hp = pos 100;
  max_hp = 100;
  attack = 15;
  defense = 5;
  gold = 20;
  level = 1;
  experience = 0;
  inventory = health_potion ∷ replicate 9 no_item;
  inventory_count = 1;
  current_room = 0;
}

-- The game that starts, with the input and the random numbers that it will meet.
abbrev pub init_game : List ℤ → (ℕ → ℕ) → Game
init_game input random = record {
  player = hero;
  rooms = init_rooms;
  input = input;
  random = random;
  drawn = 0;
}
