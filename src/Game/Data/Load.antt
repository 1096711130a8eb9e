-- ===== src/Game/Data/Load.antt =====
-- game_data.c: `data_load_level`, the part that spawns the entities of a level.
use soa_fib.Base.{
  ℕ, zero, suc, ◌-◌, ◌≤◌, ◌<◌, ◌≡◌, refl, ap, sym, subst, ◌∙◌, Bool, true, ◌&&◌, ◌==◌, ltb, leb,
  arith, if◌then◌else◌, both, List, [], ◌∷◌, Option, none, some, ◌>>=◌, length,
}
use soa_fib.Base.Int.{ℤ, pos, ◌-ℤ◌, ltb_ℤ, leb_ℤ, pos_part}
use soa_fib.Game.Map.{Map, map_init}
use soa_fib.Game.Data.{
  EntitySpawn, TunnelDef, LevelData, levels, num_levels_defined, data_get_level, dig_tunnels,
  data_create_tunnels, data_place_bonuses,
}
use soa_fib.Game.Data.Tunnel.{data_dig_tunnel-Dug}
use soa_fib.Game.Logic.State.{Enemy, Rock, GameLogicState, World, max_enemies, max_rocks, max_score}
use soa_fib.Game.Logic.Setup.{
  logic_player_init, logic_enemy_init, logic_rock_init, clear_enemy, clear_rock,
}
use soa_fib.Game.Logic.Score.{alive}
use soa_fib.Game.Logic.Tally.{Counted, settled}
use soa_fib.Game.Logic.Tally.Update.{Balanced, all_alive}

-- entry i of a level's spawns
abbrev pub spawn_at : List EntitySpawn → ℕ → Option EntitySpawn
spawn_at [] i = none
spawn_at (p ∷ ps) zero = some p
spawn_at (p ∷ ps) (suc i) = spawn_at ps i

abbrev pub spawned_enemy : Option EntitySpawn → Enemy → Enemy
spawned_enemy none e = clear_enemy e
spawned_enemy (some p) e = logic_enemy_init (pos p.x) (pos p.y) p.kind e

abbrev pub spawned_rock : Option EntitySpawn → Rock → Rock
spawned_rock none r = clear_rock r
spawned_rock (some p) r = logic_rock_init (pos p.x) (pos p.y)

-- The two loops: each of the `max_enemies` entries is set up or cleared.
unfoldable pub data_spawn_enemies : LevelData → GameLogicState → GameLogicState
data_spawn_enemies level s = record s {
  enemies = λ i.
      if ltb i max_enemies
      then spawned_enemy (spawn_at level.enemies i) (s.enemies i)
      else s.enemies i;
}

unfoldable pub data_spawn_rocks : LevelData → GameLogicState → GameLogicState
data_spawn_rocks level s = record s {
  rocks =
      λ i. if ltb i max_rocks then spawned_rock (spawn_at level.rocks i) (s.rocks i) else s.rocks i;
}

-- an enemy of a round beyond the defined levels
abbrev pub hurry : ℕ → Enemy → Enemy
hurry bonus e =
    let limit = e.base.speed_limit -ℤ pos bonus in
    record e {
      base = record (e.base) { speed_limit = if ltb_ℤ limit (pos 2) then pos 2 else limit };
    }

unfoldable pub hurry_enemies : ℕ → GameLogicState → GameLogicState
hurry_enemies round s = record s {
  enemies = λ i.
      if ltb num_levels_defined round && ltb i s.enemy_count
      then hurry (round - num_levels_defined) (s.enemies i)
      else s.enemies i;
}

-- the counters, once the entities are there
unfoldable pub set_counters : ℕ → LevelData → GameLogicState → GameLogicState
set_counters round level s = record s {
  enemy_count = length level.enemies;
  enemies_remaining = pos (length level.enemies);
  rock_count = length level.rocks;
  round = round;
}

-- the state of a loaded level, its enemies as fast as the round asks for
unfoldable pub loaded : ℕ → LevelData → GameLogicState → GameLogicState
loaded round level s =
    let player = logic_player_init (pos level.player_start_x) (pos level.player_start_y) in
    hurry_enemies round (
      set_counters round level
        (data_spawn_rocks level (data_spawn_enemies level (record s { player = player }))))

unfoldable pub data_load_level : ℕ → World → Option World
data_load_level round w =
    let level = data_get_level (pos round) in
    data_create_tunnels level (map_init w.map) >>= λ m1.
    some (record { map = data_place_bonuses (pos round) m1; logic = loaded round level w.logic })

-- tunnels that stay on the map, and no more enemies than there are entries
in_range : List TunnelDef → Bool
in_range [] = true
in_range (t ∷ ts) = ltb t.x1 80 && ltb t.y1 24 && ltb t.x2 80 && ltb t.y2 24 && in_range ts

Fits : LevelData → Type 0
Fits level = (in_range level.tunnels ≡ true) × (leb (length level.enemies) max_enemies ≡ true)

levels-Fits : (i : ℕ) → Fits (levels i)
unfolding Fits in_range
levels-Fits i =
    both Fits (i == 0) (refl, refl)
      (both Fits (i == 1) (refl, refl)
        (both Fits (i == 2) (refl, refl) (both Fits (i == 3) (refl, refl) (refl, refl))))

get_level-Fits : (round : ℤ) → Fits (data_get_level round)
unfolding data_get_level
get_level-Fits round = both Fits (ltb_ℤ round (pos 1)) (levels-Fits 0) (
    levels-Fits (
      if leb_ℤ (pos num_levels_defined) (round -ℤ pos 1)
      then num_levels_defined - 1
      else pos_part (round -ℤ pos 1)))

tunnels-dug :
    (ts : List TunnelDef) (m : Map) → in_range ts ≡ true → (m' : Map) × (dig_tunnels ts m ≡ some m')
unfolding dig_tunnels in_range
tunnels-dug [] m h = (m, refl)
tunnels-dug (t ∷ ts) m h =
    let (m1, e, tiles) =
      data_dig_tunnel-Dug t.x1 t.y1 t.x2 t.y2 m (ground (arith, h)) (ground (arith, h))
        (ground (arith, h)) (ground (arith, h)) in
    let (m2, g) = tunnels-dug ts m1 (ground (arith, h)) in
    (m2, ap (λ o. o >>= λ z. dig_tunnels ts z) e ∙ g)

found :
    (ps : List EntitySpawn) (i : ℕ) → i < length ps → (p : EntitySpawn) × (spawn_at ps i ≡ some p)
found [] i h = absurd (omega arith)
found (p ∷ ps) zero h = (p, refl)
found (p ∷ ps) (suc i) h = found ps i (omega arith)

abbrev New : Enemy → Type 0
New e = (alive e ≡ true) × (settled e ≡ true)

spawned-New :
    (level : LevelData) (s : GameLogicState) (i : ℕ)
    → leb (length level.enemies) max_enemies ≡ true
    → i < length level.enemies
    → New ((data_spawn_enemies level s).enemies i)
unfolding data_spawn_enemies logic_enemy_init
spawned-New level s i fits h =
    let (p, e) = found level.enemies i h in
    rw (below i (length level.enemies) h fits, e) (refl, refl)
  where
    below : (i n : ℕ) → i < n → leb n 8 ≡ true → ltb i 8 ≡ true
    below i n a b = ground arith

hurry-New :
    (round i : ℕ) (s : GameLogicState) → New (s.enemies i) → New ((hurry_enemies round s).enemies i)
unfolding hurry_enemies
hurry-New round i s h = both New (ltb num_levels_defined round && ltb i s.enemy_count) h h

loaded-Counted :
    (round : ℕ) (level : LevelData) (s : GameLogicState)
    → leb (length level.enemies) max_enemies ≡ true
    → s.score ≤ max_score
    → Counted s.scene (length level.enemies) (loaded round level s)
unfolding loaded hurry_enemies set_counters data_spawn_rocks data_spawn_enemies
loaded-Counted round level s fits h =
    let n = length level.enemies in
    let player = logic_player_init (pos level.player_start_x) (pos level.player_start_y) in
    let s1 = data_spawn_enemies level (record s { player = player }) in
    let s2 = set_counters round level (data_spawn_rocks level s1) in
    let new : (i : ℕ) → i < n → New ((loaded round level s).enemies i) =
      λ i hi. hurry-New round i s2 (spawned-New level (record s { player = player }) i fits hi) in
    record {
      stage = refl;
      size = refl;
      bounded = h;
      remaining = ap pos (sym (all_alive n (loaded round level s).enemies (λ i hi. (new i hi).0)));
      quiet = λ i hi. (new i hi).1;
    }

-- For every round, loading its level succeeds, whatever the state and the map were; it leaves the
-- scene as it was and a world whose enemies are all alive and counted, if the score was within its
-- bound.
pub load_level-Balanced :
    (round : ℕ) (w : World)
    → w.logic.score ≤ max_score
    → (w' : World) × ((data_load_level round w ≡ some w')
        × (Balanced w' × (w'.logic.scene ≡ w.logic.scene)))
unfolding data_load_level data_create_tunnels Balanced Fits
load_level-Balanced round w h =
    let level = data_get_level (pos round) in
    let fits = get_level-Fits (pos round) in
    let (m1, e) = tunnels-dug level.tunnels (map_init w.map) fits.0 in
    let s = loaded round level w.logic in
    let c = loaded-Counted round level w.logic fits.1 h in
    (
      record { map = data_place_bonuses (pos round) m1; logic = s },
      (
        ap
            (λ (o : Option Map).
              o >>= λ m. some (record { map = data_place_bonuses (pos round) m; logic = s }))
            e,
        (
          subst (λ z. Counted z s.enemy_count s) (sym c.stage)
              (subst (λ k. Counted w.logic.scene k s) (sym c.size) c),
          c.stage,
        ),
      ),
    )
