-- ===== src/Game/Logic/Rocks.antt =====
-- game_logic.c: the rocks, which wobble, fall, crush what is below and blink away.
use soa_fib.Base.{
  ℕ, zero, suc, ◌+◌, Bool, true, false, not, ◌&&◌, ◌||◌, ◌==◌, if◌then◌else◌, update,
}
use soa_fib.Base.Int.{pos, ◌+ℤ◌, ◌-ℤ◌, leb_ℤ, eqb_ℤ}
use soa_fib.Game.Types.{Position}
use soa_fib.Game.Map.{Map, map_is_valid_position, map_is_solid}
use soa_fib.Game.Logic.State.{
  Enemy, Rock, RockState, rock_stable, rock_wobbling, rock_falling, rock_landed, rock_blinking,
  GameLogicState, World, rock_wobble_ticks, rock_blink_duration, rock_blink_count,
}
use soa_fib.Game.Logic.Score.{alive, kill_enemy, logic_player_die}
use soa_fib.Game.Logic.Path.{same_position}

abbrev pub below : Position → Position
below p = record p { y = p.y +ℤ pos 1 }

unfoldable pub logic_rock_check_fall : Rock → Map → Rock
logic_rock_check_fall r m =
    let p = below r.base.pos_of in
    if map_is_valid_position p.x p.y && not (map_is_solid p.x p.y m)
    then record r { state = rock_wobbling; wobble_timer = pos rock_wobble_ticks }
    else r

-- the player at one of the two places of the rock
unfoldable pub crush_player : Position → Bool × GameLogicState → Bool × GameLogicState
crush_player p (crushed, s) =
    if same_position s.player.base.pos_of p then (true, logic_player_die s) else (crushed, s)

abbrev pub under_rock : Position → Enemy → Bool
under_rock p e =
    alive e
    && eqb_ℤ e.base.pos_of.x p.x
    && (eqb_ℤ e.base.pos_of.y p.y || eqb_ℤ e.base.pos_of.y (p.y +ℤ pos 1))

-- the loop over the enemies from enemy i on
unfoldable pub crush_enemies : ℕ → ℕ → Position → Bool × GameLogicState → Bool × GameLogicState
crush_enemies zero i p r = r
crush_enemies (suc n) i p (crushed, s) =
    crush_enemies n (i + 1) p
      (if under_rock p (s.enemies i) then (true, kill_enemy i 2 s) else (crushed, s))

unfoldable pub logic_check_rock_crush : Rock → GameLogicState → Bool × (Rock × GameLogicState)
logic_check_rock_crush r s =
    let p = r.base.pos_of in
    let (crushed, s1) =
      crush_enemies s.enemy_count 0 p (crush_player (below p) (crush_player p (false, s))) in
    (crushed, ((if crushed then record r { has_crushed = 1 } else r), s1))

unfoldable pub logic_rock_fall : Rock → World → Rock × GameLogicState
logic_rock_fall r w =
    let p = below r.base.pos_of in
    let (r1, s1) = (logic_check_rock_crush r w.logic).1 in
    if not (map_is_valid_position p.x p.y) || map_is_solid p.x p.y w.map
    then (
      record r {
        state = rock_blinking;
        blink_count = pos rock_blink_count;
        blink_timer = pos rock_blink_duration;
      },
      w.logic,
    )
    else (record r1 { base = record (r1.base) { pos_of = p } }, s1)

unfoldable pub wobble_rock : Rock → Rock
wobble_rock r =
    let timer = r.wobble_timer -ℤ pos 1 in
    if leb_ℤ timer (pos 0)
    then record r { wobble_timer = timer; state = rock_falling }
    else record r { wobble_timer = timer }

abbrev pub remove_rock : Rock → Rock
remove_rock r = record r { base = record (r.base) { active = 0 } }

unfoldable pub blink_rock : Rock → Rock
blink_rock r =
    let timer = r.blink_timer -ℤ pos 1 in
    let count = r.blink_count -ℤ pos 1 in
    if not (leb_ℤ timer (pos 0))
    then record r { blink_timer = timer }
    else if leb_ℤ count (pos 0)
    then remove_rock (record r { blink_timer = timer; blink_count = count; state = rock_landed })
    else record r { blink_timer = pos rock_blink_duration; blink_count = count }

-- the switch of `logic_update_rocks`
unfoldable pub rock_turn : RockState → Rock → World → Rock × GameLogicState
rock_turn rock_stable r w = (logic_rock_check_fall r w.map, w.logic)
rock_turn rock_wobbling r w = (wobble_rock r, w.logic)
rock_turn rock_falling r w = logic_rock_fall r w
rock_turn rock_blinking r w = (blink_rock r, w.logic)
rock_turn rock_landed r w = (remove_rock r, w.logic)

abbrev pub put_rock : ℕ → Rock × GameLogicState → GameLogicState
put_rock i (r, s) = record s { rocks = update s.rocks i r }

unfoldable pub update_rock : ℕ → World → GameLogicState
update_rock i w =
    let r = w.logic.rocks i in
    if r.base.active == 0 then w.logic else put_rock i (rock_turn r.state r w)

-- the loop of `logic_update_rocks` from rock i on
unfoldable pub update_rocks_from : ℕ → ℕ → World → World
update_rocks_from zero i w = w
update_rocks_from (suc n) i w = update_rocks_from n (i + 1) (record w { logic = update_rock i w })

unfoldable pub logic_update_rocks : World → World
logic_update_rocks w = update_rocks_from w.logic.rock_count 0 w
