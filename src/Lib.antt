-- ===== src/Lib.antt =====
-- ZeOS, the teaching kernel of project/, and the Dig Dug game that runs on it.
--
-- The kernel keeps its tasks in a table and links them into queues by intrusive doubly linked
-- lists. The clock calls `scheduler`, a round robin; system calls block, unblock and create tasks;
-- mm.c hands out physical frames and writes page tables; kernel_helpers.c places the user stacks of
-- threads; keyboard.c runs a user handler in the middle of a task. The game reads the keyboard
-- through that handler and keeps a map of tiles, entities and level data; the rules update the player, the
-- enemies and the rocks once in a tick.
--
-- Which file models which part:
--   ListHead     project/list.c and include/list.h: `Links` holds the two pointer fields of every
--                node; `none` is a read or write through NULL. ListHead/Queues is the abstract
--                specification, Chain, Rep and Walk the refinement.
--   Kernel       include/sched.h, include/types.h: tasks, page table entries and the globals.
--   Sched        project/sched.c: the round robin and thread identifiers. Sound is the invariant of
--                the queues, Next, Wake, Turn and Round the parts of a round, Tids the identifiers,
--                Init the queues at boot.
--   Mm           project/mm.c: the byte map of frames, user pages, page table entries.
--   Stack        project/kernel_helpers.c: stack regions, growth on a page fault, release.
--   Utils        project/utils.c: user address checks, number formatting, copies.
--   Keyboard     project/keyboard.c: the interrupt, its auxiliary stack, and the resume.
--   Sys          project/sys.c: the calls on identity, blocking and the keyboard; Sys/Threads is
--                `sys_create_thread`, Sys/Exit `sys_exit` and `sys_exit_thread`; Sys/Write is
--                `sys_write`, with project/devices.c and `sys_write_screen` of project/screen.c.
--   Game/Input   project/game_input.c.
--   Game/Map     project/game_map.c.
--   Game/Entities project/game_entities.c; Reset has the setters and where the enemies start.
--   Game/Data    project/game_data.c: the levels, tunnels and bonuses; Load is data_load_level.
--   Game/Logic   project/game_logic.c: State is its state, with the map beside it in `World`; Setup
--                the initial values; Score points, deaths and the end of a round; Queue and Path
--                the path search; Player, Enemies and Rocks what each does in a tick; Update
--                `logic_update`. Tally and its children are the invariant of the enemies' count,
--                Play the worlds that calls come to, Scenes the diagram of the scenes, Moves and
--                Dig the moves, Attack the harpoon, Fall the end of a rock, Ghost that
--                of a ghost.
--   Game/Loop    project/game.c: the scenes, and a frame of the logic thread; Frames is what every
--                frame keeps.
--   Tests        concrete states and runs.
--
-- A task pointer is 0 for NULL and i + 1 for entry i of the table; the five list fields of task t
-- have the addresses 8 t to 8 t + 4, the queue heads 1 to 4. A kernel stack is the words above the
-- `task_struct` that shares its memory. Words of the machine are natural
-- numbers with their wrap-around written out; an `int` that can be negative is `ℤ`. A context
-- switch sets what the next task finds; what follows it in the source runs when the old task is
-- switched to again.
--
-- Loops on lists take fuel: `walk_fuel` and the fuel of `scheduler` are one more than the 25 tasks
-- of the table, which no list of tasks exceeds. `alloc_frame` has 385 rounds for 384 even frames,
-- `find_free_stack_region` 90 for 89 regions, `utoa` ten for the ten digits of a word, and
-- `data_dig_tunnel` one for each cell of its way. The path search has 9999 * 80 * 24 + 2 rounds:
-- a round takes a node off its queue, and a node is pushed only when the cost of a cell goes down.
--
-- In the rules of the game `gettime` is a parameter: `clock i` is its reading when enemy i is
-- updated, and at 8 the one that ends the update. `g_current_logic_state` is the state itself, as
-- `logic_update` sets it. Times, counters that stop at 0 and the score are natural numbers; what
-- the source counts below 0 is `ℤ`. A null pointer, which the rules test for, has no counterpart.
--
-- Not modelled: boot code and assembly, the descriptor tables, what `printc` does, the drawing
-- of the game, statistics and debug output, `sys_fork`, the frame timing and
-- the threads of game.c, and `map_draw_line`, which steps in floating point.
mod Base
pub mod ListHead
pub mod Kernel
pub mod Sched
pub mod Mm
pub mod Stack
pub mod Utils
pub mod Keyboard
pub mod Sys
pub mod Game
pub mod Tests
