-- ===== src/Breakpoints/Armed.antt =====
-- What waits for a stop of the target: nothing, unless gdb refuses an interrupt. So a sequence of
-- requests leaves the tables and gdb's breakpoints the same.
use mcu_debug.Prelude.{Option, List, [], ◌∷◌, ◌≡◌}
use mcu_debug.Breakpoints.World.{done, World, M, Request, BkptInfo}
use mcu_debug.Breakpoints.Args.{exec_interrupt}
use mcu_debug.Breakpoints.Requests.{Outside, handle_request}

-- A call that leaves what waits for a stop as it is.
abbrev KeepsArmed : {G A : Type 0} → M G A → Type 0
KeepsArmed {G} m = (w : World G) → (m w).1.armed ≡ w.armed

module _ {G : Type 0} (o : Outside G) where
  -- gdb takes every interrupt.
  abbrev pub TakesInterrupts : Type 0
  TakesInterrupts =
      (g : G) → (info : Option BkptInfo) × ((o.gdb_answers exec_interrupt g).0 ≡ done info)

  abbrev pub handle_all : List Request → World G → World G
  handle_all [] w = w
  handle_all (request ∷ requests) w = handle_all requests (handle_request o request w).1
