-- ===== src/HelloWorld.antt =====
-- drivers/hello/hello.c: a module that prints a line when it is loaded and one when it is unloaded.
use learning_kernel.Prelude.{
  ℤ, pos, Bool, true, false, String, List, [], ◌∷◌, is_nonzero, if◌then◌else◌, not,
}
use learning_kernel.Kernel.Calls
use learning_kernel.Kernel.Calls.{Kernel, Event}
use learning_kernel.Kernel.Run.{World, M, pure, ◌>>◌, run_call}

abbrev pub greeting : String
greeting = "Hello, world\n"

abbrev pub farewell : String
farewell = "Goodbye, cruel world\n"

module _ (k : Kernel) where
  pub hello_init : M (Unit {0}) ℤ
  hello_init = do run_call k (Calls.printk greeting); pure (pos 0)

  -- It is declared to return nothing, so the kernel sees no result.
  pub hello_exit : M (Unit {0}) (Unit {0})
  hello_exit = run_call k (Calls.printk farewell)

pub data Action : Type 0 where
  insmod rmmod : Action

pub record System : Type 0 where
  pub loaded : Bool
  pub world : World (Unit {0})

module _ (k : Kernel) where
  -- A loaded module is not loaded again, and only a loaded one is unloaded.
  pub act : Action → System → System
  unfolding hello_init hello_exit
  act insmod s =
      let r = hello_init k s.world in
      if s.loaded then s else record { loaded = not (is_nonzero r.0); world = r.1 }
  act rmmod s = if s.loaded then record { loaded = false; world = (hello_exit k s.world).1 } else s

  pub acts : List Action → System → System
  acts [] s = s
  acts (a ∷ rest) s = acts rest (act a s)

-- The lines printed, the last first.
abbrev pub said : List Event → List String
said [] = []
said (e ∷ es) = elim e.call [ Calls.printk text ↦ text ∷ said es | _ ↦ said es ]

-- A greeting and a farewell by turns, and whether the last was a greeting.
pub data Alternates : Bool → List String → Type 0 where
  silent : Alternates false []
  greeted : {lines : List String} → Alternates false lines → Alternates true (greeting ∷ lines)
  parted : {lines : List String} → Alternates true lines → Alternates false (farewell ∷ lines)

module _ (k : Kernel) where
  turn :
      (a : Action) (loaded : Bool) (w : World (Unit {0}))
      → Alternates loaded (said w.log)
      → let s = act k a (record { loaded = loaded; world = w }) in
        Alternates s.loaded (said s.world.log)
  unfolding act
  turn insmod false w h = greeted h
  turn insmod true w h = h
  turn rmmod false w h = h
  turn rmmod true w h = parted h

  -- However often the module is loaded and unloaded, it has printed a greeting and a farewell by
  -- turns, beginning with a greeting, and the last line is a greeting exactly if it is loaded.
  pub acts-Alternates :
      (todo : List Action) (s : System)
      → Alternates s.loaded (said s.world.log)
      → Alternates (acts k todo s).loaded (said (acts k todo s).world.log)
  unfolding acts
  acts-Alternates [] s h = h
  acts-Alternates (a ∷ rest) s h = acts-Alternates rest (act k a s) (turn a s.loaded s.world h)
