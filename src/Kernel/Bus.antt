-- ===== src/Kernel/Bus.antt =====
-- A bus with one place for a device, and a driver for it. That the bus calls the probe as soon as it
-- has a driver and a device that match, and the remove before either goes, is the documented
-- behaviour of the kernel's driver core. Which device matches which driver is a parameter.
pub mod Binding
use learning_kernel.Prelude.{
  ℕ, ℤ, Bool, true, false, not, ◌&&◌, String, List, [], ◌∷◌, Option, none, some, ◌≡◌, refl,
  Bool-cases, ◌⊎◌, inl, inr, arith, is_nonzero, if◌then◌else◌,
}
use learning_kernel.Kernel.Run.{World, M}

-- The name and the tables of a driver: `compatible` is its of_match_table, `ids` its id_table.
pub record Identity : Type 0 where
  pub name : String
  pub compatible : List String
  pub ids : List String

-- The probe gets a pointer to the device.
pub record Driver (S : Type 0) : Type 0 where
  pub identity : Identity
  pub probe : ℕ → M S ℤ
  pub remove : M S ℤ

pub data Action : Type 0 where
  arrive : ℕ → Action
  leave load unload : Action

pub record System (S : Type 0) : Type 0 where
  pub device : Option ℕ
  pub driver : Bool
  pub bound : Bool
  pub world : World S

-- Neither is there.
abbrev pub vacant : {S : Type 0} → World S → System S
vacant w = record { device = none; driver = false; bound = false; world = w }

module _ {S : Type 0} (matches : Identity → ℕ → Bool) (d : Driver S) where
  abbrev pub fits : Option ℕ → Bool
  fits none = false
  fits (some device) = matches d.identity device

  probe_device : Option ℕ → System S → System S
  probe_device none p = p
  probe_device (some device) p =
      let r = d.probe device p.world in record p { bound = not (is_nonzero r.0); world = r.1 }

  settle : System S → System S
  unfolding probe_device
  settle p = if p.driver && (not p.bound && fits p.device) then probe_device p.device p else p

  detach : System S → System S
  detach p = if p.bound then record p { bound = false; world = (d.remove p.world).1 } else p

  arrival : ℕ → Option ℕ → System S → System S
  unfolding settle
  arrival device none p = settle (record p { device = some device })
  arrival device (some old) p = p

  pub act : Action → System S → System S
  unfolding arrival settle detach
  act (arrive device) p = arrival device p.device p
  act leave p = record (detach p) { device = none }
  act load p = if p.driver then p else settle (record p { driver = true })
  act unload p = record (detach p) { driver = false }

  pub acts : List Action → System S → System S
  acts [] p = p
  acts (a ∷ rest) p = acts rest (act a p)
