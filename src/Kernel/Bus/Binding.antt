-- ===== src/Kernel/Bus/Binding.antt =====
-- What a driver that keeps its promise holds on a bus, whatever comes and goes.
use learning_kernel.Prelude.{
  ℕ, Bool, true, false, ◌&&◌, List, [], ◌∷◌, Option, none, some, ◌≡◌, refl, Bool-cases, ◌⊎◌, inl,
  inr, arith, is_nonzero,
}
use learning_kernel.Kernel.Calls
use learning_kernel.Kernel.Calls.{Kernel, Event, Call, Status}
use learning_kernel.Kernel.Run.{World}
use learning_kernel.Kernel.Bus.{
  Identity, Driver, Action, arrive, leave, load, unload, System, fits, settle, detach, arrival, act,
  acts,
}

-- A kernel that registers every misc device.
abbrev status_of : Kernel → List Event → Call → Status
status_of k log Calls.misc_register = Status.success
status_of k log c = k.status log c

abbrev pub accepting : Kernel → Kernel
accepting k = record k { status = status_of k }

-- What a driver promises of the world, bound or not.
pub record Binds {S : Type 0} (d : Driver S) (Free Bound : World S → Type 0) : Type 0 where
  pub probe_fails :
      (device : ℕ) (w : World S)
      → Free w
      → is_nonzero (d.probe device w).0 ≡ true
      → Free (d.probe device w).1
  pub probe_binds :
      (device : ℕ) (w : World S)
      → Free w
      → is_nonzero (d.probe device w).0 ≡ false
      → Bound (d.probe device w).1
  pub remove_frees : (w : World S) → Bound w → Free (d.remove w).1

module _ {S : Type 0} (matches : Identity → ℕ → Bool) (d : Driver S)
    (Free Bound : World S → Type 0) where
  -- The driver is bound to a device that matches it, with its promise, or it is not bound.
  abbrev pub IsConsistent : System S → Type 0
  IsConsistent p =
      (p.bound ≡ true) × (p.driver ≡ true) × (fits matches d p.device ≡ true) × Bound p.world
      ⊎ (p.bound ≡ false) × Free p.world

module _ {S : Type 0} (matches : Identity → ℕ → Bool) (d : Driver S) (Free Bound : World S → Type 0)
    (laws : Binds d Free Bound) where
  settle-IsConsistent :
      (p : System S)
      → p.bound ≡ false
      → Free p.world
      → IsConsistent matches d Free Bound (settle matches d p)
  unfolding settle
  settle-IsConsistent p u f = go p.device refl
    where
      go :
          (device : Option ℕ)
          → p.device ≡ device
          → IsConsistent matches d Free Bound (settle matches d p)
      go none e = inr (ground (arith, e), ground arith)
      go (some device) e = elim (Bool-cases (p.driver && matches d.identity device)) [
        | inl fit ↦ elim (Bool-cases (is_nonzero (d.probe device p.world).0)) [
          | inl failed ↦
              inr (ground arith, ground (arith, laws.probe_fails device p.world f failed))
          | inr ok ↦ inl (
            ground arith,
            ground arith,
            ground arith,
            ground (arith, laws.probe_binds device p.world f ok),
          )
        ]
        | inr other ↦ inr (ground arith, ground arith)
      ]

  detach-Free :
      (p : System S)
      → IsConsistent matches d Free Bound p
      → ((detach matches d p).bound ≡ false) × Free (detach matches d p).world
  unfolding detach
  detach-Free p (inl (b, l, m, h)) = (ground arith, ground (arith, laws.remove_frees p.world h))
  detach-Free p (inr (u, f)) = (ground arith, ground arith)

  arrival-IsConsistent :
      (device : ℕ) (old : Option ℕ) (p : System S)
      → p.device ≡ old
      → IsConsistent matches d Free Bound p
      → IsConsistent matches d Free Bound (arrival matches d device old p)
  unfolding arrival
  arrival-IsConsistent device (some old) p e c = c
  arrival-IsConsistent device none p e (inr (u, f)) =
      settle-IsConsistent (record p { device = some device }) u f
  arrival-IsConsistent device none p e (inl (b, l, m, h)) = absurd (ground arith)

  act-IsConsistent :
      (a : Action) (p : System S)
      → IsConsistent matches d Free Bound p
      → IsConsistent matches d Free Bound (act matches d a p)
  unfolding act
  act-IsConsistent (arrive device) p c = arrival-IsConsistent device p.device p refl c
  act-IsConsistent leave p c = inr (detach-Free p c)
  act-IsConsistent load p (inl (b, l, m, h)) =
      inl (ground arith, ground arith, ground arith, ground arith)
  act-IsConsistent load p (inr (u, f)) = elim (Bool-cases p.driver) [
    | inl old ↦ inr (ground arith, ground arith)
    | inr new ↦ rw new (settle-IsConsistent (record p { driver = true }) u f)
  ]
  act-IsConsistent unload p c = inr (detach-Free p c)

  pub acts-IsConsistent :
      (todo : List Action) (p : System S)
      → IsConsistent matches d Free Bound p
      → IsConsistent matches d Free Bound (acts matches d todo p)
  unfolding acts
  acts-IsConsistent [] p c = c
  acts-IsConsistent (a ∷ rest) p c =
      acts-IsConsistent rest (act matches d a p) (act-IsConsistent a p c)

module _ {S : Type 0} (matches : Identity → ℕ → Bool) (d : Driver S) (Free Bound : World S → Type 0)
    (laws : Binds d Free Bound)
    (reliable : (device : ℕ) (w : World S) → Free w → is_nonzero (d.probe device w).0 ≡ false) where
  -- The driver is bound exactly if it is there with a device that matches.
  abbrev IsUsed : System S → Type 0
  IsUsed p = p.bound ≡ (p.driver && fits matches d p.device)

  settle-IsUsed : (p : System S) → p.bound ≡ false → Free p.world → IsUsed (settle matches d p)
  unfolding settle
  settle-IsUsed p u f = go p.device refl
    where
      go : (device : Option ℕ) → p.device ≡ device → IsUsed (settle matches d p)
      go none e = ground (arith, e)
      go (some device) e = ground (arith, e, reliable device p.world f)

  arrival-IsUsed :
      (device : ℕ) (old : Option ℕ) (p : System S)
      → p.device ≡ old
      → IsConsistent matches d Free Bound p
      → IsUsed p
      → IsUsed (arrival matches d device old p)
  unfolding arrival
  arrival-IsUsed device (some old) p e c u = u
  arrival-IsUsed device none p e (inr (n, f)) u =
      settle-IsUsed (record p { device = some device }) n f
  arrival-IsUsed device none p e (inl (b, l, m, h)) u = absurd (ground arith)

  detach-IsUsed :
      (p : System S)
      → ((detach matches d p).bound ≡ false) × ((detach matches d p).driver ≡ p.driver)
  unfolding detach
  detach-IsUsed p = (ground arith, ground arith)

  act-IsUsed :
      (a : Action) (p : System S)
      → IsConsistent matches d Free Bound p
      → IsUsed p
      → IsUsed (act matches d a p)
  unfolding act
  act-IsUsed (arrive device) p c u = arrival-IsUsed device p.device p refl c u
  act-IsUsed leave p c u = ground (arith, detach-IsUsed p)
  act-IsUsed load p (inl (b, l, m, h)) u = ground arith
  act-IsUsed load p (inr (n, f)) u = elim (Bool-cases p.driver) [
    | inl old ↦ ground arith
    | inr new ↦ rw new (settle-IsUsed (record p { driver = true }) n f)
  ]
  act-IsUsed unload p c u = ground (arith, detach-IsUsed p)

  pub acts-IsUsed :
      (todo : List Action) (p : System S)
      → IsConsistent matches d Free Bound p
      → IsUsed p
      → IsUsed (acts matches d todo p)
  unfolding acts
  acts-IsUsed [] p c u = u
  acts-IsUsed (a ∷ rest) p c u =
      acts-IsUsed rest (act matches d a p) (act-IsConsistent matches d Free Bound laws a p c)
        (act-IsUsed a p c u)
