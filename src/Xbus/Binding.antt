-- ===== src/Xbus/Binding.antt =====
-- The driver of xdrv.c on the bus of xbus.c: which devices it is bound to.
use learning_kernel.Prelude.{
  ℕ, ℤ, pos, Bool, String, true, List, [], ◌++◌, drop, length, Option, none, some, ◌≡◌, ◌↔◌, refl,
  arith, inr, eqb_ℤ,
}
use learning_kernel.Kernel.Run.{World, M, pure}
use learning_kernel.Kernel.Bus.{Driver, Identity, Action, System, fits, acts, vacant}
use learning_kernel.Kernel.Bus.Binding.{Binds, acts-IsUsed}
use learning_kernel.Xbus.{xbus_match, xdev_name}
use learning_kernel.Xbus.Matching.{match-append, match-split}

-- The two print a line.
pub xdrv_probe : ℕ → M (Unit {0}) ℤ
xdrv_probe device = pure (pos 0)

pub xdrv_remove : M (Unit {0}) ℤ
xdrv_remove = pure (pos 0)

abbrev pub xdrv : Driver (Unit {0})
xdrv = record {
  identity = record { name = "xdev"; compatible = []; ids = [] };
  probe = xdrv_probe;
  remove = xdrv_remove;
}

-- The bus asks `xbus_match` with the names of the device and of the driver; `characters` gives those
-- of a string.
abbrev pub by_name : (String → List ℕ) → (ℕ → List ℕ) → Identity → ℕ → Bool
by_name characters name identity device =
    eqb_ℤ (xbus_match (name device) (characters identity.name)) (pos 1)

xdrv-Binds : Binds xdrv (λ w. Unit {0}) (λ w. Unit {0})
xdrv-Binds = record {
  probe_fails = λ device w f e. tt;
  probe_binds = λ device w f e. tt;
  remove_frees = λ w b. tt;
}

-- A device whose name begins with "xdev" is on the bus.
abbrev pub Named : (ℕ → List ℕ) → Option ℕ → Type 0
Named name none = ⊥
Named name (some device) = name device ≡ xdev_name ++ drop (length xdev_name) (name device)

match-one :
    (characters : String → List ℕ) (name : ℕ → List ℕ) (device : ℕ)
    → characters "xdev" ≡ xdev_name
    → fits (by_name characters name) xdrv (some device) ≡ true
    → xbus_match (name device) xdev_name ≡ pos 1
unfolding xbus_match
match-one characters name device spelled e = ground arith

Named-match :
    (characters : String → List ℕ) (name : ℕ → List ℕ) (device : ℕ)
    → characters "xdev" ≡ xdev_name
    → Named name (some device)
    → fits (by_name characters name) xdrv (some device) ≡ true
Named-match characters name device spelled n =
    rw (n, spelled, by_name)
      (ground (arith, match-append xdev_name (drop (length xdev_name) (name device))))

fits-Named :
    (characters : String → List ℕ) (name : ℕ → List ℕ) (device : Option ℕ)
    → characters "xdev" ≡ xdev_name
    → (fits (by_name characters name) xdrv device ≡ true) ↔ Named name device
fits-Named characters name none spelled = (λ e. ground arith, λ n. absurd n)
fits-Named characters name (some device) spelled = (
  λ e. match-split xdev_name (name device) (match-one characters name device spelled e),
  λ n. Named-match characters name device spelled n,
)

module _ (characters : String → List ℕ) (name : ℕ → List ℕ) (todo : List Action)
    (w : World (Unit {0})) where
  abbrev pub after : System (Unit {0})
  after = acts (by_name characters name) xdrv todo (vacant w)

  -- On a bus with a place for one device, devices of any names may come and go, and xdrv.c may be
  -- loaded and unloaded, in any order and as often as one likes, from an empty bus on: its driver
  -- is bound exactly when it is loaded and there is a device whose name begins with "xdev".
  pub xdrv-bound :
      characters "xdev" ≡ xdev_name
      → (after.bound ≡ true) ↔ ((after.driver ≡ true) × Named name after.device)
  unfolding xdrv_probe
  xdrv-bound spelled =
      let used =
        acts-IsUsed (by_name characters name) xdrv (λ v. Unit {0}) (λ v. Unit {0}) xdrv-Binds
          (λ device v f. refl) todo (vacant w) (inr (refl, tt)) refl in
      let named = fits-Named characters name after.device spelled in
      (
        λ b. (ground (arith, used, b), named.0 (ground (arith, used, b))),
        λ h. ground (arith, used, h.0, named.1 h.1),
      )
