-- ===== src/Hello/Examples.antt =====
-- The theorems on drivers/helloDev/hello.c for a concrete kernel.
use learning_kernel.Prelude.{ℕ, zero, suc, ℤ, pos, negsuc, List, [], ◌∷◌, none, some, ◌≡◌, refl}
use learning_kernel.Kernel.Calls.{Kernel}
use learning_kernel.Kernel.Run.{World}
use learning_kernel.Kernel.Ledger.{ledger}
use learning_kernel.Kernel.Friendly.{friendly}
use learning_kernel.Hello.{HelloDev, Digits}
use learning_kernel.Hello.Registration.{load_unload}
use learning_kernel.Hello.Registration.Lifecycle.{hello_module_clean}

abbrev willing : Kernel
willing = friendly "" (λ log. pos 0) 0

abbrev cold : World HelloDev
cold = record {
  dev = record {
    hello_major = 0;
    hello_minor = 0;
    hello_class = pos 0;
    hello_dev = none;
    val = pos 3;
  };
  log = [];
}

-- A notation with one digit for the sign and one for the number.
abbrev signed : ℤ → List ℕ
signed (pos n) = 0 ∷ n ∷ []
signed (negsuc n) = 1 ∷ n ∷ []

abbrev number : List ℕ → ℤ
number [] = pos 0
number (s ∷ []) = pos 0
number (zero ∷ n ∷ rest) = pos n
number (suc s ∷ n ∷ rest) = negsuc n

number_signed : (v : ℤ) → number (signed v) ≡ v
number_signed (pos n) = refl
number_signed (negsuc n) = refl

abbrev digits : Digits
digits = record { print = signed; parse = number; parse_print = number_signed }

hello_module_clean_example : ledger (load_unload willing cold).log ≡ some []
hello_module_clean_example = hello_module_clean willing cold refl
