-- ===== src/Binary/Fueled.antt =====
-- Code that contains loops on fuel: `none` where the fuel ran out.
use eos_vm.Prelude.{Option, none, some}
use eos_vm.Prelude.Result.{Result, ok, err}

abbrev pub Run : Type 0 → Type 0
Run A = Option (Result A)

infixl 5 ◌>>=◌
unfoldable pub ◌>>=◌ : {A B : Type 0} → Run A → (A → Run B) → Run B
none >>= f = none
some (err e) >>= f = some (err e)
some (ok a) >>= f = f a
