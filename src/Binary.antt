-- ===== src/Binary.antt =====
-- parser.hpp: the parser of a whole module. It keeps the module and its own members as a state. The
-- functions' bodies are loops on fuel, so a read of the module is on fuel as well.
pub mod Fueled
pub mod Functions
pub mod Sections
pub mod Ends
pub mod Linked
pub mod WellFormed
pub mod Declarations
pub mod Contents
pub mod Code
pub mod Loop
pub mod Done
use eos_vm.Prelude.{ℕ, ◌+◌, ◌-◌, List, true, false, Option, none, some, leb, ◌==◌}
use eos_vm.Prelude.Result.{ok, err, guarded_ptr_exception}
use eos_vm.GuardedPtr.{GuardedPtr, Read}
use eos_vm.Types.{Module}
use eos_vm.Writer.{Opcode, Elem}
use eos_vm.Binary.Fueled
use eos_vm.Binary.Fueled.{Run}

-- A read that is on fuel: `none` where the fuel ran out.
abbrev pub Parse : Type 0 → Type 0
Parse A = GuardedPtr → Run (A × GuardedPtr)

infixl 5 ◌>>=◌
unfoldable pub ◌>>=◌ : {A B : Type 0} → Parse A → (A → Parse B) → Parse B
◌>>=◌ m f c = Fueled.◌>>=◌ (m c) (λ (a, d). f a d)

unfoldable pub pure : {A : Type 0} → A → Parse A
pure a c = some (ok (a, c))

-- Code that does not touch the pointer.
unfoldable pub lift : {A : Type 0} → Run A → Parse A
lift r c = Fueled.◌>>=◌ r (λ a. some (ok (a, c)))

-- A read that needs no fuel.
unfoldable pub reads : {A : Type 0} → Read A → Parse A
reads m c = some (m c)

-- What scoped_consume_items does when its guard dies: the pointer must be at the inner bounds, and the
-- outer ones are restored.
abbrev pub leave : {A : Type 0} → ℕ → Run (A × GuardedPtr) → Run (A × GuardedPtr)
leave old none = none
leave old (some (err e)) = some (err e)
leave old (some (ok (a, d))) = elim (d.raw_ptr == d.bnds) [
  | true ↦ some (ok (a, record d { bnds = old }))
  | false ↦ some (err guarded_ptr_exception)
]

-- scoped_consume_items(n), with code on fuel that runs while the guard lives
unfoldable pub scoped : {A : Type 0} → ℕ → Parse A → Parse A
scoped n body c = elim (leb n (c.bnds - c.raw_ptr)) [
  | true ↦ leave c.bnds (body (record c { bnds = c.raw_ptr + n }))
  | false ↦ some (err guarded_ptr_exception)
]

-- The code that was written for a function.
pub record Written : Type 0 where
  pub base : ℕ
  pub opcodes : List Opcode
  pub elems : List Elem
  pub cells : List (Option ℕ)

-- binary_parser, with the module that it fills: `globals` and `nested` are the counters of
-- _globals_checker and _nested_checker, `functions` is the code in the order of the functions.
pub record Parser : Type 0 where
  pub mod' : Module
  pub globals : ℕ
  pub nested : ℕ
  pub datacount : Option ℕ
  pub type_aliases : List ℕ
  pub fast_functions : List ℕ
  pub functions : List Written
