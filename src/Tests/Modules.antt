-- ===== src/Tests/Modules.antt =====
-- Whole modules that are parsed.
use eos_vm.Prelude.{ℕ, ◌≡◌, ◌⊎◌, List, [], ◌∷◌, length, some, arith}
use eos_vm.Prelude.Result.{Error, ok, err}
use eos_vm.Binary.{Parser}
use eos_vm.Binary.Sections.{parse_code}
use eos_vm.Binary.WellFormed.{IsWellFormed}
use eos_vm.Binary.Done.{parse_code_forms}
use eos_vm.Tests.Parsing.{options}

-- A function without parameters and results, exported as "f", and its empty body.
abbrev module_bytes : List ℕ
module_bytes =
    0x00 ∷ 0x61 ∷ 0x73 ∷ 0x6D ∷ 0x01 ∷ 0x00 ∷ 0x00 ∷ 0x00 ∷ 0x01 ∷ 0x04 ∷ 0x01 ∷ 0x60 ∷ 0x00 ∷ 0x00
    ∷ 0x03 ∷ 0x02 ∷ 0x01 ∷ 0x00 ∷ 0x07 ∷ 0x05 ∷ 0x01 ∷ 0x01 ∷ 0x66 ∷ 0x00 ∷ 0x00 ∷ 0x0A ∷ 0x04
    ∷ 0x01 ∷ 0x02 ∷ 0x00 ∷ 0x0B ∷ []

parse_code_run :
    ((e : Error) × (parse_code 32 options 32 module_bytes ≡ some (err e)))
    ⊎ ((p : Parser) × (parse_code 32 options 32 module_bytes ≡ some (ok p))
        × IsWellFormed options p
        × (length p.mod'.code ≡ length p.mod'.functions))
parse_code_run = parse_code_forms 32 options 32 module_bytes (omega arith) (omega arith)
