-- ===== src/Arm/Print.antt =====
-- `arm_print_state` of arm_core.c: the registers of every mode, as a list of what is printed.
use Prim.Native.String.{String}
use projet_s.Common.{
  ℕ, zero, suc, ◌+◌, ◌%◌, ◌==◌, ◌&&◌, ◌||◌, not, ltb, Bool, if◌then◌else◌, Option, none, some, List,
  [], ◌∷◌, ◌++◌,
}
use projet_s.Constants.{usr, fiq, irq, svc, abt, und, sys}
use projet_s.Constants.Names.{arm_get_mode_name, arm_get_register_name}
use projet_s.Outcome.{Outcome, ok, fault, ◌>>=◌}
use projet_s.Arm.{ArmCore, read_register, read_usr_register, read_cpsr}

-- A mode and a colon, a register and its value, the status word, the end of a line, a new line with
-- an indent, and the gap after two of the modes.
pub data Item : Type 0 where
  title : String → Item
  value : String → ℕ → Item
  status : ℕ → Item
  line_end : Item
  indent : Item
  gap : Item

abbrev only_if : Bool → Item → List Item
only_if b item = if b then item ∷ [] else []

-- What the format %s makes of a name; NULL has no meaning.
abbrev named : Option String → (String → Outcome (List Item)) → Outcome (List Item)
named none next = fault
named (some name) next = next name

-- The loop over the registers, for n registers left.
unfoldable pub print_registers : ArmCore → ℕ → ℕ → ℕ → ℕ → Outcome (List Item)
print_registers p mode zero reg count = ok []
print_registers p mode (suc n) reg count = do
  name ← arm_get_register_name reg
  rest ← print_registers p mode n (reg + 1) (if mode == usr then count else count + 1)
  named name λ name. ok (
      if mode == usr
      then only_if (ltb 0 reg && reg % 5 == 0) indent
        ++ (value name (read_usr_register p reg) ∷ rest)
      else only_if (ltb 0 count && count % 5 == 0) indent
        ++ (value name (read_register p reg) ∷ rest))

unfoldable pub print_mode : ArmCore → ℕ → Outcome (List Item)
unfolding print_registers
print_mode p mode = do
  mode_name ← arm_get_mode_name mode
  registers ← print_registers p mode 16 0 0
  elim mode_name [
    | none ↦ ok []
    | some name ↦ ok (
        only_if (not (mode == sys)) (title name)
        ++ (registers
            ++ (only_if (mode == usr) (status (read_cpsr p))
                ++ (only_if (mode == usr || mode == fiq || mode == svc || mode == und) line_end
                    ++ only_if (mode == irq || mode == abt) gap))))
  ]

-- The loop over the modes, for n modes left.
unfoldable pub print_modes : ArmCore → ℕ → ℕ → Outcome (List Item)
unfolding print_mode
print_modes p zero mode = ok []
print_modes p (suc n) mode = do
  first ← print_mode p mode
  rest ← print_modes p n (mode + 1)
  ok (first ++ rest)

unfoldable pub arm_print_state : ArmCore → Outcome (List Item)
unfolding print_modes
arm_print_state p = print_modes p 32 0
