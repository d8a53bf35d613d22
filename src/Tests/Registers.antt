-- ===== src/Tests/Registers.antt =====
-- The theorems on registers.c at a file in user mode.
use projet_s.Common.{ℕ, ◌≡◌, ◌⊎◌, ◌↔◌, ◌%◌, ◌^◌, false, arith}
use projet_s.Constants.{irq, svc, fiq, usr}
use projet_s.Registers
use projet_s.Registers.{
  read_register, read_spsr, write_register, write_cpsr, write_spsr, register_index,
}
use projet_s.Registers.Bank.{IsMode, bank, is_banked, register_index-eq_iff}
use projet_s.Registers.Access.{read_register-switch}
use projet_s.Tests.Machine.{file, file-usr}

svc-IsMode : IsMode (svc % 2 ^ 5)
svc-IsMode = ground arith

read_register-switch_example :
    read_register (write_cpsr (write_register (file usr 0) 5 77) svc) 5 ≡ 77
unfolding Registers.get_mode
read_register-switch_example =
    read_register-switch (file usr 0) 5 5 77 svc (file-usr 0) svc-IsMode (omega arith) (omega arith)

register_index-eq_iff_example : (register_index fiq 8 ≡ register_index irq 8) ↔ (
    ◌≡◌ {A = ℕ} 8 8
    × ((bank fiq ≡ bank irq) ⊎ ((is_banked fiq 8 ≡ false) × (is_banked irq 8 ≡ false))))
register_index-eq_iff_example =
    register_index-eq_iff fiq irq 8 8 (ground arith) (ground arith) (omega arith) (omega arith)

file-svc : IsMode (Registers.get_mode (file svc 0))
unfolding Registers.get_mode
file-svc = ground arith
