-- ===== src/Vm.antt =====
-- src/vm.h, src/vm.c, src/opcodes.h and src/disasm.h: the register machine.
pub mod Decode
pub mod Eval
pub mod Ends
pub mod Valid
pub mod Inside
