-- ===== src/VarRef/Scope.antt =====
-- The numbers of `VariableScope` in packages/mcu-debug/src/adapter/var-scopes.ts; a variable's scope
-- has `variable_type_mask` added.
use mcu_debug.Prelude.{ℕ}

abbrev pub global : ℕ
global = 0

abbrev pub static : ℕ
static = 1

abbrev pub local : ℕ
local = 2

abbrev pub registers : ℕ
registers = 3

abbrev pub scope : ℕ
scope = 4

abbrev pub watch : ℕ
watch = 5
