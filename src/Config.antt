-- ===== src/Config.antt =====
-- config.hpp: the assertion macros, whose RTOS_TRAP does not return.
use coo_rtos.Base.{Bool, if◌then◌else◌, Run, trap}

-- `RTOS_ASSERT`, with the code behind it; without contracts in the compiler it is
-- `RTOS_CONTRACT_ASSERT` as well.
abbrev pub rtos_assert {ℓ} : {A : Type ℓ} → Bool → Run A → Run A
rtos_assert cond rest = if cond then rest else trap

abbrev pub rtos_contract_assert {ℓ} : {A : Type ℓ} → Bool → Run A → Run A
rtos_contract_assert cond rest = rtos_assert cond rest
