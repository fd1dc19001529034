-- ===== src/VaList.antt =====
-- gcc/va.go: the list for an architecture, and gcc/arm/va.go.
pub mod Stream
pub mod Std
pub mod Arm64
pub mod Amd64
pub mod Places
pub mod Arm64Places
pub mod Amd64Places
pub mod StdPlaces
pub mod Bytes
pub mod Arm64Bytes
pub mod Amd64Bytes
use microdbg_linux.Base.{ℕ}
use microdbg_linux.Machine.{Machine, Arch}
use Stream.{Result, err, arch_unsupported, transform}
use Std.{StdList, new_std_va_list}
use Arm64.{Arm64List, to_arm64_list, arm64_kinds}
use Amd64.{Amd64List, to_amd64_list, amd64_kinds}

-- `debugger.Args`, by the type that implements it.
pub data VaList : Type 0 where
  std_list : StdList → VaList
  arm64_list : Arm64List → VaList
  amd64_list : Amd64List → VaList

-- `NewVaList` of gcc/arm.
unfoldable pub new_arm_va_list : ℕ → Result StdList
unfolding new_std_va_list
new_arm_va_list ptr = new_std_va_list ptr 4

module _ (M : Machine) (memory : M.Memory) where
  -- `NewVaList`
  unfoldable pub list_for : Arch → ℕ → Result VaList
  unfolding new_std_va_list to_arm64_list to_amd64_list
  list_for Arch.arm ptr = transform std_list (new_std_va_list ptr 4)
  list_for Arch.x86 ptr = transform std_list (new_std_va_list ptr 4)
  list_for Arch.arm64 ptr = transform arm64_list (to_arm64_list (M.extract memory ptr arm64_kinds))
  list_for Arch.x86_64 ptr = transform amd64_list (to_amd64_list (M.extract memory ptr amd64_kinds))
  list_for Arch.other_arch ptr = err arch_unsupported

  unfoldable pub new_va_list : ℕ → Result VaList
  unfolding list_for
  new_va_list ptr = list_for M.arch ptr
