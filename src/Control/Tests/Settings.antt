-- ===== src/Control/Tests/Settings.antt =====
-- Runs of the configuration.
use microvm_terminal.Base.{
  ℕ, ◌+◌, ◌*◌, ◌^◌, ◌≡◌, refl, none, Option, [], Bytes, bytes, bytes_eq, if◌then◌else◌,
}
use microvm_terminal.Base.Int64.{pos}
use microvm_terminal.Base.Numerals.{parse_int, digits_value}
use microvm_terminal.Base.Result.{err}
use microvm_terminal.Control.Config.{
  Config, bad_vm, missing, defaults, apply_env, validate, load, jailer_cpu_quota_micros,
  jailer_mem_bytes,
}
use microvm_terminal.Control.Config.Limits.{Valid, Limit, load-Limits}

abbrev no_yaml : Bytes → Config → Option Config
no_yaml text c = none

abbrev four_cpus : Bytes → Bytes
four_cpus key = if bytes_eq key (bytes "VM_VCPU") then bytes "4" else []

abbrev no_cpu : Bytes → Bytes
no_cpu key = if bytes_eq key (bytes "VM_VCPU") then bytes "0" else []

refused : load no_yaml no_cpu missing ≡ err bad_vm
unfolding load apply_env validate bytes_eq parse_int digits_value
refused = refl

abbrev of_four : Config
of_four = record defaults { vm = record { vcpu = pos 4; mem_mib = pos 2048 } }

load-Limits_example :
    Valid of_four
    × (v : ℕ) × (m : ℕ) × (of_four.vm.vcpu ≡ pos (v + 1))
    × (of_four.vm.mem_mib ≡ pos (m + 1))
    × Limit of_four.jailer.cpu_quota_micros ((v + 1) * 100_000) (jailer_cpu_quota_micros of_four)
    × Limit of_four.jailer.mem_bytes ((m + 1 + 256) * 2 ^ 20) (jailer_mem_bytes of_four)
load-Limits_example =
    load-Limits no_yaml four_cpus missing of_four
      (unfold load apply_env validate bytes_eq parse_int digits_value in refl)
