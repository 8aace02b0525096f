-- ===== src/Control/Config/Limits.antt =====
-- A configuration that loads, and the limits of the jail that it yields.
use microvm_terminal.Base.{
  ℕ, zero, suc, ◌+◌, ◌*◌, ◌^◌, ◌≡◌, ◌<◌, ◌≤◌, refl, ap, subst, true, false, Option, none, some,
  Bytes, arith, ltb, if◌then◌else◌, inl, inr, Bool-cases,
}
use microvm_terminal.Base.Int64.{
  ℤ, pos, negsuc, le64, lt64, add64, mul64, int64_half, add64_pos, mul64_pos,
}
use microvm_terminal.Base.Result.{Result, ok, err}
use microvm_terminal.Control.Config.{
  Config, Error, File, apply_env, validate, validated, with_env, from_file, load,
  jailer_cpu_quota_micros, jailer_mem_bytes,
}

-- Above 0.
abbrev pub Positive : ℤ → Type 0
Positive n = le64 n (pos 0) ≡ false

-- The numbers that the daemon cannot do without.
abbrev pub Valid : Config → Type 0
Valid c =
    Positive c.max_concurrent
    × Positive c.vm.vcpu
    × Positive c.vm.mem_mib
    × Positive c.boot_timeout_seconds

validate-Valid : (c : Config) → validate c ≡ none → Valid c
unfolding validate
validate-Valid c h = ground (arith, h)

validated-Valid :
    (c c' : Config) (o : Option Error) → validate c ≡ o → validated c o ≡ ok c' → Valid c'
validated-Valid c c' none e h =
    let same : c ≡ c' = ground (arith, h) in subst Valid same (validate-Valid c e)
validated-Valid c c' (some x) e h = absurd (ground (arith, h))

with_env-Valid :
    (env : Bytes → Bytes) (r : Result Error Config) (c : Config) → with_env env r ≡ ok c → Valid c
with_env-Valid env (err e) c h = absurd (ground (arith, h))
with_env-Valid env (ok before) c h =
    validated-Valid (apply_env env before) c (validate (apply_env env before)) refl h

load-Valid :
    (decode : Bytes → Config → Option Config) (env : Bytes → Bytes) (file : File) (c : Config)
    → load decode env file ≡ ok c
    → Valid c
unfolding load
load-Valid decode env file c h = with_env-Valid env (from_file decode file) c h

Positive-suc : (n : ℤ) → Positive n → (k : ℕ) × (n ≡ pos (k + 1))
Positive-suc (pos zero) h = absurd (ground (arith, h))
Positive-suc (pos (suc k)) h = (k, ap pos (omega arith))
Positive-suc (negsuc k) h = absurd (ground (arith, h))

-- A limit of the jail: the configured one where it is above 0; or else the product, where 64 bits
-- hold it.
pub data Limit (configured : ℤ) (product : ℕ) (limit : ℤ) : Type 0 where
  configured_one :
      lt64 (pos 0) configured ≡ true → limit ≡ configured → Limit configured product limit
  computed :
      lt64 (pos 0) configured ≡ false
      → product < int64_half
      → limit ≡ pos product
      → Limit configured product limit
  too_large :
      lt64 (pos 0) configured ≡ false → int64_half ≤ product → Limit configured product limit

chosen-Limit :
    (configured derived : ℤ) (product : ℕ)
    → (product < int64_half → derived ≡ pos product)
    → Limit configured product (if lt64 (pos 0) configured then configured else derived)
chosen-Limit configured derived product h = elim (Bool-cases (lt64 (pos 0) configured)) [
  | inl set ↦ rw set (configured_one set refl)
  | inr unset ↦ rw unset (elim (Bool-cases (ltb product int64_half)) [
    | inl small ↦ computed unset (ground (arith, small)) (h (ground (arith, small)))
    | inr large ↦ too_large unset (ground (arith, large))
  ])
]

cpu-Limit :
    (c : Config) (v : ℕ)
    → c.vm.vcpu ≡ pos v
    → Limit c.jailer.cpu_quota_micros (v * 100_000) (jailer_cpu_quota_micros c)
unfolding jailer_cpu_quota_micros
cpu-Limit c v e =
    chosen-Limit c.jailer.cpu_quota_micros (mul64 c.vm.vcpu 100_000) (v * 100_000)
      (λ h. simp e (mul64_pos v 100_000 (omega (arith, h)) h))

mem-Limit :
    (c : Config) (m : ℕ)
    → c.vm.mem_mib ≡ pos m
    → Limit c.jailer.mem_bytes ((m + 256) * 2 ^ 20) (jailer_mem_bytes c)
unfolding jailer_mem_bytes
mem-Limit c m e =
    chosen-Limit c.jailer.mem_bytes (mul64 (add64 c.vm.mem_mib (pos 256)) (2 ^ 20))
      ((m + 256) * 2 ^ 20)
      (λ h.
        simp (e, add64_pos m 256 (omega (arith, h)))
          (mul64_pos (m + 256) (2 ^ 20) (omega (arith, h)) h))

-- A configuration that loads, whatever the file and the environment say, has positive numbers of
-- sessions, vCPUs, MiB and seconds to boot. The jail gets the configured limits where they are above
-- 0; or else 100000 us of CPU time in each period for each vCPU, and the memory of the guest and
-- 256 MiB, where 64 bits hold the product.
pub load-Limits :
    (decode : Bytes → Config → Option Config) (env : Bytes → Bytes) (file : File) (c : Config)
    → load decode env file ≡ ok c
    → Valid c
      × (v : ℕ) × (m : ℕ) × (c.vm.vcpu ≡ pos (v + 1))
      × (c.vm.mem_mib ≡ pos (m + 1))
      × Limit c.jailer.cpu_quota_micros ((v + 1) * 100_000) (jailer_cpu_quota_micros c)
      × Limit c.jailer.mem_bytes ((m + 1 + 256) * 2 ^ 20) (jailer_mem_bytes c)
load-Limits decode env file c loads =
    let valid = load-Valid decode env file c loads in
    let (v, ev) = Positive-suc c.vm.vcpu valid.1 in
    let (m, em) = Positive-suc c.vm.mem_mib valid.2 in
    (valid, v, m, ev, em, cpu-Limit c (v + 1) ev, mem-Limit c (m + 1) em)
