-- ===== src/Control/Jailer/Script/Launches.antt =====
-- A launch through the jailer, seen from the script that it starts.
use microvm_terminal.Base.{
  ◌≡◌, ◌≢◌, refl, sym, ap, subst, ◌∙◌, true, ◌||◌, Option, List, [], ◌∷◌, ◌++◌, append_assoc, Bytes,
  bytes, arith, inl, inr,
}
use microvm_terminal.Base.Numerals.{itoa, itoa_ne}
use microvm_terminal.Base.Int64.{ℤ}
use microvm_terminal.Base.Result.{Result, ok, err, ok_inj}
use microvm_terminal.Base.Tests.{Bool-cases}
use microvm_terminal.Control.Firecracker.{LaunchSpec, Steps, join_path, or_default}
use microvm_terminal.Control.Jailer
use microvm_terminal.Control.Jailer.{
  JailedSpec, Process, with_ids, with_user, with_defaults, lookup_user, is_zero, process_of,
  script_args, started, launched_as, launch_jailed,
}
use microvm_terminal.Control.Jailer.Script.{
  Settings, is_set, complete, safe_vm_id, chroot_root, settings,
}
use microvm_terminal.Control.Jailer.Script.Reads.{settings_of, parse_args-script_args}

-- The parts of a launch that looking up the user leaves alone.
record Keeps (spec spec' : JailedSpec) : Type 0 where
  pub vm_id : spec'.vm_id ≡ spec.vm_id
  pub launch_spec : spec'.launch_spec ≡ spec.launch_spec
  pub chroot_base : spec'.chroot_base ≡ spec.chroot_base
  pub jailer_bin : spec'.jailer_bin ≡ spec.jailer_bin

with_ids-Keeps :
    (spec spec' : JailedSpec) (r : Result Jailer.Error (ℤ × ℤ))
    → with_ids spec r ≡ ok spec'
    → Keeps spec spec'
with_ids-Keeps spec spec' (err e) h = absurd (ground (arith, h))
with_ids-Keeps spec spec' (ok (uid, gid)) h =
    let same = ok_inj _ spec' h in
    subst (Keeps spec) same
      (record { vm_id = refl; launch_spec = refl; chroot_base = refl; jailer_bin = refl })

with_user-Keeps :
    (spec spec' : JailedSpec) (getent : Bytes → Option Bytes)
    → with_user spec getent ≡ ok spec'
    → Keeps spec spec'
unfolding with_user
with_user-Keeps spec spec' getent h =
    elim (Bool-cases (is_zero spec.jailer_uid || is_zero spec.jailer_gid)) [
      | inl asks ↦
          with_ids-Keeps spec spec' (lookup_user (getent spec.jailer_user)) (simp asks at h)
      | inr kept ↦
          let same : spec ≡ spec' = ok_inj spec spec' (simp kept at h) in
          subst (Keeps spec) same
            (record { vm_id = refl; launch_spec = refl; chroot_base = refl; jailer_bin = refl })
    ]

or_default-is_set : (value old : Bytes) → is_set value ≡ true → is_set (or_default value old) ≡ true
or_default-is_set value [] h = h
or_default-is_set value (c ∷ cs) h = refl

is_set-of_ne : (s : Bytes) → s ≢ [] → is_set s ≡ true
is_set-of_ne [] ne = absurd (ne refl)
is_set-of_ne (c ∷ cs) ne = refl

-- The chroot that the daemon names is the one that the script makes.
chroot_same :
    (base id : Bytes)
    → is_set base ≡ true
    → join_path (join_path (join_path base (bytes "firecracker")) id) (bytes "root")
      ≡ base ++ (bytes "/firecracker/" ++ (id ++ bytes "/root"))
unfolding join_path
chroot_same [] id h = absurd (ground (arith, h))
chroot_same (c ∷ cs) id h =
    append_assoc ((c ∷ cs) ++ bytes "/firecracker") (b'/' ∷ id) (bytes "/root")
    ∙ append_assoc (c ∷ cs) (bytes "/firecracker") (b'/' ∷ id ++ bytes "/root")

-- The files of a machine are named.
abbrev pub Named : LaunchSpec → Type 0
Named l =
    (is_set l.kernel_path ≡ true)
    × (is_set l.rootfs_path ≡ true)
    × (is_set l.vm_dir ≡ true)
    × (is_set l.binary_path ≡ true)

settings-script_args :
    (spec : JailedSpec)
    → is_set spec.vm_id ≡ true
    → Named spec.launch_spec
    → settings (script_args spec) ≡ ok (settings_of spec)
unfolding settings complete
settings-script_args spec id (kernel, rootfs, dir, binary) =
    let uid = is_set-of_ne (itoa spec.jailer_uid) (itoa_ne spec.jailer_uid) in
    let gid = is_set-of_ne (itoa spec.jailer_gid) (itoa_ne spec.jailer_gid) in
    rw (parse_args-script_args spec, id, uid, gid, kernel, rootfs, dir, binary) refl

-- What the script that a process runs works with.
abbrev pub Understood : JailedSpec → Process → Type 0
Understood spec p =
    (bin : Bytes) × (args : List Bytes) × (s : Settings) × (p.argv
      ≡ bytes "/usr/bin/env" ∷ bytes "bash" ∷ bin ∷ args)
    × (settings args ≡ ok s)
    × (s.vm_id ≡ spec.vm_id)
    × (s.vm_dir ≡ spec.launch_spec.vm_dir)
    × (s.boot_args ≡ spec.launch_spec.boot_args)
    × (s.vsock_uds ≡ spec.launch_spec.vsock_uds)
    × (chroot_root s ≡ p.chroot)

started-process :
    (w : Steps) (spec : JailedSpec) (p : Process) → started w (ok spec) ≡ ok p → process_of spec ≡ p
started-process w spec p h = ground (arith, h, ok_inj {E = Jailer.Error} (process_of spec) p)

same_root :
    (spec : JailedSpec)
    → is_set spec.chroot_base ≡ true
    → safe_vm_id spec.vm_id ≡ spec.vm_id
    → chroot_root (settings_of spec) ≡ (process_of spec).chroot
unfolding chroot_root process_of
same_root spec base safe = rw safe (sym (chroot_same spec.chroot_base spec.vm_id base))

started-Understood :
    (spec : JailedSpec) (w : Steps) (r : Result Jailer.Error JailedSpec) (p : Process)
    → ((spec' : JailedSpec) → r ≡ ok spec' → Keeps spec spec')
    → is_set spec.vm_id ≡ true
    → is_set spec.chroot_base ≡ true
    → safe_vm_id spec.vm_id ≡ spec.vm_id
    → Named spec.launch_spec
    → started w r ≡ ok p
    → Understood spec p
started-Understood spec w (err e) p keeps id base safe named h = absurd (ground (arith, h))
started-Understood spec w (ok spec') p keeps id base safe named h =
    let k = keeps spec' refl in
    let id' : is_set spec'.vm_id ≡ true = rw k.vm_id id in
    let base' : is_set spec'.chroot_base ≡ true = rw k.chroot_base base in
    let safe' : safe_vm_id spec'.vm_id ≡ spec'.vm_id = rw k.vm_id safe in
    let named' : Named spec'.launch_spec = rw k.launch_spec named in
    subst (Understood spec) (started-process w spec' p h) (
      spec'.jailer_bin,
      script_args spec',
      settings_of spec',
      unfold process_of in refl,
      settings-script_args spec' id' named',
      k.vm_id,
      ap (λ l. l.vm_dir) k.launch_spec,
      ap (λ l. l.boot_args) k.launch_spec,
      ap (λ l. l.vsock_uds) k.launch_spec,
      same_root spec' base' safe',
    )

launched_as-Understood :
    (spec : JailedSpec) (getent : Bytes → Option Bytes) (w : Steps) (id : Bytes) (p : Process)
    → spec.vm_id ≡ id
    → safe_vm_id spec.vm_id ≡ spec.vm_id
    → Named spec.launch_spec
    → launched_as spec getent w id ≡ ok p
    → Understood spec p
unfolding with_defaults
launched_as-Understood spec getent w [] p e safe named h = absurd (ground (arith, h))
launched_as-Understood spec getent w (c ∷ id) p e safe named h =
    let full = with_defaults spec in
    let some_id : is_set spec.vm_id ≡ true = rw e refl in
    let some_base : is_set full.chroot_base ≡ true =
      or_default-is_set (bytes "/srv/jailer") spec.chroot_base refl in
    started-Understood full w (with_user full getent) p (λ spec'. with_user-Keeps full spec' getent)
      some_id some_base safe named h

-- A launch through the jailer that starts its script gives the script arguments that it understands:
-- they hold the machine's id, directory, boot arguments and socket, and the script makes the chroot
-- that the handle of the process names; for an id that the script takes as it is, and when the files
-- of the machine are named.
pub launch_jailed-Understood :
    (spec : JailedSpec) (getent : Bytes → Option Bytes) (w : Steps) (p : Process)
    → safe_vm_id spec.vm_id ≡ spec.vm_id
    → Named spec.launch_spec
    → launch_jailed spec getent w ≡ ok p
    → Understood spec p
unfolding launch_jailed
launch_jailed-Understood spec getent w p safe named h =
    launched_as-Understood spec getent w spec.vm_id p refl safe named h
