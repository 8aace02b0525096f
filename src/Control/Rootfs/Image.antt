-- ===== src/Control/Rootfs/Image.antt =====
-- What is in an image that has been prepared, and that no mount is left behind.
use microvm_terminal.Base.{
  ◌≡◌, refl, ap, true, false, not, Option, none, some, List, [], ◌∷◌, ◌++◌, Bytes, bytes, arith,
  inl, inr,
}
use microvm_terminal.Base.Map
use microvm_terminal.Base.Map.{GoMap, lookup-insert}
use microvm_terminal.Base.Tests.{Bool-cases}
use microvm_terminal.Base.Text.{bytes-eq}
use microvm_terminal.Control.Rootfs.{
  Inputs, text, directory, onboarding, Files, Action, perform, network_unit, credentials_of,
  actions, Error, perform_all, Works, unmounted, prepare_rootfs, guest_uid, owner_of,
}

unmounted-clean :
    (w : Works) (r : Files × Option Error)
    → w.umounts_again ≡ true
    → ((unmounted w r).mounted ≡ false) × ((unmounted w r).mount_point ≡ false)
unmounted-clean w (files, some e) works = (ap not works, ap not works)
unmounted-clean w (files, none) works = elim (Bool-cases w.umounts) [
  | inl done ↦ simp done (refl, refl)
  | inr stays ↦ simp stays (ap not works, ap not works)
]

-- Whatever step fails, the image is not left mounted and the mount point is removed, when the umount
-- that is tried at the end works.
prepare_rootfs-clean :
    (quote : Bytes → Bytes) (i : Inputs) (w : Works) (golden : Files)
    → w.umounts_again ≡ true
    → ((prepare_rootfs quote i w golden).mounted ≡ false)
      × ((prepare_rootfs quote i w golden).mount_point ≡ false)
unfolding prepare_rootfs
prepare_rootfs-clean quote i w golden works =
    let left = unmounted-clean w (perform_all w.actions (actions quote i) golden) works in
    ground (arith, left.0, left.1)

-- What all of the actions make of the files.
abbrev pub performed : List Action → Files → Files
performed [] files = files
performed (a ∷ more) files = performed more (perform a files)

-- Claude Code finds its credentials, and a user that needs no onboarding; both files are the guest
-- user's. The network and the name are set.
pub record LoggedIn (i : Inputs) (golden files : Files) : Type 0 where
  pub credentials_file :
      Map.lookup (bytes "/home/dev/.claude/.credentials.json") files
      ≡ some (record { content = credentials_of i; owner = guest_uid })
  pub state :
      Map.lookup (bytes "/home/dev/.claude.json") files
      ≡ some (record { content = onboarding true; owner = guest_uid })
  pub directory_owner :
      Map.lookup (bytes "/home/dev/.claude") files
      ≡ some (record { content = directory; owner = guest_uid })
  pub network :
      Map.lookup (bytes "/etc/systemd/network/10-eth0.network") files
      ≡ some (record {
        content = text (network_unit i);
        owner = owner_of (Map.lookup (bytes "/etc/systemd/network/10-eth0.network") golden);
      })
  pub hostname :
      Map.lookup (bytes "/etc/hostname") files
      ≡ some (record {
        content = text (i.hostname ++ bytes "\n");
        owner = owner_of (Map.lookup (bytes "/etc/hostname") golden);
      })
