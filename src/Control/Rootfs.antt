-- ===== src/Control/Rootfs.antt =====
-- control-plane/internal/firecracker/rootfs.go: PrepareRootfs. A path is one inside the image, which is
-- where it leads below the mount point; which command works is an argument, `quote` is %q of fmt, and
-- a file that json.Marshal writes is its value. The modes of files are not modelled.
pub mod Image
use microvm_terminal.Base.{
  ℕ, zero, suc, ◌+◌, ◌*◌, Bool, true, false, ◌&&◌, not, Option, none, some, List, [], ◌∷◌, ◌++◌,
  Bytes, bytes, if◌then◌else◌,
}
use microvm_terminal.Base.Decimal.{decimal}
use microvm_terminal.Base.Map
use microvm_terminal.Base.Map.{GoMap}
use microvm_terminal.Base.Text.{bytes-eq}

abbrev pub guest_home : Bytes
guest_home = bytes "/home/dev"

abbrev pub guest_uid : ℕ
guest_uid = 1001

-- The texts of the address and the gateway are arguments.
pub record Inputs : Type 0 where
  pub ip : Bytes
  pub prefix_len : ℕ
  pub gateway : Bytes
  pub hostname : Bytes
  pub oauth_token : Bytes
  pub now_millis : ℕ

pub data Content : Type 0 where
  text : Bytes → Content
  directory : Content
  credentials : Bytes → Bytes → ℕ → Content
  onboarding : Bool → Content

pub record File : Type 0 where
  pub content : Content
  pub owner : ℕ

abbrev pub Files : Type 0
Files = GoMap Bytes File

pub data Action : Type 0 where
  write : Bytes → Content → Action
  mkdir_all : Bytes → Action
  chown : Bytes → Action
  sync : Action

abbrev pub owned : Bytes → Option File → Files → Files
owned path none files = files
owned path (some f) files = Map.insert path (record f { owner = guest_uid }) files

-- A new file is root's.
abbrev pub owner_of : Option File → ℕ
owner_of none = 0
owner_of (some f) = f.owner

unfoldable pub perform : Action → Files → Files
perform (write path content) files =
    Map.insert path (record { content = content; owner = owner_of (Map.lookup path files) }) files
perform (mkdir_all path) files =
    Map.insert path (record { content = directory; owner = owner_of (Map.lookup path files) }) files
perform (chown path) files = owned path (Map.lookup path files) files
perform sync files = files

unfoldable pub network_unit : Inputs → Bytes
network_unit i =
    bytes "[Match]\nName=eth0\n\n[Network]\nAddress="
    ++ (i.ip
        ++ b'/'
          ∷ (decimal i.prefix_len
              ++ (bytes "\nGateway=" ++ (i.gateway ++ bytes "\nDNS=1.1.1.1\nDNS=1.0.0.1\n"))))

abbrev pub claude_dir : Bytes
claude_dir = guest_home ++ bytes "/.claude"

abbrev pub year_millis : ℕ
year_millis = 350 * 24 * 3_600_000

unfoldable pub credentials_of : Inputs → Content
credentials_of i = credentials i.oauth_token i.oauth_token (i.now_millis + year_millis)

unfoldable pub write_owned_json : Bytes → Content → List Action
write_owned_json path v = write path v ∷ chown path ∷ []

-- Between the mount and the umount.
unfoldable pub actions : (Bytes → Bytes) → Inputs → List Action
actions quote i =
    write (bytes "/etc/systemd/network/10-eth0.network") (text (network_unit i))
    ∷ write (bytes "/etc/hostname") (text (i.hostname ++ bytes "\n"))
    ∷ write (bytes "/etc/profile.d/99-claude-token.sh")
        (text (bytes "export CLAUDE_CODE_OAUTH_TOKEN=" ++ (quote i.oauth_token ++ bytes "\n")))
    ∷ mkdir_all claude_dir
    ∷ chown claude_dir
    ∷ (write_owned_json (claude_dir ++ bytes "/.credentials.json") (credentials_of i)
        ++ (write_owned_json (guest_home ++ bytes "/.claude.json") (onboarding true) ++ sync ∷ []))

pub data Error : Type 0 where
  copy_failed mktemp_failed mount_failed umount_failed : Error
  action_failed : Action → Error

-- The first `works` actions work; the next one fails.
unfoldable pub perform_all : ℕ → List Action → Files → Files × Option Error
perform_all works [] files = (files, none)
perform_all zero (a ∷ more) files = (files, some (action_failed a))
perform_all (suc works) (a ∷ more) files = perform_all works more (perform a files)

-- Which command works; `umounts_again` is of the deferred umount.
pub record Works : Type 0 where
  pub copies : Bool
  pub makes_temp : Bool
  pub mounts : Bool
  pub actions : ℕ
  pub umounts : Bool
  pub umounts_again : Bool

-- What is left: the files of the image, and whether it is mounted and the mount point is there.
pub record Left : Type 0 where
  pub files : Files
  pub mounted : Bool
  pub mount_point : Bool
  pub error : Option Error

-- The deferred umount and the removal of the mount point, which has to be free.
abbrev pub deferred : Works → Files → Option Error → Left
deferred w files e = record {
  files = files;
  mounted = not w.umounts_again;
  mount_point = not w.umounts_again;
  error = e;
}

abbrev pub unmounted : Works → Files × Option Error → Left
unmounted w (files, some e) = deferred w files (some e)
unmounted w (files, none) =
    if w.umounts
    then record { files = files; mounted = false; mount_point = false; error = none }
    else deferred w files (some umount_failed)

abbrev pub untouched : Files → Error → Left
untouched files e = record { files = files; mounted = false; mount_point = false; error = some e }

-- `golden` are the files of the golden image.
unfoldable pub prepare_rootfs : (Bytes → Bytes) → Inputs → Works → Files → Left
prepare_rootfs quote i w golden =
    if not w.copies
    then untouched golden copy_failed
    else if not w.makes_temp
    then untouched golden mktemp_failed
    else if not w.mounts
    then untouched golden mount_failed
    else unmounted w (perform_all w.actions (actions quote i) golden)
