-- ===== src/Main.antt =====
-- main.go: the command, up to where it waits for the file system to be unmounted.
pub mod Laws
pub mod Waiting
use jdwpfs.Base.{
  ℕ, ◌%◌, ◌^◌, List, [], ◌∷◌, Bool, true, false, if◌then◌else◌, Option, none, some, inl, inr, Bytes,
  codes,
}
use jdwpfs.Fs.Root.{ℤ, Network, JdwpRootFs, new_jdwp_rootfs, print}

pub record Options : Type 0 where
  pub debugged_host : Bytes
  pub debugged_port : ℤ

-- `fs.Options` with `fuse.MountOptions`, in what the program sets.
pub record FuseOptions : Type 0 where
  pub allow_other : Bool
  pub max_background : ℕ
  pub fs_name : Bytes
  pub name : Bytes
  pub uid : ℕ
  pub gid : ℕ

-- What the program calls: `flags.ParseArgs`, with `none` for an error, else the options and the
-- arguments left over; `os.Stat`, with the text of its error; the path of `filepath.Abs`, whose
-- error is dropped; `fs.Mount`, with the text of its error.
pub record System : Type 0 where
  pub parse_args : List Bytes → Option (Options × List Bytes)
  pub stat : Bytes → Option Bytes
  pub abs : Bytes → Bytes
  pub network : Network
  pub mount : Bytes → JdwpRootFs → FuseOptions → Option Bytes
  pub getuid : ℕ
  pub getgid : ℕ

-- A file system that is mounted and waited for.
pub record Served : Type 0 where
  pub mountpoint : Bytes
  pub root : JdwpRootFs
  pub options : FuseOptions

-- `exits` is `os.Exit`, also that of `log.Fatalf`, which exits with 1.
pub data Ending : Type 0 where
  exits : ℕ → Ending
  panics : Bytes → Ending
  serves : Served → Ending

module _ (sys : System) where
  unfoldable pub fuse_options : FuseOptions
  fuse_options = record {
    allow_other = true;
    max_background = 8;
    fs_name = codes "jdwpfs";
    name = codes "jdwpfs";
    uid = sys.getuid % 2 ^ 32;
    gid = sys.getgid % 2 ^ 32;
  }

  mount_root : Bytes → JdwpRootFs → Ending
  mount_root mountpoint root = elim (sys.mount mountpoint root fuse_options) [
    | some _ ↦ exits 1
    | none ↦ serves (record { mountpoint = mountpoint; root = root; options = fuse_options })
  ]

  connect : Options → Bytes → Ending
  unfolding mount_root
  connect opts mountpoint = elim (sys.stat mountpoint) [
    | some text ↦ panics text
    | none ↦
        elim (new_jdwp_rootfs sys.network (sys.abs mountpoint) opts.debugged_host
          opts.debugged_port) [ inl e ↦ panics (print e) | inr root ↦ mount_root mountpoint root ]
  ]

  -- The arguments begin with the program's name.
  with_args : Options → List Bytes → Ending
  unfolding connect
  with_args opts (program ∷ mountpoint ∷ []) = connect opts mountpoint
  with_args opts _ = exits 1

  unfoldable pub main : List Bytes → Ending
  unfolding with_args
  main argv = elim (sys.parse_args argv) [
    | none ↦ exits 0
    | some (opts, args) ↦ with_args opts args
  ]

-- What happens while the command waits: SIGINT or SIGTERM arrives, or the file system is unmounted
-- from outside.
pub data WaitEvent : Type 0 where
  signal unmounted : WaitEvent

-- Whether `server.Wait` has returned. The goroutine receives one signal and calls `Unmount`, which
-- succeeds or not; its error is dropped, and later signals are received by nobody.
unfoldable pub wait : (unmount_succeeds received : Bool) → List WaitEvent → Bool
wait unmount_succeeds received [] = false
wait unmount_succeeds received (unmounted ∷ events) = true
wait unmount_succeeds received (signal ∷ events) =
    let rest = wait unmount_succeeds true events in
    if received then rest else if unmount_succeeds then true else rest
