-- ===== src/Fs/Root.antt =====
-- fs/rootfs.go: the root of the file system. Connecting is the work of the libraries.
pub mod Laws
use jdwpfs.Base.{
  ℕ, zero, suc, List, [], ◌∷◌, ◌++◌, Bool, true, false, Option, none, some, ◌≡◌, refl, ◌⊎◌, inl,
  inr, Bytes, codes, ltb, text_eq, if◌then◌else◌,
}
use jdwpfs.Go.Decimal.{format_uint}
use jdwpfs.Go.Sync.{M, pure, ◌>>=◌, ◌>>◌, modify}
use jdwpfs.Debug.Manager.{World, new_event_manager}
use jdwpfs.Fs.Node.{Mode, directory, AttrOut, MemRegularFile, mem_regular_file}
use jdwpfs.Fs.ThreadsNamed.{JdwpThreadNamedDir, new_jdwp_thread_named_dir}
use jdwpfs.Fs.ClassesBySignature.{JdwpClassNamedMasterDir, new_jdwp_class_named_master_dir}
use jdwpfs.Fs.Events.{JdwpEventsMasterDir, new_jdwp_events_master_dir}

-- Go's `int`, which a port is: `negsuc n` is `- (n + 1)`.
pub data ℤ : Type 0 where
  pos : ℕ → ℤ
  negsuc : ℕ → ℤ

unfoldable pub itoa : ℤ → Bytes
itoa (pos n) = format_uint n
itoa (negsuc n) = codes "-" ++ format_uint (suc n)

abbrev pub below_one : ℤ → Bool
below_one (pos n) = ltb n 1
below_one (negsuc n) = true

-- An error of the libraries is its text.
pub record JdwpProtocolError : Type 0 where
  pub err : Option Bytes
  pub message : Bytes

unfoldable pub print : JdwpProtocolError → Bytes
print e = elim e.err [
  | some text ↦ codes "jdwp protocol error: " ++ text
  | none ↦ codes "jdwp protocol error: " ++ e.message
]

-- `net.Dial("tcp", address)` and `jdwp.Open` on the connection that it makes; both connections are
-- numbers.
pub record Network : Type 0 where
  pub dial : Bytes → Bytes ⊎ ℕ
  pub open_jdwp : ℕ → Bytes ⊎ ℕ

pub record JdwpRootFs : Type 0 where
  pub absolute_mountpoint : Bytes
  pub host : Bytes
  pub port : ℤ
  pub connection : ℕ
  pub jdwp_connection : ℕ

unfoldable pub address : Bytes → ℤ → Bytes
address host port = host ++ codes ":" ++ itoa port

wrap : Bytes → JdwpProtocolError ⊎ JdwpRootFs
wrap text = inl (record { err = some text; message = [] })

refuse : Bytes → JdwpProtocolError ⊎ JdwpRootFs
refuse message = inl (record { err = none; message = message })

unfoldable pub new_jdwp_rootfs : Network → Bytes → Bytes → ℤ → JdwpProtocolError ⊎ JdwpRootFs
unfolding wrap refuse
new_jdwp_rootfs net mountpoint host port =
    if below_one port
    then refuse (codes "port " ++ itoa port ++ codes " cannot exist")
    else if text_eq host []
    then refuse (codes "host " ++ host ++ codes " cannot exist")
    else elim (net.dial (address host port)) [
      | inl e ↦ wrap e
      | inr tcp ↦ elim (net.open_jdwp tcp) [
        | inl e ↦ wrap e
        | inr conn ↦ inr (record {
          absolute_mountpoint = mountpoint;
          host = host;
          port = port;
          connection = tcp;
          jdwp_connection = conn;
        })
      ]
    ]

-- What stands below the root. The directories of all threads and of all classes have no state.
pub data Node : Type 0 where
  file : MemRegularFile → Node
  threads : Node
  threads_by_name : JdwpThreadNamedDir → Node
  classes : Node
  classes_by_signature : JdwpClassNamedMasterDir → Node
  events : JdwpEventsMasterDir → Node

-- `fs.StableAttr`; `none` is the mode 0 of the two files.
pub record StableAttr : Type 0 where
  pub mode : Option Mode
  pub ino : ℕ

-- One call of `AddChild`, whose result the program drops.
pub record AddedChild : Type 0 where
  pub name : Bytes
  pub node : Node
  pub attr : StableAttr
  pub overwrite : Bool

abbrev child : Bytes → Node → Option Mode → ℕ → AddedChild
child name node mode ino = record {
  name = name;
  node = node;
  attr = record { mode = mode; ino = ino };
  overwrite = false;
}

-- The calls of `AddChild`, in order.
unfoldable pub added_children : JdwpRootFs → List AddedChild
added_children r =
    child (codes "host") (file (mem_regular_file r.host)) none 2
    ∷ child (codes "port") (file (mem_regular_file (itoa r.port))) none 3
    ∷ child (codes "threads") threads (some directory) 4
    ∷ child (codes "threads_by_name")
        (threads_by_name (new_jdwp_thread_named_dir r.absolute_mountpoint)) (some directory) 5
    ∷ child (codes "classes") classes (some directory) 6
    ∷ child (codes "classes_by_signature")
        (classes_by_signature (new_jdwp_class_named_master_dir r.absolute_mountpoint))
        (some directory) 7
    ∷ child (codes "events") (events (new_jdwp_events_master_dir r.absolute_mountpoint))
        (some directory) 8
    ∷ []

-- The directory of the events makes the manager.
unfoldable pub on_add : JdwpRootFs → M World (List AddedChild)
unfolding added_children
on_add r = do
  _ ← modify (λ w. record w { manager = new_event_manager (some r.jdwp_connection) })
  pure (added_children r)

abbrev pub get_attr : AttrOut → AttrOut
get_attr out = record out { mode = 0o755 }
