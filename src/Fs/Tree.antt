-- ===== src/Fs/Tree.antt =====
-- Paths below the mount point, as the system walks them: one `Lookup` for each name, from the root
-- of fs/rootfs.go on. The directory of the events keeps state and is not walked here.
pub mod Follow
pub mod ClassLinks
pub mod ThreadLinks
pub mod LocationLinks
use jdwpfs.Base.{ℕ, List, [], ◌∷◌, ◌++◌, Option, none, some, Bytes, codes, text_eq, if◌then◌else◌}
use jdwpfs.Go.Split.{split, has_prefix, trim_prefix}
use jdwpfs.Fs.Node.{Reply, reply, fail, MemRegularFile, MemSymlink, mem_symlink}
use jdwpfs.Fs.Debuggee.{Debuggee}
use jdwpfs.Fs.ThreadControl.{ControlFile}
use jdwpfs.Fs.ThreadDir
use jdwpfs.Fs.ThreadDir.{JdwpThreadDir}
use jdwpfs.Fs.Threads
use jdwpfs.Fs.ThreadsNamed
use jdwpfs.Fs.Members.{MemberDir}
use jdwpfs.Fs.ClassInfo
use jdwpfs.Fs.ClassInfo.{
  Sorting, JdwpClassInfoDir, ClassMethodMasterDir, ClassFieldMasterDir, look_up_methods,
  look_up_fields, look_up_method, look_up_field,
}
use jdwpfs.Fs.Classes
use jdwpfs.Fs.ClassesBySignature
use jdwpfs.Fs.Root.{
  Node, file, threads, threads_by_name, classes, classes_by_signature, events, AddedChild,
}

-- What surrounds a walk: the debugged process as it is then, the texts of its statuses, and the
-- library's sorting.
pub record View : Type 0 where
  pub jvm : Debuggee
  pub sorting : Sorting
  pub thread_status_string : ℕ → Bytes
  pub suspend_status_string : ℕ → Bytes

pub data Place : Type 0 where
  root : Place
  below_root : Node → Place
  thread : JdwpThreadDir → Place
  control_file : ControlFile → Place
  class_info : JdwpClassInfoDir → Place
  methods : ClassMethodMasterDir → Place
  fields : ClassFieldMasterDir → Place
  method : MemberDir → Place
  field : MemberDir → Place
  text_file : MemRegularFile → Place
  symbolic_link : MemSymlink → Place

place : {A : Type 0} → (A → Place) → Reply A → Option Place
place f (reply a) = some (f a)
place f (fail e) = none

of_threads : Threads.Child → Place
of_threads (Threads.master_control c) = control_file c
of_threads (Threads.thread_dir d) = thread d

of_thread : ThreadDir.Child → Place
of_thread (ThreadDir.text_file f) = text_file f
of_thread (ThreadDir.control c) = control_file c

of_class : ClassInfo.Child → Place
of_class (ClassInfo.text_file f) = text_file f
of_class (ClassInfo.methods d) = methods d
of_class (ClassInfo.fields d) = fields d

-- The library finds a child of the root by its name.
unfoldable pub find_child : Bytes → List AddedChild → Option Node
find_child name [] = none
find_child name (c ∷ cs) =
    let rest = find_child name cs in if text_eq c.name name then some c.node else rest

below : View → Node → Bytes → Option Place
unfolding place of_threads
below v (file f) name = none
below v threads name = place (λ r. of_threads r.1) (Threads.look_up v.jvm name)
below v (threads_by_name d) name = place symbolic_link (ThreadsNamed.look_up v.jvm d name)
below v classes name = place (λ r. class_info r.1) (Classes.look_up name)
below v (classes_by_signature d) name =
    place symbolic_link (ClassesBySignature.look_up v.jvm d name)
below v (events d) name = none

unfoldable pub step : View → List AddedChild → Place → Bytes → Option Place
unfolding place of_thread of_class below
step v children root name = elim (find_child name children) [
  | none ↦ none
  | some n ↦ some (below_root n)
]
step v children (below_root n) name = below v n name
step v children (thread d) name =
    place (λ r. of_thread r.1)
      (ThreadDir.look_up v.thread_status_string v.suspend_status_string v.jvm d name)
step v children (class_info d) name =
    place (λ r. of_class r.1) (ClassInfo.look_up v.sorting v.jvm d name)
step v children (methods d) name = place (λ r. method r.1) (look_up_methods v.jvm d name)
step v children (fields d) name = place (λ r. field r.1) (look_up_fields v.jvm d name)
step v children (method d) name = place (λ r. text_file r.1) (look_up_method v.jvm d name)
step v children (field d) name = place (λ r. text_file r.1) (look_up_field v.jvm d name)
step v children _ name = none

unfoldable pub walk : View → List AddedChild → Place → List Bytes → Option Place
walk v children p [] = some p
walk v children p (name ∷ names) = elim (step v children p name) [
  | none ↦ none
  | some q ↦ walk v children q names
]

-- Where an absolute path leads that begins with the mount point.
unfoldable pub follow : View → List AddedChild → Bytes → Bytes → Option Place
follow v children mountpoint path =
    if has_prefix path (mountpoint ++ codes "/")
    then walk v children root (split b'/' (trim_prefix path (mountpoint ++ codes "/")))
    else none
