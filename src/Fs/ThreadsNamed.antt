-- ===== src/Fs/ThreadsNamed.antt =====
-- fs/threads_named.go: links to the threads by their names.
pub mod Laws
use jdwpfs.Base.{ℕ, List, [], ◌∷◌, ◌++◌, none, some, Bytes, codes, text_eq, ◌==◌, if◌then◌else◌}
use jdwpfs.Go.Filepath.{join_path}
use jdwpfs.Go.Decimal.{format_uint}
use jdwpfs.Fs.Node.{
  Reply, reply, fail, ebadf, eaddrnotavail, link, DirEntry, AttrOut, MemSymlink, mem_symlink,
}
use jdwpfs.Fs.Debuggee.{Debuggee}

pub record JdwpThreadNamedDir : Type 0 where
  pub absolute_mountpoint : Bytes

-- The error result is always nil.
unfoldable pub new_jdwp_thread_named_dir : Bytes → JdwpThreadNamedDir
new_jdwp_thread_named_dir mountpoint = record { absolute_mountpoint = mountpoint }

abbrev pub get_attr : JdwpThreadNamedDir → AttrOut → AttrOut
get_attr d out = record out { mode = 0o755 }

-- The loop of `Readdir`.
unfoldable pub name_entries : Debuggee → List DirEntry → List ℕ → Reply (List DirEntry)
name_entries jvm entries [] = reply entries
name_entries jvm entries (id ∷ ids) = elim (jvm.get_thread_name id) [
  | none ↦ fail ebadf
  | some name ↦ name_entries jvm (entries ++ record { mode = link; name = name } ∷ []) ids
]

unfoldable pub readdir : Debuggee → Reply (List DirEntry)
readdir jvm = elim jvm.get_all_threads [
  | none ↦ fail eaddrnotavail
  | some ids ↦ name_entries jvm [] ids
]

-- The loop of `Lookup`, whose variable starts at 0.
unfoldable pub find_thread : Debuggee → Bytes → ℕ → List ℕ → Reply ℕ
find_thread jvm searched found [] = reply found
find_thread jvm searched found (id ∷ ids) = elim (jvm.get_thread_name id) [
  | none ↦ fail ebadf
  | some name ↦ find_thread jvm searched (if text_eq name searched then id else found) ids
]

unfoldable pub thread_path : JdwpThreadNamedDir → ℕ → Bytes
thread_path d id = join_path (d.absolute_mountpoint ∷ codes "threads" ∷ format_uint id ∷ [])

unfoldable pub look_up : Debuggee → JdwpThreadNamedDir → Bytes → Reply MemSymlink
look_up jvm d name = elim jvm.get_all_threads [
  | none ↦ fail ebadf
  | some ids ↦ elim (find_thread jvm name 0 ids) [
    | fail e ↦ fail e
    | reply id ↦ if id == 0 then fail ebadf else reply (mem_symlink (thread_path d id))
  ]
]
