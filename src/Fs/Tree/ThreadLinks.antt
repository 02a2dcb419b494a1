-- ===== src/Fs/Tree/ThreadLinks.antt =====
-- On the links of fs/threads_named.go, walked from the root.
use jdwpfs.Base.{
  map, ℕ, List, [], ◌∷◌, ◌++◌, ◌≤◌, All, All-middle, false, some, ◌≡◌, ◌≢◌, refl, ap, ◌∙◌, Bytes,
  codes, text_eq,
}
use jdwpfs.Go.Decimal.{max_u64, format_uint}
use jdwpfs.Go.Filepath.Clean.{IsName, IsAbsolute, join_path-append}
use jdwpfs.Fs.Node.{reply, mem_symlink, mem_regular_file}
use jdwpfs.Fs.Root.{JdwpRootFs, added_children}
use jdwpfs.Fs.ThreadDir
use jdwpfs.Fs.ThreadDir.{new_jdwp_thread_dir}
use jdwpfs.Fs.Threads.Laws as ThreadLaws
use jdwpfs.Fs.ThreadsNamed
use jdwpfs.Fs.ThreadsNamed.{thread_path, new_jdwp_thread_named_dir}
use jdwpfs.Fs.ThreadsNamed.Laws.{entry_of, Named, look_up-find_thread}
use jdwpfs.Fs.Tree.{
  View, root, symbolic_link, text_file, thread, of_threads, of_thread, find_child, step, walk,
  follow, below, place,
}
use jdwpfs.Fs.Tree.Follow.{follow-join, format_uint-IsName, behind_slash, behind_slash-IsName}

module _ (v : View) (r : JdwpRootFs) (name_of : ℕ → Bytes) where
  threads_IsName : IsName (codes "threads")
  unfolding behind_slash
  threads_IsName = behind_slash-IsName _ _ refl

  below_threads :
      (id : ℕ)
      → id ≤ max_u64
      → walk v (added_children r) root (codes "threads" ∷ format_uint id ∷ [])
        ≡ some (thread (new_jdwp_thread_dir id))
  unfolding walk step find_child below place of_threads added_children text_eq
  below_threads id h = rw (walk, ThreadLaws.look_up-format_uint v.jvm id h) refl

  follow-thread_path :
      (id : ℕ)
      → id ≤ max_u64
      → IsAbsolute r.absolute_mountpoint
      → follow v
          (added_children r)
          r.absolute_mountpoint
          (thread_path (new_jdwp_thread_named_dir r.absolute_mountpoint) id)
        ≡ some (thread (new_jdwp_thread_dir id))
  unfolding thread_path new_jdwp_thread_named_dir
  follow-thread_path id h a =
      ap (follow v (added_children r) r.absolute_mountpoint) (
        join_path-append r.absolute_mountpoint (codes "threads") (format_uint id ∷ []) a
          (threads_IsName, (format_uint-IsName id, tt)))
      ∙ follow-join v (added_children r) r.absolute_mountpoint (codes "threads")
          (format_uint id ∷ [])
          (threads_IsName.lacks_slash, ((format_uint-IsName id).lacks_slash, tt))
      ∙ below_threads id h

  name_shown :
      (id : ℕ)
      → v.jvm.get_thread_name id ≡ some (name_of id)
      → walk v (added_children r) (thread (new_jdwp_thread_dir id)) (codes "name" ∷ [])
        ≡ some (text_file (mem_regular_file (name_of id)))
  unfolding walk step place of_thread ThreadDir.look_up text_eq new_jdwp_thread_dir
  name_shown id q = rw (walk, q) refl

  -- Let the mount point be a clean absolute path that is not `/`, and let the debugged process
  -- answer the names of all threads that it lists. For a thread whose identifier is below 2^64
  -- and not 0, and behind which no thread of the same name is listed, `threads_by_name` lists
  -- the names of all threads, and looks this one up as a link. The path that it shows, walked
  -- from the root name by name, leads to the directory of that thread, and the file `name`
  -- there holds the name.
  pub follow-thread_link :
      (before : List ℕ) (id : ℕ) (behind : List ℕ)
      → v.jvm.get_all_threads ≡ some (before ++ id ∷ behind)
      → Named v.jvm name_of (before ++ id ∷ behind)
      → id ≢ 0
      → id ≤ max_u64
      → All (λ j. text_eq (name_of j) (name_of id) ≡ false) behind
      → IsAbsolute r.absolute_mountpoint
      → (path : Bytes) × (walk v (added_children r) root (codes "threads_by_name" ∷ name_of id ∷ [])
          ≡ some (symbolic_link (mem_symlink path)))
        × (follow v (added_children r) r.absolute_mountpoint path
            ≡ some (thread (new_jdwp_thread_dir id)))
        × (walk v (added_children r) (thread (new_jdwp_thread_dir id)) (codes "name" ∷ [])
            ≡ some (text_file (mem_regular_file (name_of id))))
        × (ThreadsNamed.readdir v.jvm
            ≡ reply (map (entry_of v.jvm name_of) (before ++ id ∷ behind)))
  unfolding walk step find_child below place added_children text_eq
  follow-thread_link before id behind q names nonzero bound last a =
      let found =
        (look_up-find_thread v.jvm name_of (new_jdwp_thread_named_dir r.absolute_mountpoint) before
          id behind q names nonzero last) in
      (
        _,
        rw (walk, found.1) refl,
        follow-thread_path id bound a,
        name_shown id
            (All-middle (λ j. v.jvm.get_thread_name j ≡ some (name_of j)) before id behind names),
        found.0,
      )
