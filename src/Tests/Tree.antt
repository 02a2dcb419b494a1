-- ===== src/Tests/Tree.antt =====
-- The theorems on the links of the program, walked from the root.
use jdwpfs.Base.{
  map, ℕ, [], ◌∷◌, none, some, false, ◌≡◌, refl, arith, Bytes, codes, text_eq, last_match, ◌==◌,
  if◌then◌else◌,
}
use jdwpfs.Go.Split.{join, trim_right_byte}
use jdwpfs.Go.Decimal.{format_uint}
use jdwpfs.Go.PathEscape.{path_escape}
use jdwpfs.Go.Filepath.Clean.{IsAbsolute}
use jdwpfs.Debug.Event.{ModifierDescriptor}
use jdwpfs.Fs.ClassesBySignature
use jdwpfs.Fs.ClassesBySignature.Laws as ClassLaws
use jdwpfs.Fs.ThreadsNamed
use jdwpfs.Fs.Node.{reply, link, mem_symlink, mem_regular_file}
use jdwpfs.Fs.Debuggee.{Debuggee, ClassInfo, Member}
use jdwpfs.Fs.Root.{JdwpRootFs, pos, added_children}
use jdwpfs.Fs.ThreadDir.{new_jdwp_thread_dir}
use jdwpfs.Fs.ClassInfo.{new_jdwp_class_info_dir}
use jdwpfs.Fs.Location
use jdwpfs.Fs.Location.Laws.{IsKnown}
use jdwpfs.Fs.Tree.{View, root, thread, class_info, method, text_file, symbolic_link, walk, follow}
use jdwpfs.Fs.Tree.Follow.{behind_slash, behind_slash-IsName}
use jdwpfs.Fs.Tree.ClassLinks.{follow-class_link}
use jdwpfs.Fs.Tree.ThreadLinks.{follow-thread_link}
use jdwpfs.Fs.Tree.LocationLinks.{follow-target_of}
use jdwpfs.Tests.Sorting.{sorting}

abbrev class : ClassInfo
class = record { kind = 1; type_id = 8; class_id = 8; signature = codes "Ljava/A;" }

abbrev member : Member
member = record { id = 12; name = codes "main"; signature = codes "()V"; mod_bits = codes "" }

abbrev thread_name : ℕ → Bytes
thread_name id = if id == 3 then codes "gc" else codes "main"

abbrev process : Debuggee
process = record {
  get_all_threads = some (1 ∷ 12 ∷ 3 ∷ []);
  get_thread_name = λ id. some (thread_name id);
  get_thread_status = λ _. none;
  get_all_classes = some (class ∷ []);
  get_methods = λ _. some (member ∷ []);
  get_fields = λ _. some [];
}

abbrev view : View
view = record {
  jvm = process;
  sorting = sorting;
  thread_status_string = λ _. codes "";
  suspend_status_string = λ _. codes "";
}

abbrev root_fs : JdwpRootFs
root_fs = record {
  absolute_mountpoint = codes "/mnt";
  host = codes "localhost";
  port = pos 8000;
  connection = 3;
  jdwp_connection = 7;
}

mnt-IsAbsolute : IsAbsolute (codes "/mnt")
unfolding join behind_slash
mnt-IsAbsolute = record {
  first = codes "mnt";
  names = [];
  path-eq = refl;
  are_names = (behind_slash-IsName _ _ refl, tt);
}

follow-class_link_example :
    (path : Bytes) × (walk view
        (added_children root_fs)
        root
        (codes "classes_by_signature" ∷ path_escape (codes "Ljava/A;") ∷ [])
      ≡ some (symbolic_link (mem_symlink path)))
    × (follow view (added_children root_fs) (codes "/mnt") path
        ≡ some (class_info (new_jdwp_class_info_dir 8)))
    × (walk view
          (added_children root_fs)
          (class_info (new_jdwp_class_info_dir 8))
          (codes "signature" ∷ [])
        ≡ some (text_file (mem_regular_file (codes "Ljava/A;"))))
    × (ClassesBySignature.readdir process ≡ reply (map ClassLaws.entry_of (class ∷ [])))
follow-class_link_example =
    follow-class_link view root_fs [] class [] refl (λ e. omega (arith, e)) (omega arith)
      (ground arith) tt tt mnt-IsAbsolute

follow-thread_link_example :
    (path : Bytes) × (walk view
        (added_children root_fs)
        root
        (codes "threads_by_name" ∷ codes "main" ∷ [])
      ≡ some (symbolic_link (mem_symlink path)))
    × (follow view (added_children root_fs) (codes "/mnt") path
        ≡ some (thread (new_jdwp_thread_dir 12)))
    × (walk view (added_children root_fs) (thread (new_jdwp_thread_dir 12)) (codes "name" ∷ [])
        ≡ some (text_file (mem_regular_file (codes "main"))))
    × (ThreadsNamed.readdir process
        ≡ reply (
            record { mode = link; name = codes "main" }
            ∷ record { mode = link; name = codes "main" }
            ∷ record { mode = link; name = codes "gc" }
            ∷ []))
unfolding text_eq
follow-thread_link_example =
    follow-thread_link view root_fs thread_name (1 ∷ []) 12 (3 ∷ []) refl (refl, (refl, (refl, tt)))
      (λ e. omega (arith, e)) (omega arith) (refl, tt) mnt-IsAbsolute

-- The method of the class, under the name `m`.
abbrev modifier : ModifierDescriptor
modifier = record { name = codes "m"; kind = 1; is_field = false; class_id = 8; object_id = 12 }

modifier-IsKnown : IsKnown process modifier class
unfolding Location.find_class Location.find_member last_match
modifier-IsKnown = record {
  class_fits = omega arith;
  object_fits = omega arith;
  classes = class ∷ [];
  listed = refl;
  class_found = refl;
  members = member ∷ [];
  has_members = refl;
  member = member;
  member_found = refl;
  kind_of_class = refl;
}

follow-target_of_example :
    follow view (added_children root_fs) (codes "/mnt") (codes "/mnt/classes/8/methods/12")
    ≡ some (method (record { type_id = 8; member_id = 12 }))
unfolding Location.target_of join format_uint trim_right_byte
follow-target_of_example =
    follow-target_of view root_fs modifier class (codes "/mnt") modifier-IsKnown refl
