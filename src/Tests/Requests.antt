-- ===== src/Tests/Requests.antt =====
-- The theorems on requests to the directory of events and on the root.
use jdwpfs.Go.Decimal.{format_uint}
use jdwpfs.Main.{System, Served, serves, fuse_options, main}
use jdwpfs.Main.Laws.{Serves, main_lem}
use jdwpfs.Base.{
  arith, ◌++◌, ◌↔◌, List, [], ◌∷◌, length, some, none, false, ◌≡◌, refl, inl, inr, codes, text_eq,
}
use mathlib.Core.List.Perm
use jdwpfs.Base.Dict.{lookup}
use jdwpfs.Fs.Node.{mem_symlink, enoent}
use jdwpfs.Go.Sync.{done}
use jdwpfs.Debug.Manager.{World}
use jdwpfs.Fs.Events.{JdwpEventsMasterDir, new_jdwp_events_master_dir}
use jdwpfs.Fs.Debuggee.{Debuggee}
use jdwpfs.Fs.Safe.{IsSound, Safe}
use jdwpfs.Fs.Requests.{
  Setting, Request, make_event, write_file, make_link, list_events, read_file, follow_link,
  Response, shows, links_to, fails, serve,
}
use jdwpfs.Fs.Requests.Contents.{serve-shows}
use jdwpfs.Fs.Requests.Laws.{Crashes, serve-Safe}
use jdwpfs.Fs.Requests.Sequences.{CrashesAny, mounted, mounted-IsSound}
use jdwpfs.Fs.Root.{JdwpRootFs, pos, Network, new_jdwp_rootfs, address, itoa}
use jdwpfs.Fs.Root.Laws.{session, session-returns}
use jdwpfs.Tests.Data.{host, ranging, idle_world, world-IsValid, event-HasMaps}

abbrev process : Debuggee
process = record {
  get_all_threads = none;
  get_thread_name = λ _. none;
  get_thread_status = λ _. none;
  get_all_classes = none;
  get_methods = λ _. none;
  get_fields = λ _. none;
}

abbrev setting : Setting
setting = record {
  host = host;
  ranging = ranging;
  kind_string = λ _. codes "kind";
  policy_string = λ _. codes "policy";
  paths = record { abs = λ p. some p; eval_symlinks = λ p. some p };
  jvm = process;
  hooks_order = λ m. m;
  modifiers_order = λ m. m;
}

abbrev dir : JdwpEventsMasterDir
dir = record { registered = false; absolute_mountpoint = codes "/mnt" }

idle-IsSound : IsSound idle_world
idle-IsSound = record {
  valid = world-IsValid none;
  settled = λ p. record { unlocked = refl; paired = refl };
  maps = λ p. event-HasMaps none;
}

-- The event `a` is number 0, and has a hook `log`.
serve-shows_example :
    (serve setting dir (read_file (codes "a") (codes "control") 0) idle_world
      ≡ done (shows (codes "idle")) idle_world)
    × (serve setting dir (read_file (codes "a") (codes "kind") 0) idle_world
        ≡ done (shows (codes "kind")) idle_world)
    × (serve setting dir (read_file (codes "a") (codes "suspendPolicy") 0) idle_world
        ≡ done (shows (codes "policy")) idle_world)
    × (serve setting dir (follow_link (codes "a") (codes "hooks") (codes "log")) idle_world
        ≡ done (links_to (mem_symlink (codes "/log.so"))) idle_world)
    × (serve setting dir (follow_link (codes "a") (codes "location") (codes "log")) idle_world
        ≡ done (fails enoent) idle_world)
unfolding lookup text_eq
serve-shows_example =
    serve-shows setting dir idle_world idle-IsSound (codes "a") refl (λ m. Perm.refl m)
      (codes "log")

serve-Safe_example :
    Safe
      (Crashes setting dir (write_file (codes "a") (codes "control") (codes "1\n")))
      idle_world
      (serve setting dir (write_file (codes "a") (codes "control") (codes "1\n")) idle_world)
serve-Safe_example =
    serve-Safe setting dir idle_world idle-IsSound
      (write_file (codes "a") (codes "control") (codes "1\n"))

abbrev root : JdwpRootFs
root = record {
  absolute_mountpoint = codes "/mnt";
  host = codes "localhost";
  port = pos 8000;
  connection = 3;
  jdwp_connection = 7;
}

-- An event is made, linked to a plugin, and listed.
abbrev requests : List (Setting × Request)
requests =
    (setting, make_event (codes "a"))
    ∷ (setting, make_link (codes "a") (codes "hooks") (codes "/log.so") (codes "log"))
    ∷ (setting, list_events)
    ∷ []

no_crash : ¬ CrashesAny (new_jdwp_events_master_dir (codes "/mnt")) requests
unfolding new_jdwp_events_master_dir
no_crash (inr (inl (p, slashes, e, e', q))) = ground arith
no_crash (inl x) = x
no_crash (inr (inr (inl x))) = x
no_crash (inr (inr (inr x))) = x

session-returns_example :
    (responses : List Response) × (w' : World) × (session root requests (mounted none)
      ≡ done responses w')
    × (length responses ≡ 3)
    × IsSound w'
session-returns_example =
    session-returns root requests (mounted none) (mounted-IsSound none).settled
      (mounted-IsSound none).maps no_crash

abbrev net : Network
net = record { dial = λ _. inr 3; open_jdwp = λ _. inr 7 }

-- A system in which every call succeeds.
abbrev sys : System
sys = record {
  parse_args = λ argv. some (
    record { debugged_host = codes "localhost"; debugged_port = pos 8000 },
    codes "jdwpfs" ∷ codes "mnt" ∷ [],
  );
  stat = λ _. none;
  abs = λ p. codes "/" ++ p;
  network = net;
  mount = λ _ _ _. none;
  getuid = 1000;
  getgid = 1000;
}

served : Served
served = record { mountpoint = codes "mnt"; root = root; options = fuse_options sys }

main_lem_example :
    (main sys (codes "jdwpfs" ∷ codes "mnt" ∷ []) ≡ serves served)
    ↔ Serves sys (codes "jdwpfs" ∷ codes "mnt" ∷ []) served
main_lem_example = main_lem sys (codes "jdwpfs" ∷ codes "mnt" ∷ []) served

-- It does serve.
main_serves : main sys (codes "jdwpfs" ∷ codes "mnt" ∷ []) ≡ serves served
unfolding main served new_jdwp_rootfs text_eq
main_serves = refl

-- It does connect.
root_connects : new_jdwp_rootfs net (codes "/mnt") (codes "localhost") (pos 8000) ≡ inr root
unfolding new_jdwp_rootfs text_eq
root_connects = refl

address_text : address (codes "localhost") (pos 8000) ≡ codes "localhost:8000"
unfolding address itoa format_uint
address_text = refl
