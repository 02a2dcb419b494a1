-- ===== src/Fs/Requests/Contents.antt =====
-- On what the entries of an event's directory show: fs/event_dir.go and fs/event_control_files.go.
use mathlib.Core.List.{Perm}
use jdwpfs.Base.{
  ℕ, Option, none, some, Bool, true, false, ◌≡◌, refl, ◌∙◌, ap, arith, Bytes, codes, text_eq,
  Option-cases, inl, inr, if◌then◌else◌,
}
use jdwpfs.Base.Dict.{Dict, lookup}
use jdwpfs.Go.Sync.{done, M, ◌>>=◌}
use jdwpfs.Debug.Event.{ModifierDescriptor, get_kind, get_suspend_policy, get_modifiers}
use jdwpfs.Debug.Event.Methods.{get_kind_lem, get_suspend_policy_lem, get_modifiers_lem}
use jdwpfs.Debug.Manager.{World, receiver}
use jdwpfs.Debug.Manager.Registry.{registry}
use jdwpfs.Debug.Manager.Frame.{runs, is_running-runs, on_event-same}
use jdwpfs.Fs.Node.{reply, enoent, Mode, mem_symlink, read_from}
use jdwpfs.Fs.Control
use jdwpfs.Fs.Control.{new_event_control_file}
use jdwpfs.Fs.Kind
use jdwpfs.Fs.Kind.{new_event_kind_file}
use jdwpfs.Fs.Policy
use jdwpfs.Fs.Policy.{new_event_suspend_policy_file}
use jdwpfs.Fs.Hooks.{new_event_hooks_directory}
use jdwpfs.Fs.Hooks.Laws.{readdir-look_up}
use jdwpfs.Fs.Location
use jdwpfs.Fs.Location.{new_event_location_directory, target_of}
use jdwpfs.Fs.EventDir
use jdwpfs.Fs.EventDir.{Child, control, kind, suspend_policy, hooks, location}
use jdwpfs.Fs.Events.{JdwpEventsMasterDir}
use jdwpfs.Fs.Events.Laws.{dir_of, look_up-registry}
use jdwpfs.Fs.Safe.{IsSound}
use jdwpfs.Fs.Requests.{
  Setting, Response, fails, shows, links_to, answer, read_file, follow_link, serve, at_child,
  at_event, on_found, read_child, follow_child,
}

-- The response with the target of a link, or ENOENT where there is none.
abbrev pub links : Option Bytes → Response
links none = fails enoent
links (some target) = links_to (mem_symlink target)

-- The path of a modifier's location, if there is the modifier.
abbrev pub located : Bytes → Option ModifierDescriptor → Option Bytes
located mountpoint none = none
located mountpoint (some m) = some (target_of mountpoint m)

from_start : (text : Bytes) → read_from text 0 ≡ reply text
unfolding read_from
from_start text = ground arith

state_text_if : (b : Bool) → Control.state_text b ≡ (if b then codes "running" else codes "idle")
state_text_if true = refl
state_text_if false = refl

module _ (st : Setting) (d : JdwpEventsMasterDir) (w : World) (s : IsSound w) (event : Bytes)
    {p : ℕ} (h : lookup event (registry w) ≡ some p) where
  at_child-found :
      {mode : Mode} {child : Child} (entry : Bytes) (f : Child → M World Response)
      → EventDir.look_up (dir_of d event p) entry ≡ reply (mode, child)
      → at_child d event entry f w ≡ f child w
  unfolding at_child at_event on_found
  at_child-found entry f q = rw (look_up-registry d w event s.valid, ◌>>=◌, h, q) refl

  control_shows :
      serve st d (read_file event (codes "control") 0) w
      ≡ done (shows (if runs w p then codes "running" else codes "idle")) w
  unfolding serve read_child answer EventDir.look_up text_eq new_event_control_file Control.read
  control_shows =
      at_child-found (codes "control") (λ child. read_child st child 0) refl
      ∙ rw (is_running-runs w p (s.settled p), ◌>>=◌, from_start)
          (ap (λ t. done (shows t) w) (state_text_if (runs w p)))

  kind_shows :
      serve st d (read_file event (codes "kind") 0) w
      ≡ done (shows (st.kind_string (w.event_at p).kind)) w
  unfolding serve read_child answer EventDir.look_up text_eq new_event_kind_file Kind.read
  kind_shows =
      at_child-found (codes "kind") (λ child. read_child st child 0) refl
      ∙ rw
          (
            on_event-same p get_kind w _ (get_kind_lem (receiver w p) (s.settled p).unlocked),
            ◌>>=◌,
            from_start,
          )
          refl

  policy_shows :
      serve st d (read_file event (codes "suspendPolicy") 0) w
      ≡ done (shows (st.policy_string (w.event_at p).suspend_policy)) w
  unfolding serve read_child answer EventDir.look_up text_eq new_event_suspend_policy_file
      Policy.read
  policy_shows =
      at_child-found (codes "suspendPolicy") (λ child. read_child st child 0) refl
      ∙ rw
          (
            on_event-same p get_suspend_policy w _
                (get_suspend_policy_lem (receiver w p) (s.settled p).unlocked),
            ◌>>=◌,
            from_start,
          )
          refl

  hook_links :
      ((m : Dict Bytes) → Perm m (st.hooks_order m))
      → (name : Bytes)
      → serve st d (follow_link event (codes "hooks") name) w
        ≡ done (links (lookup name (w.event_at p).hook_descriptors)) w
  unfolding serve follow_child answer EventDir.look_up text_eq new_event_hooks_directory
  hook_links perm name =
      at_child-found (codes "hooks") (λ child. follow_child st child name) refl
      ∙ rw
          (
            (readdir-look_up st.hooks_order perm (new_event_hooks_directory p) w (s.settled p)
                  (s.maps p).hooks).3
                name,
            answer,
            ◌>>=◌,
          )
          (elim (Option-cases (lookup name (w.event_at p).hook_descriptors)) [
            | inl e ↦ rw e refl
            | inr (t, e) ↦ rw e refl
          ])

  location_links :
      (name : Bytes)
      → serve st d (follow_link event (codes "location") name) w
        ≡ done
            (links
              (located d.absolute_mountpoint (lookup name (w.event_at p).modifier_descriptors)))
            w
  unfolding serve follow_child answer EventDir.look_up text_eq new_event_location_directory
      Location.look_up
  location_links name =
      at_child-found (codes "location") (λ child. follow_child st child name) refl
      ∙ rw
          (
            on_event-same p get_modifiers w _
                (get_modifiers_lem (receiver w p) (s.settled p).unlocked (s.maps p).modifiers),
            ◌>>=◌,
          )
          (elim (Option-cases (lookup name (w.event_at p).modifier_descriptors)) [
            | inl e ↦ rw e refl
            | inr (t, e) ↦ rw e refl
          ])

  -- In a sound world, for an event that is registered under a name, going through the directory
  -- of events and the directory of that name: reading `control` from the start shows `running`
  -- or `idle` as the event's context tells, `kind` and `suspendPolicy` show the texts of the
  -- event's kind and policy, a name in `hooks` is a link to the target of that hook, and a name
  -- in `location` is a link to the path of that modifier, or ENOENT where the event has none of
  -- that name, whatever order the range over the hooks goes in. Nothing changes.
  pub serve-shows :
      ((m : Dict Bytes) → Perm m (st.hooks_order m))
      → (name : Bytes)
      → (serve st d (read_file event (codes "control") 0) w
          ≡ done (shows (if runs w p then codes "running" else codes "idle")) w)
        × (serve st d (read_file event (codes "kind") 0) w
            ≡ done (shows (st.kind_string (w.event_at p).kind)) w)
        × (serve st d (read_file event (codes "suspendPolicy") 0) w
            ≡ done (shows (st.policy_string (w.event_at p).suspend_policy)) w)
        × (serve st d (follow_link event (codes "hooks") name) w
            ≡ done (links (lookup name (w.event_at p).hook_descriptors)) w)
        × (serve st d (follow_link event (codes "location") name) w
            ≡ done
                (links
                  (located d.absolute_mountpoint (lookup name (w.event_at p).modifier_descriptors)))
                w)
  serve-shows perm name =
      (control_shows, kind_shows, policy_shows, hook_links perm name, location_links name)
