-- ===== src/Fs/Control/Replies.antt =====
-- On the replies of `EventControlFile` in fs/event_control_files.go.
use mathlib.Core.List.{Mem, Perm}
use jdwpfs.Base.{ℕ, inl, inr, Option-cases, true, false, List, map, ◌≡◌, Bytes}
use jdwpfs.Base.Dict.Nodup.{NodupKeys}
use jdwpfs.Go.Sync.{done, ◌>>=◌}
use jdwpfs.Go.Space.{trim_space}
use jdwpfs.Debug.Errors.{ok}
use jdwpfs.Debug.Plugins.{PluginHost, PluginInstance}
use jdwpfs.Debug.Plugins.Laws.{Loads, entry_of}
use jdwpfs.Debug.Event.Run.{Ranging}
use jdwpfs.Debug.Event.Running.{run-started, started}
use jdwpfs.Debug.Event.Cancelling.{stopped}
use jdwpfs.Debug.Manager.{World, receiver, put_back}
use jdwpfs.Debug.Manager.Frame.{IsSettled, runs, is_running-runs, update-at}
use jdwpfs.Fs.Node.{Reply, reply, fail, ebade, written, read_from}
use jdwpfs.Fs.Control.{EventControlFile, start, stop, command_of, write, read, state_text}
use jdwpfs.Fs.Control.Laws.{after, write-Effect, start_done, stop_done, perform-start, perform-stop}

module _ (host : PluginHost) (ranging : Ranging) (w : World) (c : EventControlFile) (text : Bytes)
    (s : IsSettled w c.event) where
  -- If a write to the control file of a settled event returned, a read behind it, from any
  -- offset, changes nothing and shows `running` or `idle` as the written command decided,
  -- whatever the write replied.
  pub read-write_control :
      (offset : ℕ) (a : Reply ℕ) (w' : World)
      → write host ranging c text w ≡ done a w'
      → read c offset w'
        ≡ done
            (read_from (state_text (after (command_of (trim_space text)) (runs w c.event))) offset)
            w'
  unfolding read
  read-write_control offset a w' q =
      let (now, settled, _) = rw q at (write-Effect host ranging w c text s) in
      rw (is_running-runs w' c.event settled, now, ◌>>=◌)

  -- For a settled idle event whose hooks have different names and all load, writing a text that
  -- trims to `1` to its control file replies the number of bytes written and starts the event
  -- with one plugin for each hook, up to order.
  pub write-start :
      command_of (trim_space text) ≡ start
      → runs w c.event ≡ false
      → NodupKeys (w.event_at c.event).hook_descriptors
      → ((e : Bytes × Bytes) → Mem e (w.event_at c.event).hook_descriptors → Loads host e.1)
      → (plugins : List PluginInstance) × (write host ranging c text w
          ≡ done
              (reply (written text))
              (put_back w c.event (started host ranging (receiver w c.event) plugins)))
        × Perm (map entry_of plugins) (w.event_at c.event).hook_descriptors
  unfolding write
  write-start e idle u h =
      let (plugins, ran, names) = run-started host ranging (receiver w c.event) s.unlocked u h in
      (
        plugins,
        rw (e, perform-start host ranging w c.event text s, idle)
            (start_done host ranging w c.event text s (ok _) _ ran),
        names,
      )

  -- For a settled running event, writing a text that trims to `0` to its control file leaves
  -- the event idle, and replies the error EBADE.
  pub write-stop :
      command_of (trim_space text) ≡ stop
      → runs w c.event ≡ true
      → (w' : World) × (write host ranging c text w ≡ done (fail ebade) w')
        × (runs w' c.event ≡ false)
  unfolding write
  write-stop e busy = elim (Option-cases (w.event_at c.event).ctx) [
    | inl idle ↦ let not_busy : runs w c.event ≡ false = rw idle in cc
    | inr (x, at) ↦ (
      put_back w c.event (stopped (receiver w c.event) x),
      rw (e, perform-stop host ranging w c.event text s, busy)
          (stop_done host ranging w c.event text s x at),
      rw (update-at w.event_at c.event _),
    )
  ]
