-- ===== src/Fs/Control.antt =====
-- The control file of an event, `EventControlFile` of fs/event_control_files.go.
pub mod Laws
pub mod Replies
use jdwpfs.Base.{ℕ, Bool, true, false, Option, none, some, Bytes, codes, text_eq, if◌then◌else◌}
use jdwpfs.Go.Sync.{M, pure, ◌>>=◌}
use jdwpfs.Go.Space.{trim_space}
use jdwpfs.Debug.Errors.{Result, ok, err}
use jdwpfs.Debug.Plugins.{PluginHost}
use jdwpfs.Debug.Event.{is_running}
use jdwpfs.Debug.Event.Run.{Ranging, run, cancel}
use jdwpfs.Debug.Manager.{World, on_event}
use jdwpfs.Fs.Node.{
  Reply, reply, fail, enavail, ebade, ebadmsg, SetAttrIn, AttrOut, written, read_from, open_direct,
  set_attributes,
}

-- The node holds the event that it controls.
pub record EventControlFile : Type 0 where
  pub event : ℕ

unfoldable pub new_event_control_file : ℕ → EventControlFile
new_event_control_file event = record { event = event }

abbrev pub open_node : EventControlFile → ℕ → Reply ℕ
open_node c = open_direct

abbrev pub get_attr : EventControlFile → AttrOut → AttrOut
get_attr c out = record out { mode = 0o660 }

abbrev pub set_attr : EventControlFile → SetAttrIn → AttrOut → Reply AttrOut
set_attr c = set_attributes

-- The text that shows whether the event runs.
abbrev pub state_text : Bool → Bytes
state_text true = codes "running"
state_text false = codes "idle"

unfoldable pub read : EventControlFile → ℕ → M World (Reply Bytes)
read c offset = do
  running ← on_event c.event is_running
  pure (read_from (state_text running) offset)

-- The cases of the switch in `Write`. A case ends where the next begins, so `run` and `cancel` do
-- nothing.
pub data Command : Type 0 where
  run_word start cancel_word stop unknown : Command

unfoldable pub command_of : Bytes → Command
command_of s =
    if text_eq s (codes "run")
    then run_word
    else if text_eq s (codes "1")
    then start
    else if text_eq s (codes "cancel")
    then cancel_word
    else if text_eq s (codes "0")
    then stop
    else unknown

module _ (host : PluginHost) (ranging : Ranging) where
  abbrev pub start_unless : ℕ → Bytes → Bool → M World (Reply ℕ)
  start_unless p text true = pure (fail enavail)
  start_unless p text false = do
    result ← on_event p (run host ranging)
    pure (elim result [ ok _ ↦ reply (written text) | err _ ↦ fail ebade ])

  abbrev pub stop_if : ℕ → Bytes → Bool → M World (Reply ℕ)
  stop_if p text false = pure (fail enavail)
  stop_if p text true = do
    result ← on_event p cancel
    pure (elim result [ none ↦ reply (written text) | some _ ↦ fail ebade ])

  unfoldable pub perform : Command → ℕ → Bytes → M World (Reply ℕ)
  perform run_word p text = pure (reply (written text))
  perform start p text = do running ← on_event p is_running; start_unless p text running
  perform cancel_word p text = pure (reply (written text))
  perform stop p text = do running ← on_event p is_running; stop_if p text running
  perform unknown p text = pure (fail ebadmsg)

  unfoldable pub write : EventControlFile → Bytes → M World (Reply ℕ)
  unfolding perform
  write c text = perform (command_of (trim_space text)) c.event text
