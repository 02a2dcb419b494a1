-- ===== src/Fs/ThreadControl.antt =====
-- The control files of fs/threads.go: `ThreadControlFile` for one thread, and
-- `ThreadMasterControlFile` for all of them.
pub mod Laws
use jdwpfs.Base.{
  ℕ, Bool, true, false, Option, none, some, Bytes, codes, text_eq, ltb, ◌==◌, if◌then◌else◌,
}
use jdwpfs.Go.Sync.{
  Outcome, done, blocked, crashed, M, pure, ◌>>=◌, ◌>>◌, gets, RwMutex, free, lock, unlock,
}
use jdwpfs.Go.Space.{trim_space}
use jdwpfs.Fs.Node.{
  Reply, reply, fail, ebadr, eacces, efault, SetAttrIn, AttrOut, written, read_from, open_direct,
  set_attributes,
}
use jdwpfs.Fs.Debuggee.{Debuggee}

-- The commands that the library sends to the debugged process. They change what it answers from
-- then on, and can fail.
pub record Commands : Type 0 where
  pub suspend : ℕ → Debuggee → Debuggee × Bool
  pub resume : ℕ → Debuggee → Debuggee × Bool
  pub suspend_all : Debuggee → Debuggee × Bool
  pub resume_all : Debuggee → Debuggee × Bool

-- A control file with its mutex, a `sync.Mutex`, and the process behind it. `thread_id` is 0 for
-- the file of all threads.
pub record ControlFile : Type 0 where
  pub thread_id : ℕ
  pub mu : RwMutex
  pub jvm : Debuggee

unfoldable pub new_thread_control_file : Debuggee → ℕ → ControlFile
new_thread_control_file jvm id = record { thread_id = id; mu = free; jvm = jvm }

unfoldable pub new_thread_master_control_file : Debuggee → ControlFile
new_thread_master_control_file jvm = record { thread_id = 0; mu = free; jvm = jvm }

abbrev on_mu : M RwMutex (Unit {0}) → M ControlFile (Unit {0})
on_mu m c = elim (m c.mu) [
  | done _ mu ↦ done tt (record c { mu = mu })
  | blocked ↦ blocked
  | crashed ↦ crashed
]

-- `c.mu.Lock(); defer c.mu.Unlock()`
abbrev locked : {A : Type 0} → M ControlFile A → M ControlFile A
locked body = do on_mu lock; a ← body; on_mu unlock; pure a

-- A call of the library that can fail: `true` is a nil error.
abbrev command : (Debuggee → Debuggee × Bool) → M ControlFile Bool
command f c = let (jvm, fine) = f c.jvm in done fine (record c { jvm = jvm })

unfoldable pub open_node : ℕ → M ControlFile (Reply ℕ)
open_node flags = locked (pure (open_direct flags))

unfoldable pub get_attr : AttrOut → M ControlFile AttrOut
get_attr out = locked (pure (record out { mode = 0o660 }))

unfoldable pub set_attr : SetAttrIn → AttrOut → M ControlFile (Reply AttrOut)
set_attr input out = locked (pure (set_attributes input out))

-- The switch on the written text. The variable starts at 0, and a case ends where the next begins:
-- `running` and `suspend` leave it at 0.
unfoldable pub written_state : Bytes → Option ℕ
written_state text =
    let s = trim_space text in
    if text_eq s (codes "running")
    then some 0
    else if text_eq s (codes "1")
    then some 1
    else if text_eq s (codes "suspend")
    then some 0
    else if text_eq s (codes "0")
    then some 0
    else none

-- The result of a command for all or one thread.
abbrev finish : Bytes → Bool → Reply ℕ
finish text true = reply (written text)
finish text false = fail efault

module _ (commands : Commands) where
  -- The second switch of both `Write` methods, on 0 and 1.
  abbrev send_all : ℕ → M ControlFile Bool
  send_all state = command (if state == 0 then commands.suspend_all else commands.resume_all)

  master_command : Bytes → Option ℕ → M ControlFile (Reply ℕ)
  master_command text none = pure (fail efault)
  master_command text (some state) = do fine ← send_all state; pure (finish text fine)

  -- `ThreadMasterControlFile.Write`
  unfoldable pub write_all : Bytes → M ControlFile (Reply ℕ)
  unfolding master_command
  write_all text = locked (master_command text (written_state text))

  -- Nothing is sent where the status is the written state.
  abbrev send : ℕ → ℕ → ℕ → M ControlFile Bool
  send id status state =
      if status == state
      then pure true
      else command (if state == 0 then commands.suspend id else commands.resume id)

  thread_command : Bytes → ℕ → Option ℕ → M ControlFile (Reply ℕ)
  thread_command text status none = pure (fail efault)
  thread_command text status (some state) = do
    id ← gets (λ c. c.thread_id)
    fine ← send id status state
    pure (finish text fine)

  with_status : Bytes → Option (ℕ × ℕ) → M ControlFile (Reply ℕ)
  with_status text none = pure (fail eacces)
  with_status text (some (_, status)) = thread_command text status (written_state text)

  -- `ThreadControlFile.Write`
  unfoldable pub write : Bytes → M ControlFile (Reply ℕ)
  unfolding with_status thread_command
  write text =
      locked (do status ← gets (λ c. c.jvm.get_thread_status c.thread_id); with_status text status)

-- What `ThreadControlFile.Read` shows of a suspend status.
unfoldable pub status_text : ℕ → Bytes
status_text status =
    if status == 0
    then codes "running"
    else if status == 1
    then codes "suspended"
    else codes "not implemented"

show_status : ℕ → Option (ℕ × ℕ) → Reply Bytes
show_status offset none = fail eacces
show_status offset (some (_, status)) = read_from (status_text status) offset

unfoldable pub read : ℕ → M ControlFile (Reply Bytes)
unfolding show_status
read offset = locked (gets (λ c. show_status offset (c.jvm.get_thread_status c.thread_id)))

-- `ThreadMasterControlFile.Read`
unfoldable pub read_all : ℕ → Reply Bytes
read_all offset = if ltb 0 offset then fail ebadr else reply (codes "")
