-- ===== src/Fs/ThreadControl/Laws.antt =====
-- On the writes to the control files of fs/threads.go.
use jdwpfs.Base.{
  ℕ, Option, Option-cases, Bool-cases, inl, inr, none, some, ◌≡◌, ◌⊎◌, refl, arith, Bytes, codes,
  text_eq, text_eq_sound, text_eq_refl, Bool, false, ◌==◌, if◌then◌else◌,
}
use jdwpfs.Go.Sync.{Outcome, done, free}
use jdwpfs.Go.Space.{trim_space}
use jdwpfs.Fs.Node.{Reply, reply, fail, eacces, efault, written}
use jdwpfs.Fs.Debuggee.{Debuggee}
use jdwpfs.Fs.ThreadControl.{Commands, ControlFile, written_state, write, write_all, finish}

-- What a text says, without the white space around it.
abbrev pub SaysResume : Bytes → Type 0
SaysResume text = trim_space text ≡ codes "1"

abbrev pub SaysSuspend : Bytes → Type 0
SaysSuspend text =
    (trim_space text ≡ codes "0")
    ⊎ ((trim_space text ≡ codes "suspend") ⊎ (trim_space text ≡ codes "running"))

abbrev pub SaysNothing : Bytes → Type 0
SaysNothing text = (¬ SaysResume text) × (¬ SaysSuspend text)

differs : (s t : Bytes) → text_eq s t ≡ false → ¬ (s ≡ t)
differs s t h e = ground (arith, text_eq_refl t, rw e at h)

not_SaysSuspend :
    (text : Bytes)
    → text_eq (trim_space text) (codes "0") ≡ false
    → text_eq (trim_space text) (codes "suspend") ≡ false
    → text_eq (trim_space text) (codes "running") ≡ false
    → ¬ SaysSuspend text
not_SaysSuspend text e0 e1 e2 (inl q) = differs _ _ e0 q
not_SaysSuspend text e0 e1 e2 (inr (inl q)) = differs _ _ e1 q
not_SaysSuspend text e0 e1 e2 (inr (inr q)) = differs _ _ e2 q

written_state-cases :
    (text : Bytes)
    → (SaysResume text × (written_state text ≡ some 1))
      ⊎ ((SaysSuspend text × (written_state text ≡ some 0))
          ⊎ (SaysNothing text × (written_state text ≡ none)))
unfolding written_state
written_state-cases text =
    let t = trim_space text in
    elim (Bool-cases (text_eq t (codes "running"))) [
      | inl e ↦ inr (inl (inr (inr (text_eq_sound t (codes "running") e)), rw e refl))
      | inr e ↦ elim (Bool-cases (text_eq t (codes "1"))) [
        | inl e1 ↦ inl (text_eq_sound t (codes "1") e1, rw (e, e1) refl)
        | inr e1 ↦ elim (Bool-cases (text_eq t (codes "suspend"))) [
          | inl e2 ↦
              inr (inl (inr (inl (text_eq_sound t (codes "suspend") e2)), rw (e, e1, e2) refl))
          | inr e2 ↦ elim (Bool-cases (text_eq t (codes "0"))) [
            | inl e3 ↦ inr (inl (inl (text_eq_sound t (codes "0") e3), rw (e, e1, e2, e3) refl))
            | inr e3 ↦ inr (
                inr (
                  (differs t (codes "1") e1, not_SaysSuspend text e3 e2 e),
                  rw (e, e1, e2, e3) refl,
                ))
          ]
        ]
      ]
    ]

-- A command with a free mutex was sent: the process answers as it leaves it, and the reply tells
-- whether it succeeded.
abbrev pub sent : ControlFile → Bytes → Debuggee × Bool → Outcome ControlFile (Reply ℕ)
sent c text (jvm, fine) = done (finish text fine) (record c { jvm = jvm })

module _ (commands : Commands) (c : ControlFile) (f : c.mu ≡ free) (text : Bytes) where
  -- What a write does whose text stands for a status and a command, by the thread's own status.
  abbrev pub Sends : ℕ → Debuggee × Bool → Option (ℕ × ℕ) → Type 0
  Sends state command none = write commands text c ≡ done (fail eacces) c
  Sends state command (some (x, status)) =
      write commands text c
      ≡ (if status == state then done (reply (written text)) c else sent c text command)

  -- What a write does whose text stands for nothing.
  abbrev pub Refuses : Option (ℕ × ℕ) → Type 0
  Refuses none = write commands text c ≡ done (fail eacces) c
  Refuses (some status) = write commands text c ≡ done (fail efault) c

  write-resume :
      written_state text ≡ some 1
      → Sends 1 (commands.resume c.thread_id c.jvm) (c.jvm.get_thread_status c.thread_id)
  unfolding write
  write-resume e = elim (Option-cases (c.jvm.get_thread_status c.thread_id)) [
    | inl q ↦ rw q (ground arith)
    | inr ((x, status), q) ↦ elim (Bool-cases (status == 1)) [
      | inl same ↦ rw (q, same) (ground arith)
      | inr other ↦ rw (q, other) (ground arith)
    ]
  ]

  write-suspend :
      written_state text ≡ some 0
      → Sends 0 (commands.suspend c.thread_id c.jvm) (c.jvm.get_thread_status c.thread_id)
  unfolding write
  write-suspend e = elim (Option-cases (c.jvm.get_thread_status c.thread_id)) [
    | inl q ↦ rw q (ground arith)
    | inr ((x, status), q) ↦ elim (Bool-cases (status == 0)) [
      | inl same ↦ rw (q, same) (ground arith)
      | inr other ↦ rw (q, other) (ground arith)
    ]
  ]

  write-refused : written_state text ≡ none → Refuses (c.jvm.get_thread_status c.thread_id)
  unfolding write
  write-refused e = elim (Option-cases (c.jvm.get_thread_status c.thread_id)) [
    | inl q ↦ rw q (ground arith)
    | inr (status, q) ↦ rw q (ground arith)
  ]

  -- On the control file of a thread with a free mutex, every written text is one of three kinds
  -- by what it trims to: `1` stands for 1 and the command to resume, `0`, `suspend` and
  -- `running` stand for 0 and the command to suspend, and any other text stands for nothing. A
  -- write replies EACCES if the process does not answer the thread's status, and else EFAULT
  -- for a text that stands for nothing. If the suspend status, 0 for running and 1 for
  -- suspended, is the text's number, the write is accepted and no command is sent. Otherwise
  -- the text's command is sent to this thread, and the reply is the number of bytes if it
  -- succeeds and EFAULT if it fails. The mutex is given back.
  pub write-Sends :
      (SaysResume text
        × Sends 1 (commands.resume c.thread_id c.jvm) (c.jvm.get_thread_status c.thread_id))
      ⊎ ((SaysSuspend text
            × Sends 0 (commands.suspend c.thread_id c.jvm) (c.jvm.get_thread_status c.thread_id))
          ⊎ (SaysNothing text × Refuses (c.jvm.get_thread_status c.thread_id)))
  write-Sends = elim (written_state-cases text) [
    | inl (says, e) ↦ inl (says, write-resume e)
    | inr (inl (says, e)) ↦ inr (inl (says, write-suspend e))
    | inr (inr (says, e)) ↦ inr (inr (says, write-refused e))
  ]

  -- On the control file of all threads with a free mutex, writing a text that trims to `1`
  -- resumes all threads, and one that trims to `0`, `suspend` or `running` suspends all; the
  -- reply is the number of bytes if the command succeeds and EFAULT if it fails. Any other text
  -- sends nothing and replies EFAULT. The mutex is given back.
  pub write_all_lem :
      (SaysResume text × (write_all commands text c ≡ sent c text (commands.resume_all c.jvm)))
      ⊎ ((SaysSuspend text × (write_all commands text c ≡ sent c text (commands.suspend_all c.jvm)))
          ⊎ (SaysNothing text × (write_all commands text c ≡ done (fail efault) c)))
  unfolding write_all
  write_all_lem = elim (written_state-cases text) [
    | inl (says, e) ↦ inl (says, ground arith)
    | inr (inl (says, e)) ↦ inr (inl (says, ground arith))
    | inr (inr (says, e)) ↦ inr (inr (says, ground arith))
  ]
