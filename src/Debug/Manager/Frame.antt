-- ===== src/Debug/Manager/Frame.antt =====
-- A method of one event, seen from the world of debug/event_manager.go.
use jdwpfs.Base.{
  ℕ, Bool, ◌≡◌, ◌≢◌, refl, ap, ◌∙◌, fun_ext, arith, ◌==◌, ==_iff, Bool-cases, inl, inr,
}
use jdwpfs.Go.Sync.{M, done, blocked, crashed, free}
use jdwpfs.Debug.Event.{DebuggingEvent, Receiver, is_set, is_running}
use jdwpfs.Debug.Event.Methods.{is_running_lem}
use jdwpfs.Debug.Manager.{World, update, receiver, put_back, on_event}

update_self : (f : ℕ → DebuggingEvent) (p : ℕ) → update f p (f p) ≡ f
update_self f p =
    fun_ext
      λ q. elim (Bool-cases (p == q)) [ inl e ↦ rw e (ap f ((==_iff p q).0 e)) | inr e ↦ rw e ]

pub update-at : (f : ℕ → DebuggingEvent) (p : ℕ) (e : DebuggingEvent) → update f p e p ≡ e
update-at f p e = rw ((==_iff p p).1 refl)

pub on_event-done :
    {A : Type 0} (p : ℕ) (m : M Receiver A) (w : World) (a : A) (r : Receiver)
    → m (receiver w p) ≡ done a r
    → on_event p m w ≡ done a (put_back w p r)
unfolding on_event
on_event-done p m w a r h = rw (h, on_event)

pub on_event-same :
    {A : Type 0} (p : ℕ) (m : M Receiver A) (w : World) (a : A)
    → m (receiver w p) ≡ done a (receiver w p)
    → on_event p m w ≡ done a w
on_event-same p m w a h =
    on_event-done p m w a _ h
    ∙ ap (λ f. done a (record w { event_at = f })) (update_self w.event_at p)

pub on_event-blocked :
    {A : Type 0} (p : ℕ) (m : M Receiver A) (w : World)
    → m (receiver w p) ≡ blocked
    → on_event p m w ≡ blocked
unfolding on_event
on_event-blocked p m w h = rw (h, on_event)

pub on_event-crashed :
    {A : Type 0} (p : ℕ) (m : M Receiver A) (w : World)
    → m (receiver w p) ≡ crashed
    → on_event p m w ≡ crashed
unfolding on_event
on_event-crashed p m w h = rw (h, on_event)

-- The event's mutex is free, and it has a cancel function if it has a context.
pub record IsSettled (w : World) (p : ℕ) : Type 0 where
  pub unlocked : (w.event_at p).mu ≡ free
  pub paired : (w.event_at p).cancel ≡ (w.event_at p).ctx

abbrev pub runs : World → ℕ → Bool
runs w p = is_set (w.event_at p).ctx

pub is_running-runs :
    (w : World) (p : ℕ) → IsSettled w p → on_event p is_running w ≡ done (runs w p) w
is_running-runs w p s = on_event-same p is_running w _ (is_running_lem (receiver w p) s.unlocked)

-- What a call for the event `p` leaves alone.
pub record Keeps (w : World) (p : ℕ) (w' : World) : Type 0 where
  pub manager : w'.manager ≡ w.manager
  pub made : w'.next_event ≡ w.next_event
  pub others : (q : ℕ) → q ≢ p → w'.event_at q ≡ w.event_at q

pub put_back-Keeps : (w : World) (p : ℕ) (r : Receiver) → Keeps w p (put_back w p r)
put_back-Keeps w p r = record { manager = refl; made = refl; others = λ q d. ground arith }

pub Keeps-refl : (w : World) (p : ℕ) → Keeps w p w
Keeps-refl w p = record { manager = refl; made = refl; others = λ q d. refl }

receiver-put_back : (w : World) (p : ℕ) (r : Receiver) → receiver (put_back w p r) p ≡ r
receiver-put_back w p r =
    ap (λ e. record { self = e; runtime = r.runtime }) (update-at w.event_at p r.self)

put_back-put_back :
    (w : World) (p : ℕ) (r r' : Receiver) → put_back (put_back w p r) p r' ≡ put_back w p r'
put_back-put_back w p r r' =
    ap (λ f. record w { event_at = f; runtime = r'.runtime })
      (fun_ext λ q. elim (Bool-cases (p == q)) [ inl e ↦ rw e | inr e ↦ rw e ])

-- A second method of the same event starts where the first ended.
pub on_event-put_back :
    {A : Type 0} (p : ℕ) (m : M Receiver A) (w : World) (r : Receiver) (a : A) (r' : Receiver)
    → m r ≡ done a r'
    → on_event p m (put_back w p r) ≡ done a (put_back w p r')
on_event-put_back p m w r a r' h =
    on_event-done p m (put_back w p r) a r' (rw (receiver-put_back w p r) h)
    ∙ ap (done a) (put_back-put_back w p r r')
