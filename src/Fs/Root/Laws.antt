-- ===== src/Fs/Root/Laws.antt =====
-- On the root of fs/rootfs.go.
use mathlib.Core.Path.{subst}
use jdwpfs.Base.{
  ℕ, List, [], length, ◌≤◌, false, some, ◌≡◌, ◌≢◌, ◌⊎◌, ◌↔◌, inl, inr, refl, arith, Bytes, text_eq,
  text_eq_iff, Bool-cases,
}
use jdwpfs.Go.Sync.{done, M, ◌>>=◌}
use jdwpfs.Debug.Manager.{World, new_event_manager}
use jdwpfs.Debug.Manager.Frame.{IsSettled}
use jdwpfs.Debug.Event.Methods.{HasMaps}
use jdwpfs.Fs.Safe.{IsSound}
use jdwpfs.Fs.Events.{new_jdwp_events_master_dir}
use jdwpfs.Fs.Requests.{Setting, Request, Response, serve_all}
use jdwpfs.Fs.Requests.Sequences.{CrashesAny, serve_all-returns}
use jdwpfs.Fs.Root.{
  ℤ, pos, negsuc, below_one, address, Network, JdwpRootFs, new_jdwp_rootfs, wrap, refuse,
  added_children, on_add,
}

pub sum-cases : {A B : Type 0} (x : A ⊎ B) → ((a : A) × (x ≡ inl a)) ⊎ ((b : B) × (x ≡ inr b))
sum-cases (inl a) = inl (a, refl)
sum-cases (inr b) = inr (b, refl)

at_least_one : (port : ℤ) → below_one port ≡ false → (p : ℕ) × (port ≡ pos p) × (1 ≤ p)
at_least_one (pos p) h = (p, refl, ground arith)
at_least_one (negsuc n) h = ground arith

module _ (net : Network) (mountpoint host : Bytes) (port : ℤ) where
  -- The host and the port are accepted, both libraries connect, and the root keeps all of it.
  abbrev pub Connects : JdwpRootFs → Type 0
  Connects r =
      ((p : ℕ) × (port ≡ pos p) × (1 ≤ p))
      × (host ≢ [])
      × (net.dial (address host port) ≡ inr r.connection)
      × (net.open_jdwp r.connection ≡ inr r.jdwp_connection)
      × (r.absolute_mountpoint ≡ mountpoint)
      × (r.host ≡ host)
      × (r.port ≡ port)

  connected : ℕ → ℕ → JdwpRootFs
  connected tcp conn = record {
    absolute_mountpoint = mountpoint;
    host = host;
    port = port;
    connection = tcp;
    jdwp_connection = conn;
  }

  connected-Connects :
      (tcp conn : ℕ)
      → below_one port ≡ false
      → text_eq host [] ≡ false
      → net.dial (address host port) ≡ inr tcp
      → net.open_jdwp tcp ≡ inr conn
      → Connects (connected tcp conn)
  unfolding connected text_eq
  connected-Connects tcp conn e e' d o = (at_least_one port e, ne, d, o, refl, refl, refl)
    where
      ne : host ≢ []
      ne q = ground (arith, text_eq_iff host [])

  Connects-new : (r : JdwpRootFs) → Connects r → new_jdwp_rootfs net mountpoint host port ≡ inr r
  unfolding new_jdwp_rootfs wrap refuse
  Connects-new r ((p, e, lo), ne, d, o, em, eh, ep) =
      let accepted : below_one port ≡ false = ground arith in
      let named : text_eq host [] ≡ false = ground (arith, text_eq_iff host []) in
      ground (arith, accepted, named)

  new-Connects : (r : JdwpRootFs) → new_jdwp_rootfs net mountpoint host port ≡ inr r → Connects r
  unfolding new_jdwp_rootfs wrap refuse
  new-Connects r q = elim (Bool-cases (below_one port)) [
    | inl e ↦ ground arith
    | inr e ↦ elim (Bool-cases (text_eq host [])) [
      | inl e' ↦ ground arith
      | inr e' ↦ elim (sum-cases (net.dial (address host port))) [
        | inl (text, d) ↦ ground arith
        | inr (tcp, d) ↦ elim (sum-cases (net.open_jdwp tcp)) [
          | inl (text, o) ↦ ground arith
          | inr (conn, o) ↦
              let c = connected-Connects tcp conn e e' d o in
              let made = Connects-new (connected tcp conn) c in
              let same : connected tcp conn ≡ r = cc in subst Connects same c
        ]
      ]
    ]
  ]

  -- `NewJdwpRootfs` returns a root if and only if the port is at least 1, the host is not
  -- empty, and both libraries connect; the root then holds the mount point, host, port and both
  -- connections.
  pub new_jdwp_rootfs-Connects :
      (r : JdwpRootFs) → (new_jdwp_rootfs net mountpoint host port ≡ inr r) ↔ Connects r
  new_jdwp_rootfs-Connects r = (new-Connects r, Connects-new r)

-- What a file system does from its mounting on: the root is added, and the requests to the
-- directory of events are served.
unfoldable pub session : JdwpRootFs → List (Setting × Request) → M World (List Response)
session r requests = do
  _ ← on_add r
  serve_all (new_jdwp_events_master_dir r.absolute_mountpoint) requests

on_add-IsSound :
    (r : JdwpRootFs) (w : World)
    → ((p : ℕ) → IsSettled w p)
    → ((p : ℕ) → HasMaps (w.event_at p))
    → (w' : World) × (on_add r w ≡ done (added_children r) w') × IsSound w'
unfolding on_add new_event_manager
on_add-IsSound r w settled maps = (
  record w { manager = new_event_manager (some r.jdwp_connection) },
  refl,
  record {
    valid = record { unlocked = refl; exist = tt; names = tt };
    settled = λ p. record { unlocked = (settled p).unlocked; paired = (settled p).paired };
    maps = maps;
  },
)

-- Let every event be settled with maps in which no key stands twice. After `OnAdd`, whatever
-- requests to the directory of events follow, each in a setting of its own, all of them return,
-- if no plugin's symbol fails to be an entry point where a file is written, and no link's target
-- resolves to the mount point, possibly with slashes behind it: there are as many responses as
-- requests, and the world is sound at the end.
pub session-returns :
    (r : JdwpRootFs) (requests : List (Setting × Request)) (w : World)
    → ((p : ℕ) → IsSettled w p)
    → ((p : ℕ) → HasMaps (w.event_at p))
    → ¬ CrashesAny (new_jdwp_events_master_dir r.absolute_mountpoint) requests
    → (responses : List Response) × (w' : World) × (session r requests w ≡ done responses w')
      × (length responses ≡ length requests)
      × IsSound w'
unfolding session
session-returns r requests w settled maps n =
    let (w', q, s) = on_add-IsSound r w settled maps in
    let (responses, w'', q', len, s'', _) =
      serve_all-returns (new_jdwp_events_master_dir r.absolute_mountpoint) requests w' s n in
    (responses, w'', rw (◌>>=◌, q) q', len, s'')
