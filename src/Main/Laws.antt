-- ===== src/Main/Laws.antt =====
-- On the command, main.go.
use jdwpfs.Base.{
  ℕ, ◌%◌, ◌^◌, true, codes, ◌≢◌, List, [], ◌∷◌, Option-cases, none, some, ◌≡◌, ◌↔◌, inl, inr, refl,
  sym, ap, ◌∙◌, Bytes,
}
use jdwpfs.Fs.Root.{JdwpRootFs, print, new_jdwp_rootfs}
use jdwpfs.Fs.Root.Laws.{Connects, new_jdwp_rootfs-Connects, sum-cases}
use jdwpfs.Main.{
  System, FuseOptions, Options, Served, serves, exits, panics, fuse_options, mount_root, connect,
  with_args, main,
}

serves-injective : {x y : Served} → serves x ≡ serves y → x ≡ y
serves-injective e = cc

exits-ne-serves : (code : ℕ) (x : Served) → exits code ≢ serves x
exits-ne-serves code x e = cc

panics-ne-serves : (text : Bytes) (x : Served) → panics text ≢ serves x
panics-ne-serves text x e = cc

module _ (sys : System) where
  -- The mount options that the command promises.
  abbrev pub HasOptions : FuseOptions → Type 0
  HasOptions o =
      (o.allow_other ≡ true)
      × (o.max_background ≡ 8)
      × (o.fs_name ≡ codes "jdwpfs")
      × (o.name ≡ codes "jdwpfs")
      × (o.uid ≡ sys.getuid % 2 ^ 32)
      × (o.gid ≡ sys.getgid % 2 ^ 32)

  -- The options are understood and leave one argument, which exists, the root connects, and the
  -- library mounts it.
  abbrev pub Serves : List Bytes → Served → Type 0
  Serves argv s =
      (opts : Options) × (program : Bytes) × (sys.parse_args argv
        ≡ some (opts, program ∷ s.mountpoint ∷ []))
      × (sys.stat s.mountpoint ≡ none)
      × Connects sys.network (sys.abs s.mountpoint) opts.debugged_host opts.debugged_port s.root
      × (sys.mount s.mountpoint s.root s.options ≡ none)
      × HasOptions s.options

  fuse_options-HasOptions : (o : FuseOptions) → o ≡ fuse_options sys → HasOptions o
  unfolding fuse_options
  fuse_options-HasOptions o e = (
    ap (λ x. x.allow_other) e,
    ap (λ x. x.max_background) e,
    ap (λ x. x.fs_name) e,
    ap (λ x. x.name) e,
    ap (λ x. x.uid) e,
    ap (λ x. x.gid) e,
  )

  HasOptions-unique : (o : FuseOptions) → HasOptions o → o ≡ fuse_options sys
  unfolding fuse_options
  HasOptions-unique o (a, m, f, n, u, g) = λ i. record {
    allow_other = a i;
    max_background = m i;
    fs_name = f i;
    name = n i;
    uid = u i;
    gid = g i;
  }

  mount_root-mounted :
      (s : Served)
      → sys.mount s.mountpoint s.root (fuse_options sys) ≡ none
      → s.options ≡ fuse_options sys
      → mount_root sys s.mountpoint s.root ≡ serves s
  unfolding mount_root
  mount_root-mounted s m o =
      rw (mount_root, m)
        (ap (λ opts. serves (record { mountpoint = s.mountpoint; root = s.root; options = opts }))
          (sym o))

  connect-connected :
      (opts : Options) (mountpoint : Bytes) (root : JdwpRootFs)
      → sys.stat mountpoint ≡ none
      → new_jdwp_rootfs sys.network (sys.abs mountpoint) opts.debugged_host opts.debugged_port
        ≡ inr root
      → connect sys opts mountpoint ≡ mount_root sys mountpoint root
  unfolding connect
  connect-connected opts mountpoint root st made = rw (connect, st, made) refl

  Serves-main : (argv : List Bytes) (s : Served) → Serves argv s → main sys argv ≡ serves s
  unfolding main with_args
  Serves-main argv s (opts, program, p, st, c, m, has) =
      let o = HasOptions-unique s.options has in
      let made =
        (new_jdwp_rootfs-Connects sys.network (sys.abs s.mountpoint) opts.debugged_host
            opts.debugged_port s.root).1
          c in
      rw (main, p)
        (connect-connected opts s.mountpoint s.root st made ∙ mount_root-mounted s (rw o at m) o)

  -- What a command that serves has gone through.
  mount_root_serves :
      (mountpoint : Bytes) (root : JdwpRootFs) (s : Served)
      → mount_root sys mountpoint root ≡ serves s
      → (s.mountpoint ≡ mountpoint)
        × (s.root ≡ root)
        × (sys.mount mountpoint root (fuse_options sys) ≡ none)
        × (s.options ≡ fuse_options sys)
  unfolding mount_root
  mount_root_serves mountpoint root s q =
      elim (Option-cases (sys.mount mountpoint root (fuse_options sys))) [
        | inl e ↦
            let same = serves-injective (sym (mount_root-mounted _ e refl) ∙ q) in
            (
              sym (ap (λ x. x.mountpoint) same),
              sym (ap (λ x. x.root) same),
              e,
              sym (ap (λ x. x.options) same),
            )
        | inr (text, e) ↦ absurd (exits-ne-serves 1 s (sym (rw (mount_root, e) refl) ∙ q))
      ]

  connect_serves :
      (opts : Options) (mountpoint : Bytes) (s : Served)
      → connect sys opts mountpoint ≡ serves s
      → (root : JdwpRootFs) × (sys.stat mountpoint ≡ none)
        × (new_jdwp_rootfs sys.network (sys.abs mountpoint) opts.debugged_host opts.debugged_port
            ≡ inr root)
        × (mount_root sys mountpoint root ≡ serves s)
  unfolding connect
  connect_serves opts mountpoint s q = elim (Option-cases (sys.stat mountpoint)) [
    | inr (text, e) ↦ absurd (panics-ne-serves text s (sym (rw (connect, e) refl) ∙ q))
    | inl e ↦
        elim (sum-cases (
          new_jdwp_rootfs sys.network (sys.abs mountpoint) opts.debugged_host opts.debugged_port)) [
            | inl (error, e') ↦
                absurd (panics-ne-serves (print error) s (sym (rw (connect, e, e') refl) ∙ q))
            | inr (root, e') ↦ (root, e, e', sym (connect-connected opts mountpoint root e e') ∙ q)
          ]
  ]

  with_args_serves :
      (opts : Options) (args : List Bytes) (s : Served)
      → with_args sys opts args ≡ serves s
      → (program : Bytes) × (mountpoint : Bytes) × (args ≡ program ∷ mountpoint ∷ [])
        × (connect sys opts mountpoint ≡ serves s)
  unfolding with_args
  with_args_serves opts [] s q = cc
  with_args_serves opts (p ∷ []) s q = cc
  with_args_serves opts (p ∷ m ∷ []) s q = (p, m, refl, q)
  with_args_serves opts (p ∷ m ∷ x ∷ rest) s q = cc

  main-Serves : (argv : List Bytes) (s : Served) → main sys argv ≡ serves s → Serves argv s
  unfolding main
  main-Serves argv s q = elim (Option-cases (sys.parse_args argv)) [
    | inl e ↦ absurd (exits-ne-serves 0 s (sym (rw (main, e) refl) ∙ q))
    | inr ((opts, args), e) ↦
        let (program, mountpoint, shape, q') =
          with_args_serves opts args s (sym (rw (main, e) refl) ∙ q) in
        let (root, st, made, q'') = connect_serves opts mountpoint s q' in
        let (same_point, same_root, mounted, o) = mount_root_serves mountpoint root s q'' in
        let connects =
          (new_jdwp_rootfs-Connects sys.network (sys.abs mountpoint) opts.debugged_host
              opts.debugged_port root).0
            made in
        (
          opts,
          program,
          rw (same_point, sym shape) e,
          rw same_point st,
          rw (same_point, same_root) connects,
          rw (same_point, same_root, o) mounted,
          fuse_options-HasOptions s.options o,
        )
  ]

  -- The command serves a file system if and only if the parser accepts the options and leaves
  -- exactly one argument behind the program name, that path exists, the port is at least 1, the
  -- host is not empty, both libraries connect, and the mount succeeds. It is then mounted at
  -- that path with `AllowOther`, a background of at most 8 requests, `jdwpfs` as the name of
  -- the file system and its type, and the user's identifiers modulo 2^32, and its root holds
  -- the absolute mount point, host, port and both connections.
  pub main_lem : (argv : List Bytes) (s : Served) → (main sys argv ≡ serves s) ↔ Serves argv s
  main_lem argv s = (main-Serves argv s, Serves-main argv s)
