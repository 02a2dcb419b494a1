-- ===== src/Fs/Location/Slashes.antt =====
-- On the resolved paths that `EventLocationDirectory` of fs/event_control_files.go crashes on.
use jdwpfs.Base.{
  [], ◌∷◌, ◌++◌, none, ◌≡◌, ap, ◌∙◌, arith, Bytes, text_eq, All, Bool-cases, Option-cases, inl, inr,
  ◌==◌, ==_iff,
}
use jdwpfs.Go.Split.{split, has_prefix, trim_prefix, has_prefix_sound, split-first, split-sep}
use jdwpfs.Fs.Debuggee.{Debuggee}
use jdwpfs.Fs.Location.{slash, skip_empty, modifier_of}

-- Nothing is left of the components only where there is nothing but slashes.
skip_empty-slashes : (s : Bytes) → skip_empty (split slash s) ≡ none → All (λ c. c ≡ slash) s
unfolding skip_empty text_eq
skip_empty-slashes [] h = tt
skip_empty-slashes (c ∷ s) h = elim (Bool-cases (c == slash)) [
  | inl e ↦
      let same : c ≡ slash = ground (arith, ==_iff c slash) in
      let cut : split slash (c ∷ s) ≡ [] ∷ split slash s =
        ap (λ b. split slash (b ∷ s)) same ∙ split-sep slash s in
      (same, skip_empty-slashes s (rw cut at h))
  | inr e ↦
      let (t, rest, cut) = split-first slash c s (λ q. ground (arith, ==_iff c slash)) in
      let left = rw cut at h in ground arith
]

-- A resolved path for which the loop runs out of components is the mount point with slashes behind.
pub modifier_of-none :
    (jvm : Debuggee) (mountpoint name path : Bytes)
    → modifier_of jvm mountpoint name path ≡ none
    → (slashes : Bytes) × (path ≡ mountpoint ++ slashes) × All (λ c. c ≡ slash) slashes
unfolding modifier_of
modifier_of-none jvm mountpoint name path h = elim (Bool-cases (has_prefix path mountpoint)) [
  | inr e ↦ ground arith
  | inl e ↦
      let rest = trim_prefix path mountpoint in
      elim (Option-cases (skip_empty (split slash rest))) [
        | inl q ↦ (rest, has_prefix_sound path mountpoint e, skip_empty-slashes rest q)
        | inr (cs, q) ↦ ground arith
      ]
]
