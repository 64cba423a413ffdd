-- ===== src/Cli/Upgrade/Deleting.antt =====
-- `deleteOldBinary` removes nothing but another binary of the daemon.
use kubelogin_daemon.Prelude.{ℕ, ◌≡◌, refl, true, false, ◌==◌, ◌⊎◌, inl, inr, arith, Bool-cases}
use kubelogin_daemon.Text.{Text, text_eq}
use kubelogin_daemon.Cli.Upgrade.{
  Probe, found, missing, failed, Files, removed, is_kubelogin_daemon_command, delete_other,
  delete_old_binary,
}

Probe-cases :
    {A : Type 0} (p : Probe A)
    → ((a : A) × (p ≡ found a)) ⊎ ((p ≡ missing) ⊎ ((e : Text) × (p ≡ failed e)))
Probe-cases (found a) = inl (a, refl)
Probe-cases missing = inr (inl refl)
Probe-cases (failed e) = inr (inr (e, refl))

module _ {F : Type 0} (files : Files F) where
  -- The inodes of two paths are known and differ.
  abbrev pub OtherInode : F → Text → Text → Type 0
  OtherInode fs old new =
      (i : ℕ) × (j : ℕ) × (files.stat fs old ≡ found i)
      × (files.stat fs new ≡ found j)
      × ((i == j) ≡ false)

  -- So do the paths that their symbolic links lead to.
  abbrev pub OtherPath : F → Text → Text → Type 0
  OtherPath fs old new =
      (r : Text) × (s : Text) × (files.eval_symlinks fs old ≡ found r)
      × (files.eval_symlinks fs new ≡ found s)
      × (text_eq r s ≡ false)

  delete_other-OtherInode :
      (fs : F) (old new : Text)
      → (delete_other files fs old new).1 ≡ removed
      → OtherInode fs old new
  unfolding delete_other
  delete_other-OtherInode fs old new h = elim (Probe-cases (files.stat fs old)) [
    | inr (inl e) ↦ absurd (ground arith)
    | inr (inr (e, e_old)) ↦ absurd (ground arith)
    | inl (i, e_old) ↦ elim (Probe-cases (files.stat fs new)) [
      | inr (inl e_new) ↦ absurd (ground arith)
      | inr (inr (e, e_new)) ↦ absurd (ground arith)
      | inl (j, e_new) ↦ (
        i,
        j,
        e_old,
        e_new,
        elim (Bool-cases (i == j)) [ inl same ↦ absurd (ground arith) | inr differ ↦ differ ],
      )
    ]
  ]

  delete_found :
      (fs : F) (old new : Text)
      → (delete_old_binary files fs old new).1 ≡ removed
      → OtherPath fs old new × ((delete_other files fs old new).1 ≡ removed)
  unfolding delete_old_binary
  delete_found fs old new h = elim (Probe-cases (files.eval_symlinks fs old)) [
    | inr (inl e) ↦ absurd (ground arith)
    | inr (inr (e, e_old)) ↦ absurd (ground arith)
    | inl (r, e_old) ↦ elim (Probe-cases (files.eval_symlinks fs new)) [
      | inr (inl e_new) ↦ absurd (ground arith)
      | inr (inr (e, e_new)) ↦ absurd (ground arith)
      | inl (s, e_new) ↦ elim (Bool-cases (text_eq r s)) [
        | inl same ↦ absurd (ground arith)
        | inr differ ↦ ((r, s, e_old, e_new, differ), ground arith)
      ]
    ]
  ]

  delete_named :
      (fs : F) (old new : Text)
      → (delete_old_binary files fs old new).1 ≡ removed
      → is_kubelogin_daemon_command old ≡ true
  unfolding delete_old_binary
  delete_named fs old new h = ground arith

  -- An upgrade that removes an old path has found that its name is one of the daemon's, that
  -- symbolic links lead from it and from the new binary to different paths, and that the two have
  -- different inodes: it never removes the new binary, through a link neither.
  pub delete_old_binary_other :
      (fs : F) (old new : Text)
      → (delete_old_binary files fs old new).1 ≡ removed
      → (is_kubelogin_daemon_command old ≡ true) × OtherPath fs old new × OtherInode fs old new
  delete_old_binary_other fs old new h =
      let (other_path, unlinked) = delete_found fs old new h in
      (delete_named fs old new h, other_path, delete_other-OtherInode fs old new unlinked)
