-- ===== src/Persist/Cleanup.antt =====
-- `cleanupStaleTempFiles` of pkg/daemon/server.go: it takes abandoned temporary files, and neither
-- token files nor temporary files in use.
use kubelogin_daemon.Prelude.{
  ℕ, ◌-◌, ◌≡◌, refl, Bool, true, false, ◌||◌, ◌≢◌, none, some, [], ◌∷◌, ◌++◌, arith, ltb,
  if◌then◌else◌,
}
use kubelogin_daemon.Text.{
  Text, codes, text_eq, has_prefix, contains, has_suffix, has_prefix-append, contains-append_right,
  contains_prefix,
}
use kubelogin_daemon.State.{Time}
use kubelogin_daemon.Persist.Files.{Fs, Node, Kind}
use kubelogin_daemon.Persist.{
  token_file, temp_file, is_hex, all_hex, is_valid_cache_key, sixty_seconds,
  cleanup_stale_temp_files,
}

contains-temp_file : (key suffix : Text) → contains (temp_file key suffix) (codes ".tmp.") ≡ true
contains-temp_file key suffix =
    contains-append_right key (codes ".tmp." ++ suffix) (codes ".tmp.") (
      contains_prefix (codes ".tmp." ++ suffix) (codes ".tmp.")
        (has_prefix-append (codes ".tmp.") suffix))

is_hex_dot : (c : ℕ) → is_hex c ≡ true → c ≢ b'.'
is_hex_dot c h = ground arith

token_file_plain :
    (key : Text)
    → all_hex key ≡ true
    → (contains (token_file key) (codes ".tmp.") ≡ false)
      × (has_suffix (token_file key) (codes ".tmp") ≡ false)
unfolding contains has_prefix has_suffix text_eq
token_file_plain [] h = (refl, refl)
token_file_plain (c ∷ key) h = ground (arith, is_hex_dot c, token_file_plain key)

-- The token file of a valid cache key is never removed. A regular temporary file of a key is
-- removed, unless it was written within the last sixty seconds or its removal fails.
cleanup_stale_temp_files_exact :
    (now : Time) (kept : Text → Bool) (fs : Fs) (key suffix : Text) (n : Node)
    → is_valid_cache_key key ≡ true
    → fs (temp_file key suffix) ≡ some n
    → n.kind ≡ Kind.regular
    → let fs' = cleanup_stale_temp_files now kept fs in
      (fs' (token_file key) ≡ fs (token_file key))
      × (fs' (temp_file key suffix) ≡ (
          if ltb (now - sixty_seconds) n.mod_time || kept (temp_file key suffix)
          then some n
          else none))
unfolding cleanup_stale_temp_files
cleanup_stale_temp_files_exact now kept fs key suffix n valid at regular =
    ground (arith, token_file_plain key, contains-temp_file key suffix)
