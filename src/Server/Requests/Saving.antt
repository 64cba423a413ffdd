-- ===== src/Server/Requests/Saving.antt =====
-- pkg/daemon/server.go: what is on disk after a request, and after a restart of the daemon.
use kubelogin_daemon.Prelude.{
  ◌+◌, ◌≤◌, ◌≡◌, refl, true, none, some, arith, length, if◌then◌else◌, All,
}
use kubelogin_daemon.Text.{Text, text_eq, text_eq_refl, is_ascii}
use kubelogin_daemon.Assoc.{lookup, lookup-delete}
use kubelogin_daemon.State.{Time, delete_entry}
use kubelogin_daemon.Persist.Files.{Fs}
use kubelogin_daemon.Persist.{
  Codec, loaded, load_persisted_token, persist_token, temp_file, token_bytes, max_persist_file_size,
}
use kubelogin_daemon.Persist.Loading.{load-persist_token, no_read_faults}
use kubelogin_daemon.Token.{TokenManager, TokenEntry}
use kubelogin_daemon.Server.{
  Server, Env, persist, persist_tokens, oldest, evict, evict_oldest_manager_locked,
}
use kubelogin_daemon.Server.Managers.{ServerInv, oldest_chosen}

module _ (codec : Codec) where
  -- The file of a key can be written: the tokens are ASCII, the file is within the size limit, the
  -- temporary name is free, and no call of `PersistToken` fails.
  pub record CanSave (env : Env) (key id_token refresh_token : Text) (dir : Fs) : Type 0 where
    pub free : dir (temp_file key env.suffix) ≡ none
    pub id_ascii : is_ascii id_token ≡ true
    pub refresh_ascii : is_ascii refresh_token ≡ true
    pub fits : length (token_bytes codec id_token refresh_token) ≤ max_persist_file_size
    pub no_error : (persist_token codec env.faults env.suffix key id_token refresh_token).1 ≡ none

  pub persist-loads :
      (env : Env) (key id_token refresh_token : Text) (s : Server)
      → CanSave env key id_token refresh_token s.dir
      → let s' = persist codec env key id_token refresh_token s in
        load_persisted_token codec no_read_faults key s'.dir
        ≡ (s'.dir, loaded id_token refresh_token)
  unfolding persist
  persist-loads env key id_token refresh_token s c =
      load-persist_token codec env.faults env.suffix key id_token refresh_token env.now s.dir c.free
        c.id_ascii c.refresh_ascii c.fits c.no_error

  -- `evictOldestManagerLocked` drops exactly the manager that it has chosen, than which none was
  -- used longer ago; the other keys keep theirs, and its authentication state is forgotten. Its
  -- tokens, if its file can be written, are what a load of the key then finds. The map counts its
  -- managers exactly.
  pub evict_oldest_saves :
      {now : Time} (env : Env) (s : Server) (key k : Text) (m : TokenManager) (t : TokenEntry)
      → ServerInv now s
      → oldest s.managers ≡ some (key, m)
      → m.current ≡ some t
      → CanSave env key t.id_token t.refresh_token s.dir
      → let (s', made_room) = evict_oldest_manager_locked codec env s in
        (made_room ≡ true)
        × All (λ e. m.last_access ≤ e.1.last_access) s.managers
        × (lookup k s'.managers ≡ (if text_eq key k then none else lookup k s.managers))
        × (s'.manager_count + 1 ≡ s.manager_count)
        × (lookup key s'.states ≡ none)
        × (load_persisted_token codec no_read_faults key s'.dir
            ≡ (s'.dir, loaded t.id_token t.refresh_token))
  unfolding evict_oldest_manager_locked evict persist_tokens delete_entry
  evict_oldest_saves env s key k m t v chosen c can =
      let exact = v.counted.exact in
      let (nonempty, there, eldest) = oldest_chosen s.managers (key, m) chosen in
      rw (chosen, evict_oldest_manager_locked)
        (
          refl,
          eldest,
          lookup-delete key k s.managers,
          omega (arith, exact, nonempty),
          ground (arith, lookup-delete key key s.states, text_eq_refl key),
          rw (c, persist_tokens) (persist-loads env key t.id_token t.refresh_token s can),
        )
