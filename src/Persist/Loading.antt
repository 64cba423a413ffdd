-- ===== src/Persist/Loading.antt =====
-- pkg/daemon/persist.go: what was persisted is loaded, and a bad file is reported once.
use kubelogin_daemon.Prelude.{
  ◌<◌, ltb, ltb→lt, ==_iff, ◌==◌, Option-cases, ◌∙◌, refl, sym, ap, ◌≢◌, if◌then◌else◌, Bool-cases,
  inl, inr, Bool, false, Option, ◌≤◌, ◌≡◌, ◌⊎◌, true, false, none, some, arith, length,
}
use kubelogin_daemon.Text.{Text, text_eq_refl, is_ascii}
use kubelogin_daemon.State.{Time}
use kubelogin_daemon.Persist.Files.{Fs, Node, Kind, put, run_calls}
use kubelogin_daemon.Persist.{
  Faults, Codec, persist_format_version, Loaded, PersistedToken, discard, check_version, read_node,
  open_node, token_bytes, persist_token, token_file, temp_file, is_valid_cache_key,
  max_persist_file_size, ReadFaults, loaded, load_failed, LoadError, too_large, corrupt,
  unknown_version, no_token, load_persisted_token,
}
use kubelogin_daemon.Persist.Atomic.{persist_token-parts, persist_token_valid}

abbrev pub no_read_faults : ReadFaults
no_read_faults = record { open_fails = false; read_fails = false; remove_fails = false }

-- A symbolic link stands under the name.
abbrev pub is_link : Option Node → Bool
is_link none = false
is_link (some n) = elim n.kind [ Kind.symlink ↦ true | _ ↦ false ]

module _ (codec : Codec) where
  load_new :
      (key id_token refresh_token : Text) (now : Time) (fs : Fs)
      → is_valid_cache_key key ≡ true
      → is_ascii id_token ≡ true
      → is_ascii refresh_token ≡ true
      → length (token_bytes codec id_token refresh_token) ≤ max_persist_file_size
      → fs (token_file key)
        ≡ some (record {
          kind = Kind.regular;
          bytes = token_bytes codec id_token refresh_token;
          is_private = true;
          mod_time = now;
        })
      → load_persisted_token codec no_read_faults key fs ≡ (fs, loaded id_token refresh_token)
  unfolding load_persisted_token
  load_new key id_token refresh_token now fs valid a b size at = ground (
    arith,
    codec.decode-encode
        (record {
          format_version = persist_format_version;
          id_token = id_token;
          refresh_token = refresh_token;
        })
        a b,
  )

  -- A token that `PersistToken` has written without an error is what `LoadPersistedToken` returns
  -- of the resulting directory, which it leaves alone. The tokens are ASCII, the file is within the
  -- size limit, the temporary name is free at the start, and the reads do not fail.
  pub load-persist_token :
      (f : Faults) (suffix key id_token refresh_token : Text) (now : Time) (old : Fs)
      → old (temp_file key suffix) ≡ none
      → is_ascii id_token ≡ true
      → is_ascii refresh_token ≡ true
      → length (token_bytes codec id_token refresh_token) ≤ max_persist_file_size
      → (persist_token codec f suffix key id_token refresh_token).1 ≡ none
      → let fs = run_calls now (persist_token codec f suffix key id_token refresh_token).0 old in
        load_persisted_token codec no_read_faults key fs ≡ (fs, loaded id_token refresh_token)
  load-persist_token f suffix key id_token refresh_token now old new a b size done =
      load_new key id_token refresh_token now _
        (persist_token_valid codec f suffix key id_token refresh_token now old done) a b size
        ((persist_token-parts codec f suffix key id_token refresh_token now old new).1 done).1

  -- What is wrong with a file of these bytes, for an error that says so.
  unfoldable pub IsBad : Text → LoadError → Type 0
  IsBad bytes too_large = max_persist_file_size < length bytes
  IsBad bytes corrupt = (length bytes ≤ max_persist_file_size) × (codec.decode bytes ≡ none)
  IsBad bytes unknown_version =
      (length bytes ≤ max_persist_file_size)
      × (t : PersistedToken) × (codec.decode bytes ≡ some t)
      × (t.format_version ≢ persist_format_version)
  IsBad bytes _ = ⊥

  -- A load of a file of these bytes, which is deleted if it is bad and the removal does not fail.
  abbrev pub Verdict : ReadFaults → Text → Text → Fs → Fs × Loaded → Type 0
  Verdict f key bytes fs (fs', r) =
      ((t : PersistedToken) × (r ≡ loaded t.id_token t.refresh_token)
        × (length bytes ≤ max_persist_file_size)
        × (codec.decode bytes ≡ some t)
        × (t.format_version ≡ persist_format_version)
        × (fs' ≡ fs))
      ⊎ ((e : LoadError) × (r ≡ load_failed e)
          × IsBad bytes e
          × (fs' ≡ (if f.remove_fails then fs else put (token_file key) none fs))
          × ((load_persisted_token codec f key fs').1 ≡ (if f.remove_fails then r else no_token)))

  opened :
      (f : ReadFaults) (key : Text) (n : Node) (fs : Fs)
      → is_valid_cache_key key ≡ true
      → fs (token_file key) ≡ some n
      → n.kind ≡ Kind.regular
      → f.open_fails ≡ false
      → f.read_fails ≡ false
      → load_persisted_token codec f key fs ≡ (
          if ltb max_persist_file_size (length n.bytes)
          then (discard f (token_file key) fs, load_failed too_large)
          else check_version f (codec.decode n.bytes) (token_file key) fs)
  unfolding load_persisted_token open_node read_node
  opened f key n fs valid at regular o r =
      rw (valid, at, load_persisted_token, open_node) (rw (o, regular, read_node) (rw r refl))

  reload :
      (f : ReadFaults) (key : Text) (fs : Fs) (r : Loaded)
      → is_valid_cache_key key ≡ true
      → load_persisted_token codec f key fs ≡ (discard f (token_file key) fs, r)
      → (load_persisted_token codec f key (discard f (token_file key) fs)).1
        ≡ (if f.remove_fails then r else no_token)
  unfolding discard load_persisted_token open_node
  reload f key fs r valid l = elim (Bool-cases f.remove_fails) [
    | inl stays ↦
        let kept : discard f (token_file key) fs ≡ fs = rw (stays, discard) refl in
        let picked : (if f.remove_fails then r else no_token) ≡ r = rw stays refl in
        ap (λ fs'. (load_persisted_token codec f key fs').1) kept
        ∙ ap (λ (x : Fs × Loaded). x.1) l
        ∙ sym picked
    | inr gone ↦ ground (arith, text_eq_refl (token_file key))
  ]

  bad-Verdict :
      (f : ReadFaults) (key bytes : Text) (fs : Fs) (e : LoadError)
      → is_valid_cache_key key ≡ true
      → load_persisted_token codec f key fs ≡ (discard f (token_file key) fs, load_failed e)
      → IsBad bytes e
      → Verdict f key bytes fs (load_persisted_token codec f key fs)
  unfolding discard
  bad-Verdict f key bytes fs e valid l bad =
      rw l (inr (e, refl, bad, refl, reload f key fs (load_failed e) valid l))

  -- What `LoadPersistedToken` makes of a regular file of a valid key that can be opened and read:
  -- either the file is within the size limit and decodes to a token of this version, which it
  -- returns, leaving the directory alone; or the error that it returns says what is wrong with the
  -- file, and the file, and nothing else, is deleted, unless the removal fails. Once deleted, the
  -- next load reports no token and no error.
  pub load_persisted_token_heals :
      (f : ReadFaults) (key : Text) (n : Node) (fs : Fs)
      → is_valid_cache_key key ≡ true
      → fs (token_file key) ≡ some n
      → n.kind ≡ Kind.regular
      → f.open_fails ≡ false
      → f.read_fails ≡ false
      → Verdict f key n.bytes fs (load_persisted_token codec f key fs)
  unfolding IsBad check_version
  load_persisted_token_heals f key n fs valid at regular o r =
      let l = opened f key n fs valid at regular o r in
      elim (Bool-cases (ltb max_persist_file_size (length n.bytes))) [
        | inl big ↦
            bad-Verdict f key n.bytes fs too_large valid (l ∙ rw big refl)
              (ltb→lt max_persist_file_size (length n.bytes) big)
        | inr small ↦
            let fits : length n.bytes ≤ max_persist_file_size = ground arith in
            elim (Option-cases (codec.decode n.bytes)) [
              | inl d ↦
                  bad-Verdict f key n.bytes fs corrupt valid (l ∙ rw (small, d) refl) (fits, d)
              | inr (t, d) ↦ elim (Bool-cases (t.format_version == persist_format_version)) [
                | inl same ↦
                    let good : load_persisted_token codec f key fs
                        ≡ (fs, loaded t.id_token t.refresh_token) =
                      l ∙ rw (small, d, same) refl in
                    rw good (
                      inl (
                        t,
                        refl,
                        fits,
                        d,
                        (==_iff t.format_version persist_format_version).0 same,
                        refl,
                      ))
                | inr other ↦
                    bad-Verdict f key n.bytes fs unknown_version valid
                      (l ∙ rw (small, d, other) refl) (fits, t, d, λ same. absurd (ground arith))
              ]
            ]
      ]
