-- ===== src/Persist/Atomic.antt =====
-- pkg/daemon/persist.go and `generateNonce`: a writer that is stopped anywhere leaves the old file
-- or the whole new one, and the secret is never in a file that others may read.
use kubelogin_daemon.Prelude.{
  Option, ◌⊎◌, inl, inr, refl, Bool-cases, ℕ, ◌≡◌, ◌⊎◌, ◌≢◌, true, false, none, some, [], ◌++◌,
  arith, take,
}
use kubelogin_daemon.Text.{Text, codes, text_eq, text_eq_refl, text_eq-append, text_eq_comm}
use kubelogin_daemon.State.{Time}
use kubelogin_daemon.Persist.Files.{Fs, Node, Kind, run_calls, Throughout, Throughout_crash}
use kubelogin_daemon.Persist.{
  Faults, PersistError, Codec, token_bytes, replace_file, persist_token, token_file, temp_file,
  is_valid_cache_key,
}

-- The directory `fs` at a stop of a writer of `bytes` to `path` by way of `tmp`, which began on
-- the directory `old`.
pub record IsWhole (old : Fs) (tmp path bytes : Text) (fs : Fs) : Type 0 where
  pub final :
      (fs path ≡ old path)
      ⊎ ((n : Node) × (fs path ≡ some n)
          × (n.kind ≡ Kind.regular)
          × (n.bytes ≡ bytes)
          × (n.is_private ≡ true))
  pub others :
      (name : Text) → text_eq tmp name ≡ false → text_eq path name ≡ false → fs name ≡ old name
  pub secret : (n : Node) → fs tmp ≡ some n → (n.bytes ≡ []) ⊎ (n.is_private ≡ true)

module _ (now : Time) (old : Fs) (tmp path bytes : Text) (new : old tmp ≡ none)
    (apart : text_eq tmp path ≡ false) where
  replace_file-Throughout :
      (f : Faults)
      → Throughout (IsWhole old tmp path bytes) now (replace_file f tmp path bytes).0 old
  unfolding replace_file
  replace_file-Throughout f = ground (arith, text_eq_refl tmp, text_eq_refl path)

-- The name of the temporary file differs from that of the final one.
pub temp_file-ne : (key suffix : Text) → text_eq (temp_file key suffix) (token_file key) ≡ false
unfolding text_eq
temp_file-ne key suffix = text_eq-append key (codes ".tmp." ++ suffix) (codes ".json")

PersistError-discrete : Discrete PersistError
PersistError-discrete = hlevel

module _ (codec : Codec) (f : Faults) (suffix key id_token refresh_token : Text) (now : Time)
    (old : Fs) where
  persist_token-Throughout :
      old (temp_file key suffix) ≡ none
      → Throughout
          (IsWhole old
            (temp_file key suffix)
            (token_file key)
            (token_bytes codec id_token refresh_token))
          now
          (persist_token codec f suffix key id_token refresh_token).0
          old
  unfolding persist_token
  persist_token-Throughout new = ground (
    arith,
    text_eq_refl (temp_file key suffix),
    text_eq_refl (token_file key),
    temp_file-ne key suffix,
  )

  -- Whatever calls fail, and after whatever number of its calls the process stops, `PersistToken`
  -- leaves under the final name what stood there or a private regular file with all the bytes of
  -- the new token, leaves every other name but the temporary one as it was, and has written to
  -- the temporary file only once that was private. The temporary name is free at the start.
  pub persist_token_crash :
      (n : ℕ)
      → old (temp_file key suffix) ≡ none
      → IsWhole old
          (temp_file key suffix)
          (token_file key)
          (token_bytes codec id_token refresh_token)
          (run_calls now (take n (persist_token codec f suffix key id_token refresh_token).0) old)
  persist_token_crash n new =
      Throughout_crash
        (IsWhole old (temp_file key suffix) (token_file key)
          (token_bytes codec id_token refresh_token))
        now n (persist_token codec f suffix key id_token refresh_token).0 old
        (persist_token-Throughout new)

  pub persist_token-parts :
      old (temp_file key suffix) ≡ none
      → let (calls, e) = persist_token codec f suffix key id_token refresh_token in
        let fs = run_calls now calls old in
        (f.remove_fails ≡ false → fs (temp_file key suffix) ≡ none)
        × (e ≡ none
            → (fs (temp_file key suffix) ≡ none)
              × (fs (token_file key)
                  ≡ some (record {
                    kind = Kind.regular;
                    bytes = token_bytes codec id_token refresh_token;
                    is_private = true;
                    mod_time = now;
                  })))
        × ((x : PersistError) (name : Text)
            → e ≡ some x
            → x ≢ PersistError.harden_final
            → text_eq (temp_file key suffix) name ≡ false
            → fs name ≡ old name)
  unfolding persist_token
  persist_token-parts new =
      let tmp = temp_file key suffix in
      let path = token_file key in
      let apart = temp_file-ne key suffix in
      let apart' = text_eq_comm path tmp in
      (
        λ r. ground (arith, text_eq_refl tmp),
        λ e.
            (ground (arith, text_eq_refl tmp), ground (arith, text_eq_refl tmp, text_eq_refl path)),
        λ x name e h other. ground (arith, text_eq_refl tmp),
      )

  abbrev new_node : Node
  new_node = record {
    kind = Kind.regular;
    bytes = token_bytes codec id_token refresh_token;
    is_private = true;
    mod_time = now;
  }

  -- The temporary file is gone, or its removal has failed.
  abbrev pub IsTidy : Fs → Type 0
  IsTidy fs = (fs (temp_file key suffix) ≡ none) ⊎ (f.remove_fails ≡ true)

  -- What `fs` is after a write of the new token over `old`, by its result.
  abbrev pub Outcome : Fs → Option PersistError → Type 0
  Outcome fs none = (fs (temp_file key suffix) ≡ none) × (fs (token_file key) ≡ some new_node)
  Outcome fs (some x) =
      IsTidy fs
      × ((x ≡ PersistError.harden_final)
          ⊎ ((name : Text) → (text_eq (temp_file key suffix) name ≡ true) ⊎ (fs name ≡ old name)))

  Outcome-of :
      (fs : Fs) (e : Option PersistError)
      → (f.remove_fails ≡ false → fs (temp_file key suffix) ≡ none)
      → (e ≡ none → (fs (temp_file key suffix) ≡ none) × (fs (token_file key) ≡ some new_node))
      → ((x : PersistError) (name : Text)
          → e ≡ some x
          → x ≢ PersistError.harden_final
          → text_eq (temp_file key suffix) name ≡ false
          → fs name ≡ old name)
      → Outcome fs e
  Outcome-of fs none gone done failed = done refl
  Outcome-of fs (some x) gone done failed = (
    elim (Bool-cases f.remove_fails) [ inl r ↦ inr r | inr r ↦ inl (gone r) ],
    elim (PersistError-discrete x PersistError.harden_final) [
      | yes e ↦ inl e
      | no n ↦ inr (λ name. elim (Bool-cases (text_eq (temp_file key suffix) name)) [
        | inl same ↦ inl same
        | inr other ↦ inr (failed x name refl n other)
      ])
    ],
  )

  -- When `PersistToken` returns without an error, the final file holds the new token, private, and
  -- no temporary file is left. With an error, the temporary file is gone, unless its removal fails,
  -- and, where the error is not that of the last `chmod`, every other name is as it was. The
  -- temporary name is free at the start.
  pub persist_token_result :
      old (temp_file key suffix) ≡ none
      → let (calls, e) = persist_token codec f suffix key id_token refresh_token in
        Outcome (run_calls now calls old) e
  persist_token_result new =
      let (gone, done, failed) = persist_token-parts new in Outcome-of _ _ gone done failed

  pub persist_token_valid :
      (persist_token codec f suffix key id_token refresh_token).1 ≡ none
      → is_valid_cache_key key ≡ true
  unfolding persist_token
  persist_token_valid done = ground arith
