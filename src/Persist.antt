-- ===== src/Persist.antt =====
-- The token files of the runtime directory: pkg/daemon/persist.go, with `generateNonce` and
-- `cleanupStaleTempFiles` of pkg/daemon/server.go and `openNoFollow` of pkg/daemon/persist_unix.go.
-- A writer is the list of the system calls that it makes with its result, so that a crash between
-- two calls is a prefix of the list. Which calls fail is an argument.
pub mod Files
pub mod Atomic
pub mod Loading
pub mod Cleanup
pub mod Samples
mod Examples
use kubelogin_daemon.Prelude.{
  ℕ, ◌-◌, ◌≡◌, Bool, true, false, not, ◌&&◌, ◌||◌, Option, none, some, List, [], ◌∷◌, ◌++◌, arith,
  ltb, leb, ◌==◌, length, take, if◌then◌else◌,
}
use kubelogin_daemon.Text.{Text, codes, is_ascii, is_empty, contains, has_suffix}
use kubelogin_daemon.State.{Time}
use Files.{
  Fs, Node, Kind, Syscall, put, mkdir, create, chmod, write_file, sync, close, rename, remove,
  harden,
}

abbrev is_hex : ℕ → Bool
is_hex c = leb b'a' c && leb c b'f' || (leb b'A' c && leb c b'F' || leb b'0' c && leb c b'9')

abbrev pub all_hex : Text → Bool
all_hex [] = true
all_hex (c ∷ s) = is_hex c && all_hex s

-- `IsValidCacheKey`: the expression `^[a-fA-F0-9]{1,128}$`.
abbrev pub is_valid_cache_key : Text → Bool
is_valid_cache_key name = not (is_empty name) && leb (length name) 128 && all_hex name

-- 10 << 20.
abbrev pub max_persist_file_size : ℕ
max_persist_file_size = 10_485_760

abbrev pub persist_format_version : ℕ
persist_format_version = 1

pub record PersistedToken : Type 0 where
  pub format_version : ℕ
  pub id_token : Text
  pub refresh_token : Text

-- What the code relies on of `encoding/json` for this type: ASCII strings survive a round trip.
pub record Codec : Type 0 where
  pub encode : PersistedToken → Text
  pub decode : Text → Option PersistedToken
  pub decode-encode :
      (t : PersistedToken)
      → is_ascii t.id_token ≡ true
      → is_ascii t.refresh_token ≡ true
      → decode (encode t) ≡ some t

-- Which system calls of a writer fail. A failed write may have written some bytes.
pub record Faults : Type 0 where
  pub mkdir_fails : Bool
  pub create_fails : Bool
  pub chmod_fails : Bool
  pub write_fails : Option ℕ
  pub sync_fails : Bool
  pub close_fails : Bool
  pub rename_fails : Bool
  pub remove_fails : Bool
  pub harden_fails : Bool

pub data PersistError : Type 0 where
  invalid_cache_key create_dir create_temp chmod_temp write_temp fsync_temp close_temp :
      PersistError
  rename_temp harden_final : PersistError

-- `os.Remove(tmpPath)`, whose error the code ignores.
remove_temp : Faults → Text → List Syscall
remove_temp f tmp = if f.remove_fails then [] else remove tmp ∷ []

-- `atomicWriteFile`, the writer that `PersistToken` and `generateNonce` repeat: the temporary
-- file `tmp` gets its mode, the bytes and an fsync, and takes the place of `path`. From the fsync:
sync_and_rename : Faults → Text → Text → List Syscall × Option PersistError
unfolding remove_temp
sync_and_rename f tmp path =
    if f.sync_fails
    then (close tmp ∷ remove_temp f tmp, some fsync_temp)
    else if f.close_fails
    then (sync tmp ∷ remove_temp f tmp, some close_temp)
    else if f.rename_fails
    then (sync tmp ∷ close tmp ∷ remove_temp f tmp, some rename_temp)
    else (sync tmp ∷ close tmp ∷ rename tmp path ∷ [], none)

write_temp_file : Option ℕ → Faults → Text → Text → Text → List Syscall × Option PersistError
unfolding remove_temp sync_and_rename
write_temp_file (some n) f tmp path bytes =
    (write_file tmp (take n bytes) ∷ close tmp ∷ remove_temp f tmp, some write_temp)
write_temp_file none f tmp path bytes =
    let (calls, e) = sync_and_rename f tmp path in (write_file tmp bytes ∷ calls, e)

-- `atomicWriteFile`, and the like stretch of `PersistToken` and of `generateNonce`: `tmp` is the name
-- that `os.CreateTemp` finds.
unfoldable pub replace_file : Faults → Text → Text → Text → List Syscall × Option PersistError
unfolding write_temp_file sync_and_rename remove_temp
replace_file f tmp path bytes =
    let (calls, e) = write_temp_file f.write_fails f tmp path bytes in
    if f.create_fails
    then ([], some create_temp)
    else if f.chmod_fails
    then (create tmp ∷ close tmp ∷ remove_temp f tmp, some chmod_temp)
    else (create tmp ∷ chmod tmp ∷ calls, e)

abbrev pub token_file : Text → Text
token_file key = key ++ codes ".json"

-- `os.CreateTemp` puts `suffix` for the `*`.
abbrev pub temp_file : Text → Text → Text
temp_file key suffix = key ++ (codes ".tmp." ++ suffix)

-- The end of `PersistToken` and `generateNonce`: the permissions of the final file.
harden_after :
    Faults → Text → List Syscall × Option PersistError → List Syscall × Option PersistError
harden_after f path (calls, some e) = (calls, some e)
harden_after f path (calls, none) =
    if f.harden_fails then (calls, some harden_final) else (calls ++ harden path ∷ [], none)

module _ (codec : Codec) where
  abbrev pub token_bytes : Text → Text → Text
  token_bytes id_token refresh_token = codec.encode (record {
    format_version = persist_format_version;
    id_token = id_token;
    refresh_token = refresh_token;
  })

  -- `PersistToken`. Marshalling a struct of strings does not fail.
  unfoldable pub persist_token :
      Faults → Text → Text → Text → Text → List Syscall × Option PersistError
  unfolding replace_file harden_after
  persist_token f suffix key id_token refresh_token =
      let path = token_file key in
      let (calls, e) =
        harden_after f path
          (replace_file f (temp_file key suffix) path (token_bytes id_token refresh_token)) in
      if not (is_valid_cache_key key)
      then ([], some invalid_cache_key)
      else if f.mkdir_fails
      then ([], some create_dir)
      else (mkdir ∷ calls, e)

-- `generateNonce`, after the random bytes have been drawn and encoded as `nonce`.
unfoldable pub generate_nonce : Faults → Text → Text → List Syscall × Option PersistError
unfolding replace_file harden_after
generate_nonce f suffix nonce =
    harden_after f (codes "nonce")
      (replace_file f (temp_file (codes "nonce") suffix) (codes "nonce") nonce)

pub data LoadError : Type 0 where
  invalid_cache_key is_symlink open_file read_file too_large corrupt unknown_version : LoadError

pub data Loaded : Type 0 where
  loaded : Text → Text → Loaded
  load_failed : LoadError → Loaded

-- No file: empty tokens and no error.
abbrev pub no_token : Loaded
no_token = loaded [] []

-- Which calls of a reader fail, apart from those that the state of the directory makes fail.
pub record ReadFaults : Type 0 where
  pub open_fails : Bool
  pub read_fails : Bool
  pub remove_fails : Bool

-- `os.Remove` of a bad file, whose error the code ignores.
discard : ReadFaults → Text → Fs → Fs
discard f path fs = if f.remove_fails then fs else put path none fs

check_version : ReadFaults → Option PersistedToken → Text → Fs → Fs × Loaded
unfolding discard
check_version f none path fs = (discard f path fs, load_failed corrupt)
check_version f (some t) path fs =
    if t.format_version == persist_format_version
    then (fs, loaded t.id_token t.refresh_token)
    else (discard f path fs, load_failed unknown_version)

module _ (codec : Codec) where
  -- A directory opens, and its read fails.
  read_node : ReadFaults → Text → Node → Kind → Fs → Fs × Loaded
  unfolding check_version discard
  read_node f path n Kind.symlink fs = (fs, load_failed is_symlink)
  read_node f path n Kind.directory fs = (fs, load_failed read_file)
  read_node f path n Kind.regular fs =
      if f.read_fails
      then (fs, load_failed read_file)
      else if ltb max_persist_file_size (length n.bytes)
      then (discard f path fs, load_failed too_large)
      else check_version f (codec.decode n.bytes) path fs

  open_node : ReadFaults → Text → Option Node → Fs → Fs × Loaded
  unfolding read_node
  open_node f path none fs = (fs, no_token)
  open_node f path (some n) fs =
      if f.open_fails then (fs, load_failed open_file) else read_node f path n n.kind fs

  -- `LoadPersistedToken`.
  unfoldable pub load_persisted_token : ReadFaults → Text → Fs → Fs × Loaded
  unfolding open_node
  load_persisted_token f key fs =
      if not (is_valid_cache_key key)
      then (fs, load_failed LoadError.invalid_cache_key)
      else open_node f (token_file key) (fs (token_file key)) fs

abbrev is_directory : Kind → Bool
is_directory Kind.directory = true
is_directory _ = false

abbrev pub sixty_seconds : Time
sixty_seconds = 60_000_000_000

abbrev pub is_temp_name : Text → Bool
is_temp_name name = contains name (codes ".tmp.") || has_suffix name (codes ".tmp")

abbrev is_stale : Time → Text → Node → Bool
is_stale now name n =
    not (is_directory n.kind) && is_temp_name name && not (ltb (now - sixty_seconds) n.mod_time)

-- `cleanupStaleTempFiles`, which treats each entry by itself. `kept` are the names whose `Info` or
-- `Remove` fails.
unfoldable pub cleanup_stale_temp_files : Time → (Text → Bool) → Fs → Fs
cleanup_stale_temp_files now kept fs name = elim (fs name) [
  | none ↦ none
  | some n ↦ if is_stale now name n && not (kept name) then none else some n
]
