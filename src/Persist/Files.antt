-- ===== src/Persist/Files.antt =====
-- The runtime directory as the system calls of the daemon see it (the Unix build): the node of
-- each name, if there is one.
use mathlib.Core.Option
use kubelogin_daemon.Prelude.{
  ℕ, zero, suc, Bool, true, false, Option, none, some, List, [], ◌∷◌, take, if◌then◌else◌,
}
use kubelogin_daemon.Text.{Text, text_eq}
use kubelogin_daemon.State.{Time}

pub data Kind : Type 0 where
  regular symlink directory : Kind

-- `is_private` is mode 0600.
pub record Node : Type 0 where
  pub kind : Kind
  pub bytes : Text
  pub is_private : Bool
  pub mod_time : Time

abbrev pub Fs : Type 0
Fs = Text → Option Node

pub data Syscall : Type 0 where
  mkdir : Syscall
  create chmod sync close remove harden : Text → Syscall
  write_file : Text → Text → Syscall
  rename : Text → Text → Syscall

abbrev pub put : Text → Option Node → Fs → Fs
put name n fs k = if text_eq name k then n else fs k

-- Changes the node of a name, if there is one.
abbrev pub update : Text → (Node → Node) → Fs → Fs
update name f fs = put name (Option.map f (fs name)) fs

-- `os.Rename`: the file takes the place of what stands under the new name.
abbrev pub move : Text → Text → Option Node → Fs → Fs
move from to none fs = fs
move from to (some n) fs = put to (some n) (put from none fs)

abbrev pub new_file : Time → Node
new_file now = record { kind = Kind.regular; bytes = []; is_private = false; mod_time = now }

-- A successful call at time `now`. `mkdir`, `sync` and `close` leave the names and bytes alone.
abbrev pub exec : Time → Syscall → Fs → Fs
exec now mkdir fs = fs
exec now (create name) fs = put name (some (new_file now)) fs
exec now (chmod name) fs = update name (λ n. record n { is_private = true }) fs
exec now (harden name) fs = update name (λ n. record n { is_private = true }) fs
exec now (write_file name bytes) fs =
    update name (λ n. record n { bytes = bytes; mod_time = now }) fs
exec now (sync name) fs = fs
exec now (close name) fs = fs
exec now (rename from to) fs = move from to (fs from) fs
exec now (remove name) fs = put name none fs

abbrev pub run_calls : Time → List Syscall → Fs → Fs
run_calls now [] fs = fs
run_calls now (c ∷ cs) fs = run_calls now cs (exec now c fs)

-- A property of every state that a list of calls goes through.
abbrev pub Throughout {ℓ} : (Fs → Type ℓ) → Time → List Syscall → Fs → Type ℓ
Throughout P now [] fs = P fs
Throughout P now (c ∷ cs) fs = P fs × Throughout P now cs (exec now c fs)

-- So it holds where the process stops after any number of them.
pub Throughout_crash {ℓ} :
    (P : Fs → Type ℓ) (now : Time) (n : ℕ) (cs : List Syscall) (fs : Fs)
    → Throughout P now cs fs
    → P (run_calls now (take n cs) fs)
Throughout_crash P now zero [] fs h = h
Throughout_crash P now zero (c ∷ cs) fs h = h.0
Throughout_crash P now (suc n) [] fs h = h
Throughout_crash P now (suc n) (c ∷ cs) fs h = Throughout_crash P now n cs (exec now c fs) h.1
