-- ===== src/Shim/Autostart/Herd.antt =====
-- pkg/shim/autostart_common.go: many shims that start a daemon at the same time. A step is one call
-- on the guard directory by any of them, or time that passes; between the `os.Stat` that finds an old
-- guard and the `os.Remove` that follows, other shims may do anything.
use kubelogin_daemon.Prelude.{
  Option-cases, ◌*◌, ◌<◌, ltb→lt, ◌⊎◌, inl, inr, refl, ℕ, ◌+◌, ◌-◌, ◌≤◌, ◌≡◌, Bool, true, false,
  Option, none, some, List, [], ◌∷◌, arith, length, ◌==◌, if◌then◌else◌,
}
use kubelogin_daemon.Shim.Requests.{second}
use kubelogin_daemon.Shim.Autostart.{is_old}

-- The time at which the guard was made, if it is there; the clock; the shims that fork; those that
-- have seen an old guard and are about to remove it; and how many guards have been removed so.
pub record Herd : Type 0 where
  pub guard : Option ℕ
  pub now : ℕ
  pub starters : List ℕ
  pub removers : List ℕ
  pub removals : ℕ

-- `os.Mkdir` of the guard: the shim whose call makes it goes on to fork.
unfoldable pub make_guard : ℕ → Herd → Herd
make_guard pid h = elim h.guard [
  | some t ↦ h
  | none ↦ record h { guard = some h.now; starters = pid ∷ h.starters }
]

-- The list without a number.
unfoldable pub without : ℕ → List ℕ → List ℕ
without pid [] = []
without pid (p ∷ pids) = if p == pid then without pid pids else p ∷ without pid pids

unfoldable pub is_in : ℕ → List ℕ → Bool
is_in pid [] = false
is_in pid (p ∷ pids) = if p == pid then true else is_in pid pids

-- The age of the guard, from `os.Stat`.
unfoldable pub guard_age : Herd → Option ℕ
guard_age h = elim h.guard [ none ↦ none | some t ↦ some (h.now - t) ]

-- A shim that finds the guard old.
abbrev pub see_old : ℕ → Herd → Herd
see_old pid h = record h { removers = pid ∷ h.removers }

-- Its `os.Remove`, of whatever guard stands then.
unfoldable pub remove_old : ℕ → Herd → Herd
remove_old pid h = elim h.guard [
  | none ↦ record h { removers = without pid h.removers }
  | some t ↦ record h { guard = none; removers = without pid h.removers; removals = 1 + h.removals }
]

-- The end of a start, with `defer os.Remove(startingDir)`, and a crash, which leaves the guard.
abbrev pub finish_start : ℕ → Herd → Herd
finish_start pid h = record h { guard = none; starters = without pid h.starters }

abbrev pub crash : ℕ → Herd → Herd
crash pid h = record h { starters = without pid h.starters; removers = without pid h.removers }

pub data Step : Herd → Herd → Type 0 where
  passes : (h : Herd) (n : ℕ) → Step h (record h { now = h.now + n })
  tries : (h : Herd) (pid : ℕ) → Step h (make_guard pid h)
  sees_old : (h : Herd) (pid : ℕ) → is_old (guard_age h) ≡ true → Step h (see_old pid h)
  removes_old : (h : Herd) (pid : ℕ) → is_in pid h.removers ≡ true → Step h (remove_old pid h)
  finishes : (h : Herd) (pid : ℕ) → is_in pid h.starters ≡ true → Step h (finish_start pid h)
  crashes : (h : Herd) (pid : ℕ) → Step h (crash pid h)

pub data Run : Herd → Herd → Type 0 where
  here : (h : Herd) → Run h h
  onward : {a b c : Herd} → Run a b → Step b c → Run a c

abbrev pub no_starter : Herd
no_starter = record { guard = none; now = 0; starters = []; removers = []; removals = 0 }

abbrev stands : Option ℕ → ℕ
stands none = 0
stands (some t) = 1

-- The shims that fork, apart from the maker of the guard, are due to guards that were removed.
abbrev IsBounded : Herd → Type 0
IsBounded h = length h.starters ≤ stands h.guard + h.removals

length-without : (pid : ℕ) (pids : List ℕ) → length (without pid pids) ≤ length pids
unfolding without
length-without pid [] = omega arith
length-without pid (p ∷ pids) = ground (arith, length-without pid pids)

length-without_member :
    (pid : ℕ) (pids : List ℕ) → is_in pid pids ≡ true → 1 + length (without pid pids) ≤ length pids
unfolding without is_in
length-without_member pid [] h = cc
length-without_member pid (p ∷ pids) h =
    ground (arith, length-without pid pids, length-without_member pid pids)

make_guard-IsBounded : (pid : ℕ) (h : Herd) → IsBounded h → IsBounded (make_guard pid h)
unfolding make_guard
make_guard-IsBounded pid h i = ground arith

remove_old-IsBounded : (pid : ℕ) (h : Herd) → IsBounded h → IsBounded (remove_old pid h)
unfolding remove_old
remove_old-IsBounded pid h i = ground arith

stands_le : (g : Option ℕ) → stands g ≤ 1
stands_le none = omega arith
stands_le (some t) = omega arith

Step-IsBounded : {a b : Herd} → Step a b → IsBounded a → IsBounded b
Step-IsBounded (passes h n) i = i
Step-IsBounded (tries h pid) i = make_guard-IsBounded pid h i
Step-IsBounded (sees_old h pid old) i = i
Step-IsBounded (removes_old h pid e) i = remove_old-IsBounded pid h i
Step-IsBounded (finishes h pid e) i =
    let fewer = length-without_member pid h.starters e in let one = stands_le h.guard in omega arith
Step-IsBounded (crashes h pid) i = let fewer = length-without pid h.starters in omega arith

Run-IsBounded : {a b : Herd} → Run a b → IsBounded a → IsBounded b
Run-IsBounded (here h) i = i
Run-IsBounded (onward run step) i = Step-IsBounded step (Run-IsBounded run i)

-- The guard stands for more than ten seconds.
abbrev pub IsLeft : Herd → Type 0
IsLeft h = (t : ℕ) × (h.guard ≡ some t) × (t + 10 * second < h.now)

is_old-IsLeft : (h : Herd) → is_old (guard_age h) ≡ true → IsLeft h
unfolding is_old guard_age
is_old-IsLeft h old = elim (Option-cases h.guard) [
  | inl e ↦ absurd (ground arith)
  | inr (t, e) ↦ (t, e, ground (arith, ltb→lt (10 * second) (h.now - t)))
]

-- At some step of the run a guard had stood for more than ten seconds.
unfoldable pub HasOld : {a b : Herd} → Run a b → Type 0
HasOld (here h) = ⊥
HasOld (onward {a} {b} {c} run step) = HasOld run ⊎ IsLeft b

-- No shim has removed a guard, or is about to.
abbrev IsQuiet : Herd → Type 0
IsQuiet h = (h.removers ≡ []) × (h.removals ≡ 0)

make_guard-IsQuiet : (pid : ℕ) (h : Herd) → IsQuiet h → IsQuiet (make_guard pid h)
unfolding make_guard
make_guard-IsQuiet pid h q = elim (Option-cases h.guard) [
  | inl e ↦ rw (e, make_guard) q
  | inr (t, e) ↦ rw (e, make_guard) q
]

none_left : (pid : ℕ) (pids : List ℕ) → pids ≡ [] → without pid pids ≡ []
unfolding without
none_left pid pids e = rw e refl

none_in : (pid : ℕ) (pids : List ℕ) → pids ≡ [] → is_in pid pids ≡ true → ⊥
unfolding is_in
none_in pid pids e h = absurd (ground arith)

Step-IsQuiet : {a b : Herd} → Step a b → IsQuiet a → IsQuiet b ⊎ IsLeft a
Step-IsQuiet (passes h n) q = inl q
Step-IsQuiet (tries h pid) q = inl (make_guard-IsQuiet pid h q)
Step-IsQuiet (sees_old h pid old) q = inr (is_old-IsLeft h old)
Step-IsQuiet (removes_old h pid e) q = elim (none_in pid h.removers q.0 e) [ ]
Step-IsQuiet (finishes h pid e) q = inl q
Step-IsQuiet (crashes h pid) q = inl (none_left pid h.removers q.0, q.1)

Run-IsQuiet : {a b : Herd} (run : Run a b) → IsQuiet a → IsQuiet b ⊎ HasOld run
unfolding HasOld
Run-IsQuiet (here h) q = inl q
Run-IsQuiet (onward run step) q = elim (Run-IsQuiet run q) [
  | inr old ↦ inr (inl old)
  | inl quiet ↦ elim (Step-IsQuiet step quiet) [ inl still ↦ inl still | inr old ↦ inr (inr old) ]
]

-- From a state without guard and starters, over any interleaving of the calls of any number of
-- shims, crashes and late ends of starts included: the shims that start a daemon at one time are at
-- most one more than the guards that shims have removed as left over. None was removed so, and at
-- most one shim starts a daemon, unless at some step a guard had stood for more than ten seconds.
pub Run-starters :
    (h : Herd) (run : Run no_starter h)
    → (length h.starters ≤ 1 + h.removals) × ((h.removals ≡ 0) ⊎ HasOld run)
Run-starters h run =
    let bounded = Run-IsBounded run (omega arith) in
    let one = stands_le h.guard in
    (
      omega arith,
      elim (Run-IsQuiet run (refl, refl)) [ inl quiet ↦ inl quiet.1 | inr old ↦ inr old ],
    )
