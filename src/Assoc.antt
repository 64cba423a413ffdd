-- ===== src/Assoc.antt =====
-- Go's `map[string]V` and `sync.Map`: association lists keyed by `Text`. Go leaves the order of an
-- iteration open, and the statements over these lists hold for every order of the entries.
use kubelogin_daemon.Prelude.{
  suc, ◌≤◌, ◌≡◌, refl, Bool, true, false, Option, none, some, List, [], ◌∷◌, arith, length,
  if◌then◌else◌, Bool-cases, All, inl, inr, ap,
}
use mathlib.Core.Path.{subst}
use kubelogin_daemon.Text.{Text, text_eq, text_eq_iff}

abbrev pub Assoc {ℓ} : Type ℓ → Type ℓ
Assoc V = List (Text × V)

module _ {ℓ} {V : Type ℓ} where
  unfoldable pub lookup : Text → Assoc V → Option V
  lookup k [] = none
  lookup k ((j, v) ∷ m) = if text_eq j k then some v else lookup k m

  abbrev pub has : Text → Assoc V → Bool
  has k m = elim (lookup k m) [ none ↦ false | some _ ↦ true ]

  -- `m[k] = v`.
  unfoldable pub insert : Text → V → Assoc V → Assoc V
  insert k v [] = (k, v) ∷ []
  insert k v ((j, w) ∷ m) = if text_eq j k then (j, v) ∷ m else (j, w) ∷ insert k v m

  -- `delete(m, k)`.
  unfoldable pub delete : Text → Assoc V → Assoc V
  delete k [] = []
  delete k ((j, w) ∷ m) = if text_eq j k then delete k m else (j, w) ∷ delete k m

  -- `for k, v := range m { if p(v) { delete(m, k) } }`.
  unfoldable pub delete_where : (V → Bool) → Assoc V → Assoc V
  delete_where p [] = []
  delete_where p ((j, w) ∷ m) = if p w then delete_where p m else (j, w) ∷ delete_where p m

  -- No key stands twice.
  abbrev pub Unique : Assoc V → Type ℓ
  Unique [] = Unit
  Unique ((k, v) ∷ m) = (lookup k m ≡ none) × Unique m

  pub lookup-insert :
      (k j : Text) (v : V) (m : Assoc V)
      → lookup j (insert k v m) ≡ (if text_eq k j then some v else lookup j m)
  unfolding lookup insert
  lookup-insert k j v [] = refl
  lookup-insert k j v ((i, w) ∷ m) =
      ground (arith, text_eq_iff k j, text_eq_iff i k, text_eq_iff i j, lookup-insert k j v m)

  pub lookup-delete :
      (k j : Text) (m : Assoc V)
      → lookup j (delete k m) ≡ (if text_eq k j then none else lookup j m)
  unfolding lookup delete
  lookup-delete k j [] = ground arith
  lookup-delete k j ((i, w) ∷ m) =
      ground (arith, text_eq_iff k j, text_eq_iff i k, text_eq_iff i j, lookup-delete k j m)

  -- A deletion by value loses no entry that fails the test.
  pub lookup-delete_where :
      (p : V → Bool) (k : Text) (m : Assoc V) (v : V)
      → lookup k m ≡ some v
      → p v ≡ false
      → Unique m
      → lookup k (delete_where p m) ≡ some v
  unfolding lookup delete_where
  lookup-delete_where p k [] v h e u = h
  lookup-delete_where p k ((i, w) ∷ m) v h e u = ground (arith, lookup-delete_where p k m v)

  pub lookup-delete_where-none :
      (p : V → Bool) (k : Text) (m : Assoc V)
      → lookup k m ≡ none
      → lookup k (delete_where p m) ≡ none
  unfolding lookup delete_where
  lookup-delete_where-none p k [] h = refl
  lookup-delete_where-none p k ((i, w) ∷ m) h = ground (arith, lookup-delete_where-none p k m)

  pub Unique-delete_where : (p : V → Bool) (m : Assoc V) → Unique m → Unique (delete_where p m)
  unfolding delete_where
  Unique-delete_where p [] u = tt
  Unique-delete_where p ((i, w) ∷ m) u =
      ground (arith, Unique-delete_where p m u.1, lookup-delete_where-none p i m u.0)

  pub Unique-insert : (k : Text) (v : V) (m : Assoc V) → Unique m → Unique (insert k v m)
  unfolding insert lookup
  Unique-insert k v [] u = (refl, tt)
  Unique-insert k v ((i, w) ∷ m) u =
      ground
        (arith, text_eq_iff i k, text_eq_iff k i, lookup-insert k i v m, Unique-insert k v m u.1)

  pub Unique-delete : (k : Text) (m : Assoc V) → Unique m → Unique (delete k m)
  unfolding delete
  Unique-delete k [] u = tt
  Unique-delete k ((i, w) ∷ m) u =
      ground (arith, Unique-delete k m u.1, text_eq_iff k i, text_eq_iff i k, lookup-delete k i m)

  pub length-insert :
      (k : Text) (v : V) (m : Assoc V)
      → length (insert k v m) ≡ (if has k m then length m else suc (length m))
  unfolding lookup insert
  length-insert k v [] = refl
  length-insert k v ((i, w) ∷ m) = ground (arith, length-insert k v m)

  delete_absent : (k : Text) (m : Assoc V) → lookup k m ≡ none → delete k m ≡ m
  unfolding lookup delete
  delete_absent k [] h = refl
  delete_absent k ((i, w) ∷ m) h = ground (arith, delete_absent k m)

  pub length-delete :
      (k : Text) (m : Assoc V) → Unique m → has k m ≡ true → suc (length (delete k m)) ≡ length m
  unfolding lookup delete
  length-delete k [] u h = cc
  length-delete k ((i, w) ∷ m) u h =
      ground (arith, text_eq_iff i k, length-delete k m u.1, ap length (delete_absent i m u.0))

  pub length-delete_where_le : (p : V → Bool) (m : Assoc V) → length (delete_where p m) ≤ length m
  unfolding delete_where
  length-delete_where_le p [] = omega arith
  length-delete_where_le p ((i, w) ∷ m) = ground (arith, length-delete_where_le p m)

  -- A property of every value.
  abbrev pub AllValues {κ} : (V → Type κ) → Assoc V → Type κ
  AllValues P = All (λ e. P e.1)

  pub AllValues-insert {κ} :
      (P : V → Type κ) (k : Text) (v : V) (m : Assoc V)
      → P v
      → AllValues P m
      → AllValues P (insert k v m)
  unfolding insert
  AllValues-insert P k v [] p a = (p, tt)
  AllValues-insert P k v ((i, w) ∷ m) p a = elim (Bool-cases (text_eq i k)) [
    | inl e ↦ rw e (p, a.1)
    | inr e ↦ rw e (a.0, AllValues-insert P k v m p a.1)
  ]

  pub AllValues-delete {κ} :
      (P : V → Type κ) (k : Text) (m : Assoc V) → AllValues P m → AllValues P (delete k m)
  unfolding delete
  AllValues-delete P k [] a = tt
  AllValues-delete P k ((i, w) ∷ m) a = elim (Bool-cases (text_eq i k)) [
    | inl e ↦ rw e (AllValues-delete P k m a.1)
    | inr e ↦ rw e (a.0, AllValues-delete P k m a.1)
  ]

  pub AllValues-delete_where {κ} :
      (P : V → Type κ) (p : V → Bool) (m : Assoc V) → AllValues P m → AllValues P (delete_where p m)
  unfolding delete_where
  AllValues-delete_where P p [] a = tt
  AllValues-delete_where P p ((i, w) ∷ m) a = elim (Bool-cases (p w)) [
    | inl e ↦ rw e (AllValues-delete_where P p m a.1)
    | inr e ↦ rw e (a.0, AllValues-delete_where P p m a.1)
  ]

  -- What the deletion leaves fails the test.
  pub delete_where-AllValues :
      (p : V → Bool) (m : Assoc V) → AllValues (λ v. p v ≡ false) (delete_where p m)
  unfolding delete_where
  delete_where-AllValues p [] = tt
  delete_where-AllValues p ((i, w) ∷ m) = elim (Bool-cases (p w)) [
    | inl e ↦ rw e (delete_where-AllValues p m)
    | inr e ↦ rw e (e, delete_where-AllValues p m)
  ]

  pub AllValues-lookup {κ} :
      (P : V → Type κ) (k : Text) (m : Assoc V) {v : V} → AllValues P m → lookup k m ≡ some v → P v
  unfolding lookup
  AllValues-lookup P k [] a h = cc
  AllValues-lookup P k ((i, w) ∷ m) {v} a h = elim (Bool-cases (text_eq i k)) [
    | inl e ↦ let same : w ≡ v = ground arith in subst P same a.0
    | inr e ↦ AllValues-lookup P k m a.1 (rw e at h)
  ]
