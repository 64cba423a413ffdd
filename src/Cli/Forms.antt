-- ===== src/Cli/Forms.antt =====
-- `parseExecArgs` reads every spelling of a flag that pflag accepts in the same way.
use kubelogin_daemon.Prelude.{
  ◌≡◌, refl, Bool, true, false, not, ◌&&◌, Option, List, [], ◌∷◌, arith, ltb, ap, ◌∙◌, sym,
}
use kubelogin_daemon.Text.{Text, codes, has_prefix}
use kubelogin_daemon.Strings.{byte_length, lacks, assign, cut_at-assign, cut_at_lacking}
use kubelogin_daemon.Cli.Options.{ℤ, ParsedConfig, set_flag}
use kubelogin_daemon.Cli.Args.{is_bool_flag, normalize, take_value, read_flag, parse_args}

-- The name of a flag that is not a letter: it does not begin with a dash, and is longer than one
-- byte.
unfoldable pub is_long : Text → Bool
is_long name = not (has_prefix name (codes "-")) && ltb 1 (byte_length name)

abbrev pub one_dash : Text → Text
one_dash name = b'-' ∷ name

abbrev pub two_dashes : Text → Text
two_dashes name = b'-' ∷ b'-' ∷ name

normalize_one : (name : Text) → is_long name ≡ true → normalize (one_dash name) ≡ two_dashes name
unfolding normalize is_long has_prefix byte_length
normalize_one [] h = cc
normalize_one (c ∷ name) h = ground arith

normalize_two : (name : Text) → normalize (two_dashes name) ≡ two_dashes name
unfolding normalize has_prefix
normalize_two [] = refl
normalize_two (c ∷ name) = refl

starts_dashed : (s : Text) → has_prefix (b'-' ∷ s) (codes "-") ≡ true
unfolding has_prefix
starts_dashed [] = refl
starts_dashed (c ∷ s) = refl

is_long-assign : (name val : Text) → is_long name ≡ true → is_long (assign name val) ≡ true
unfolding is_long has_prefix byte_length
is_long-assign [] val h = cc
is_long-assign (c ∷ []) val h = ground arith
is_long-assign (c ∷ d ∷ name) val h = ground arith

pub read_assigned :
    (key val : Text) (args : List Text)
    → lacks b'=' key ≡ true
    → read_flag (assign key val) args ≡ record { key = key; val = val; took_next = false }
unfolding read_flag
read_assigned key val args plain = rw (cut_at-assign key val plain, read_flag) refl

read_separate :
    (key val : Text) (args : List Text)
    → lacks b'=' key ≡ true
    → is_bool_flag key ≡ false
    → read_flag key (val ∷ args) ≡ record { key = key; val = val; took_next = true }
unfolding read_flag take_value
read_separate key val args plain valued =
    rw (cut_at_lacking b'=' key plain, read_flag) (rw (valued, take_value) refl)

module _ (parse_int : Text → Option ℤ) where
  pub parse_args_flag :
      (cfg : ParsedConfig) (arg key val : Text) (taken : Bool) (args : List Text)
      → has_prefix arg (codes "-") ≡ true
      → read_flag (normalize arg) args ≡ record { key = key; val = val; took_next = taken }
      → parse_args parse_int false cfg (arg ∷ args)
        ≡ parse_args parse_int taken (set_flag parse_int key val cfg) args
  unfolding parse_args
  parse_args_flag cfg arg key val taken args h e = rw (h, e, parse_args) refl

  parse_assigned :
      (cfg : ParsedConfig) (arg name val : Text) (args : List Text)
      → has_prefix arg (codes "-") ≡ true
      → normalize arg ≡ two_dashes (assign name val)
      → lacks b'=' name ≡ true
      → parse_args parse_int false cfg (arg ∷ args)
        ≡ parse_args parse_int false (set_flag parse_int (two_dashes name) val cfg) args
  unfolding lacks
  parse_assigned cfg arg name val args h e plain =
      parse_args_flag cfg arg (two_dashes name) val false args h
        (ap (λ a. read_flag a args) e ∙ read_assigned (two_dashes name) val args plain)

  parse_separate :
      (cfg : ParsedConfig) (arg name val : Text) (args : List Text)
      → has_prefix arg (codes "-") ≡ true
      → normalize arg ≡ two_dashes name
      → lacks b'=' name ≡ true
      → is_bool_flag (two_dashes name) ≡ false
      → parse_args parse_int false cfg (arg ∷ val ∷ args)
        ≡ parse_args parse_int false (set_flag parse_int (two_dashes name) val cfg) args
  unfolding lacks parse_args
  parse_separate cfg arg name val args h e plain valued =
      parse_args_flag cfg arg (two_dashes name) val true (val ∷ args) h (
        ap (λ a. read_flag a (val ∷ args)) e
        ∙ read_separate (two_dashes name) val args plain valued)

  pub parse_option :
      (cfg : ParsedConfig) (name val : Text) (args : List Text)
      → lacks b'=' name ≡ true
      → parse_args parse_int false cfg (assign (two_dashes name) val ∷ args)
        ≡ parse_args parse_int false (set_flag parse_int (two_dashes name) val cfg) args
  parse_option cfg name val args plain =
      parse_assigned cfg (two_dashes (assign name val)) name val args
        (starts_dashed (one_dash (assign name val))) (normalize_two (assign name val)) plain

  -- For a flag that takes a value, the spellings `-name=val`, `--name=val`, `-name val` and
  -- `--name val` are read alike, whatever the value is and whatever stands before and behind
  -- them, where the name is longer than one byte, does not begin with a dash and has no `=`.
  pub parse_args_spellings :
      (cfg : ParsedConfig) (name val : Text) (args : List Text)
      → is_long name ≡ true
      → lacks b'=' name ≡ true
      → is_bool_flag (two_dashes name) ≡ false
      → (parse_args parse_int false cfg (one_dash (assign name val) ∷ args)
          ≡ parse_args parse_int false cfg (two_dashes name ∷ val ∷ args))
        × (parse_args parse_int false cfg (two_dashes (assign name val) ∷ args)
            ≡ parse_args parse_int false cfg (two_dashes name ∷ val ∷ args))
        × (parse_args parse_int false cfg (one_dash name ∷ val ∷ args)
            ≡ parse_args parse_int false cfg (two_dashes name ∷ val ∷ args))
  parse_args_spellings cfg name val args long plain valued =
      let two = sym (
        parse_separate cfg (two_dashes name) name val args (starts_dashed (one_dash name))
          (normalize_two name) plain valued) in
      (
        parse_assigned cfg (one_dash (assign name val)) name val args
              (starts_dashed (assign name val))
              (normalize_one (assign name val) (is_long-assign name val long)) plain
            ∙ two,
        parse_option cfg name val args plain ∙ two,
        parse_separate cfg (one_dash name) name val args (starts_dashed name)
              (normalize_one name long) plain valued
            ∙ two,
      )
