-- ===== src/Cli/Updates.antt =====
-- An update of the exec sections of the picked users leaves no picked entry.
use mathlib.Core.Path.{subst}
use kubelogin_daemon.Prelude.{
  ◌≡◌, refl, sym, Bool, true, false, some, List, [], ◌∷◌, ◌⊎◌, inl, inr, arith, ap, ◌∙◌,
  Option-cases,
}
use kubelogin_daemon.Text.{Text}
use kubelogin_daemon.Assoc.{insert, Unique, Unique-insert}
use kubelogin_daemon.Cli.Kubeconfig.{ExecConfig, AuthInfo, Kubeconfig, find, has_command}
use kubelogin_daemon.Cli.Entries.{
  update_exec, update_all, users_where, Covered, users_where-Covered, Covered-users_where,
  Covered-drop, Covered-insert,
}

abbrev pub with_exec : AuthInfo → ExecConfig → AuthInfo
with_exec info exec = record info { exec = some exec }

abbrev pub put_info : Text → AuthInfo → Kubeconfig → Kubeconfig
put_info user info config = record config { auth_infos = insert user (some info) config.auth_infos }

module _ (change : ExecConfig → ExecConfig) where
  -- Nothing happens, or the exec section of the entry changes.
  pub update_exec-cases :
      (user : Text) (config : Kubeconfig)
      → (((test : Text → Bool) → has_command (find user config.auth_infos) test ≡ false)
          × (update_exec change user config ≡ config))
        ⊎ ((info : AuthInfo) × (exec : ExecConfig) × (find user config.auth_infos ≡ some info)
            × (info.exec ≡ some exec)
            × (update_exec change user config
                ≡ put_info user (with_exec info (change exec)) config))
  unfolding update_exec
  update_exec-cases user config = elim (Option-cases (find user config.auth_infos)) [
    | inl e ↦ inl (λ test. rw e refl, rw (e, update_exec) refl)
    | inr (info, e) ↦ elim (Option-cases info.exec) [
      | inl bare ↦
          inl (λ test. rw (e, has_command) (rw bare refl), rw (e, update_exec) (rw bare refl))
      | inr (exec, given) ↦ inr (info, exec, e, given, rw (e, update_exec) (rw given refl))
    ]
  ]

  update_exec-contexts :
      (user : Text) (config : Kubeconfig)
      → ((update_exec change user config).contexts ≡ config.contexts)
        × ((update_exec change user config).current_context ≡ config.current_context)
  update_exec-contexts user config = elim (update_exec-cases user config) [
    | inl (absent, same) ↦ (ap (λ c. c.contexts) same, ap (λ c. c.current_context) same)
    | inr (info, exec, found, given, new) ↦
        (ap (λ c. c.contexts) new, ap (λ c. c.current_context) new)
  ]

  pub update_all-contexts :
      (users : List Text) (config : Kubeconfig)
      → ((update_all change users config).contexts ≡ config.contexts)
        × ((update_all change users config).current_context ≡ config.current_context)
  unfolding update_all
  update_all-contexts [] config = (refl, refl)
  update_all-contexts (user ∷ users) config =
      let (contexts, current) = update_all-contexts users (update_exec change user config) in
      let (contexts_kept, current_kept) = update_exec-contexts user config in
      (contexts ∙ contexts_kept, current ∙ current_kept)

  module _ (test select : Text → Bool)
      (fails : (exec : ExecConfig) → test (change exec).command ≡ false) where
    update_exec-Covered :
        (user : Text) (users : List Text) (config : Kubeconfig)
        → Unique config.auth_infos
        → Covered test select (user ∷ users) config.auth_infos
        → Unique (update_exec change user config).auth_infos
          × Covered test select users (update_exec change user config).auth_infos
    update_exec-Covered user users config u c = elim (update_exec-cases user config) [
      | inl (none_there, same) ↦
          subst (λ new. Unique new.auth_infos × Covered test select users new.auth_infos) (sym same)
            (u, Covered-drop test select user users config.auth_infos u (none_there test) c)
      | inr (info, exec, found, given, new) ↦
          subst (λ new. Unique new.auth_infos × Covered test select users new.auth_infos) (sym new)
            (
              Unique-insert user _ config.auth_infos u,
              Covered-insert test select user users (some (with_exec info (change exec)))
                  config.auth_infos u (fails exec) c,
            )
    ]

    pub update_all-Covered :
        (users : List Text) (config : Kubeconfig)
        → Unique config.auth_infos
        → Covered test select users config.auth_infos
        → Covered test select [] (update_all change users config).auth_infos
    unfolding update_all
    update_all-Covered [] config u c = c
    update_all-Covered (user ∷ users) config u c =
        let (kept, covered) = update_exec-Covered user users config u c in
        update_all-Covered users (update_exec change user config) kept covered

    -- No entry is picked any more.
    pub update_all-users_where :
        (config : Kubeconfig)
        → Unique config.auth_infos
        → users_where test select
            (update_all change (users_where test select config.auth_infos) config).auth_infos
          ≡ []
    update_all-users_where config u = Covered-users_where test select _ (
        update_all-Covered (users_where test select config.auth_infos) config u
          (users_where-Covered test select config.auth_infos))

pub has_command_exec :
    (test : Text → Bool) (info : AuthInfo) (exec : ExecConfig)
    → info.exec ≡ some exec
    → has_command (some info) test ≡ true
    → test exec.command ≡ true
has_command_exec test info exec given h = ground arith
