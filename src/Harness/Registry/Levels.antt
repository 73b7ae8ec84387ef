-- ===== src/Harness/Registry/Levels.antt =====
-- An effort that a request may name is harmless on the command line.
use agent_dashboard.Common.{
  String, ◌≡◌, refl, true, some, List, [], ◌∷◌, All, str_eq, str_eq_iff, non_empty, arith,
  Bool-cases, inl, inr, subst, sym,
}
use agent_dashboard.Harness.{SpawnOpts, chosen_effort, effort_opted_skills}
use agent_dashboard.Harness.Shell.{shell_words, is_plain}
use agent_dashboard.Harness.Injection.{IsWord}
use agent_dashboard.Harness.Claude.Words.{claude_words, claude_spawn_command_words}
use agent_dashboard.Harness.Codex.Words.{codex_words, codex_spawn_command_words}
use agent_dashboard.Harness.Registry.{
  AgentProfile, Harness, claude, codex, resolve, effort_levels, spawn_command, contains_string,
  allows_effort,
}

plain_of_contained :
    (levels : List String) (effort : String)
    → All (λ (l : String). is_plain l ≡ true) levels
    → contains_string levels effort ≡ true
    → is_plain effort ≡ true
unfolding contains_string
plain_of_contained [] effort h c = absurd (ground arith)
plain_of_contained (l ∷ levels) effort (p, h) c = elim (Bool-cases (str_eq l effort)) [
  | inl e ↦ subst (λ (x : String). is_plain x ≡ true) ((str_eq_iff l effort).0 e) p
  | inr e ↦ plain_of_contained levels effort h (ground arith)
]

levels-plain : (h : Harness) → All (λ (l : String). is_plain l ≡ true) (effort_levels h)
levels-plain (claude p) = (refl, (refl, (refl, (refl, (refl, tt)))))
levels-plain (codex c) = (refl, (refl, (refl, (refl, tt))))

-- The words that the command of a harness means.
abbrev pub words_of : Harness → String → String → SpawnOpts → List String
words_of (claude p) skill message opts = claude_words p.command skill message opts
words_of (codex c) skill message opts = codex_words c.command skill message opts

allowed_plain :
    (h : Harness) (skill : String) (opts : SpawnOpts)
    → is_plain opts.default_effort ≡ true
    → allows_effort h opts.effort ≡ true
    → is_plain (chosen_effort skill opts) ≡ true
unfolding allows_effort chosen_effort
allowed_plain h skill opts d a = elim (Bool-cases (non_empty opts.effort)) [
  | inl n ↦ ground (arith, plain_of_contained (effort_levels h) opts.effort (levels-plain h))
  | inr e ↦ elim (Bool-cases (effort_opted_skills skill)) [
    | inl f ↦ rw (chosen_effort, e, f) d
    | inr f ↦ rw (chosen_effort, e, f) refl
  ]
]

-- For each harness that a name resolves to: a request whose effort is empty or passes the guard
-- starts exactly the words that are meant, whatever its skill, message and model hold. The command of
-- the harness and the default effort of the settings, which the guard does not see, are plain words.
pub allowed_request_words :
    (join : String → String → String) (name : String) (profile : AgentProfile) (h : Harness)
    (skill message : String) (opts : SpawnOpts)
    → resolve join name profile ≡ some h
    → IsWord profile.command
    → is_plain opts.default_effort ≡ true
    → allows_effort h opts.effort ≡ true
    → shell_words (spawn_command h skill message opts) ≡ some (words_of h skill message opts)
unfolding resolve
allowed_request_words join name profile (claude p) skill message opts r w n a =
    let same : p ≡ profile = ground arith in
    claude_spawn_command_words p.command skill message opts
      (subst (λ (x : AgentProfile). IsWord x.command) (sym same) w)
      (allowed_plain (claude p) skill opts n a)
allowed_request_words join name profile (codex c) skill message opts r w n a =
    let same : c.command ≡ "codex" = ground arith in
    codex_spawn_command_words c.command skill message opts
      (subst (λ (x : String). IsWord x) (sym same) (unfold str_eq in (refl, refl)))
      (allowed_plain (codex c) skill opts n a)
