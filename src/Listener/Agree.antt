-- ===== src/Listener/Agree.antt =====
-- When a command of mq_listener/mq_listener.c does the same at two depths of `call`: each config file
-- has a rank, and names files of a lower rank alone.
use io_monitor.Prelude.{
  ℕ, zero, suc, ◌<◌, ℤ, true, Option, none, some, List, [], ◌∷◌, Bytes, All, length, ltb, ◌==◌,
  if◌then◌else◌, ◌≡◌, refl, ap, Option-cases, Bool-cases, arith, inl, inr,
}
use io_monitor.Tokens.{tokens}
use io_monitor.Outcome.{Outcome, done, exited, fault, ◌>>=◌}
use io_monitor.Commands.{
  call_command, run_command, run_tokens, parse_command, find_command, max_tokens, is_blank,
}
use io_monitor.Commands.Keeps.{Leaves}
use io_monitor.Listener.{run_lines, c_config, run_builtin, call, calls}
use io_monitor.Listener.Outside.{System}
use io_monitor.Listener.State.{Handler, World, plugin_command, builtin, Builtin}
use io_monitor.Listener.Keeps.{line-Leaves}
use io_monitor.Listener.Naming.{
  names_config, IsConfigNamed, IsConfigNamed-IsKept, find_command-All, names_config-IsOwn,
}

-- The config file that the words of a line name.
abbrev pub file_of : List Bytes → Option Bytes
file_of [] = none
file_of (name ∷ []) = none
file_of (name ∷ path ∷ args) = if names_config name then some path else none

-- Every config file that a line of the file names has a lower rank.
abbrev pub AreBelow : (Bytes → ℕ) → ℕ → List Bytes → Type 0
AreBelow rank k =
    All (λ line. (path : Bytes) → file_of (tokens is_blank line) ≡ some path → rank path < k)

abbrev pub IsNested : {S : Type 0} → System S → (Bytes → ℕ) → Type 0
IsNested sys rank =
    (path : Bytes) (lines : List Bytes)
    → sys.fopen path ≡ some lines
    → AreBelow rank (rank path) lines

pub bind-eq :
    {W A B : Type 0} (P : W → Type 0) (m m' : Outcome W A) (f f' : A → W → Outcome W B)
    → m ≡ m'
    → Leaves P m
    → ((a : A) (w : W) → P w → f a w ≡ f' a w)
    → (m >>= f) ≡ (m' >>= f')
bind-eq P (done a w) m' f f' e h k = rw (← e) (k a w h)
bind-eq P (exited code w) m' f f' e h k = rw (← e) refl
bind-eq P fault m' f f' e h k = rw (← e) refl

module _ {S : Type 0} (sys : System S) (rank : Bytes → ℕ) (nested : IsNested sys rank) where
  -- The config file that a call would open has a rank below `k`.
  abbrev pub Opens : ℕ → Handler S → List Bytes → Type 0
  Opens k h args =
      h ≡ builtin Builtin.config
      → (path : Bytes) (rest : List Bytes) → args ≡ path ∷ rest
      → rank path < k

  abbrev pub Agree : ℕ → ℕ → ℕ → Type 0
  Agree k d d' =
      (h : Handler S) (name : Bytes) (args : List Bytes) (w : World S)
      → IsConfigNamed w
      → Opens k h args
      → call sys d h name args w ≡ call sys d' h name args w

  module _ (k d d' : ℕ) (agree : Agree k d d') where
    pub run_command-eq :
        (name : Bytes) (args : List Bytes) (w : World S)
        → IsConfigNamed w
        → ((path : Bytes) (rest : List Bytes)
            → names_config name ≡ true
            → args ≡ path ∷ rest
            → rank path < k)
        → run_command (calls sys d) name args w ≡ run_command (calls sys d') name args w
    unfolding run_command call_command
    run_command-eq name args w own opens = elim (Option-cases (find_command name w.s_commands)) [
      | inl e ↦ rw e refl
      | inr (c, e) ↦
          let (c_own, answers) = find_command-All _ name w.s_commands c own e in
          elim (Option-cases c.command_function) [
            | inl e' ↦ rw (e, e') refl
            | inr (h, e') ↦
                rw (e, e')
                  (agree h name args w own λ is_config path rest same.
                    opens path rest (names_config-IsOwn name c c_own answers (rw is_config at e'))
                      same)
          ]
    ]

    run_tokens-eq :
        (words : List Bytes) (w : World S)
        → IsConfigNamed w
        → ((path : Bytes) → file_of words ≡ some path → rank path < k)
        → run_tokens (calls sys d) words w ≡ run_tokens (calls sys d') words w
    unfolding run_tokens
    run_tokens-eq [] w own below = refl
    run_tokens-eq (name ∷ args) w own below =
        run_command-eq name args w own
          (λ path rest is_own same. below path (rw (same, is_own) refl))

    pub parse_command-eq :
        (line : Bytes) (w : World S)
        → IsConfigNamed w
        → ((path : Bytes) → file_of (tokens is_blank line) ≡ some path → rank path < k)
        → parse_command (calls sys d) line w ≡ parse_command (calls sys d') line w
    unfolding parse_command
    parse_command-eq line w own below =
        ap
          (λ (r : Outcome (World S) ℤ).
            if ltb (length (tokens is_blank line)) max_tokens
            then (r >>= λ rc w'. done tt w')
            else fault)
          (run_tokens-eq (tokens is_blank line) w own below)

    run_lines-eq :
        (lines : List Bytes) (w : World S)
        → IsConfigNamed w
        → AreBelow rank k lines
        → run_lines (parse_command (calls sys d)) lines w
          ≡ run_lines (parse_command (calls sys d')) lines w
    unfolding run_lines
    run_lines-eq [] w own below = refl
    run_lines-eq ([] ∷ lines) w own below =
        bind-eq IsConfigNamed _ _ _ _ (parse_command-eq [] w own below.0)
          (line-Leaves sys IsConfigNamed (IsConfigNamed-IsKept sys) d [] w own)
          (λ u w' own'. run_lines-eq lines w' own' below.1)
    run_lines-eq ((c ∷ s) ∷ lines) w own below = elim (Bool-cases (c == b'#')) [
      | inl e ↦ rw e (run_lines-eq lines w own below.1)
      | inr e ↦ rw e (
          bind-eq IsConfigNamed (parse_command (calls sys d) (c ∷ s) w)
            (parse_command (calls sys d') (c ∷ s) w)
            (λ u w'. run_lines (parse_command (calls sys d)) lines w')
            (λ u w'. run_lines (parse_command (calls sys d')) lines w')
            (parse_command-eq (c ∷ s) w own below.0)
            (line-Leaves sys IsConfigNamed (IsConfigNamed-IsKept sys) d (c ∷ s) w own)
            (λ u w' own'. run_lines-eq lines w' own' below.1))
    ]

  c_config-Agree :
      (k d d' : ℕ)
      → ((path : Bytes) → rank path < k → Agree (rank path) d d')
      → (args : List Bytes) (w : World S) → IsConfigNamed w
      → Opens k (builtin Builtin.config) args
      → c_config sys (parse_command (calls sys d)) args w
        ≡ c_config sys (parse_command (calls sys d')) args w
  unfolding c_config
  c_config-Agree k d d' agree [] w own opens = refl
  c_config-Agree k d d' agree (path ∷ args) w own opens = elim (Option-cases (sys.fopen path)) [
    | inl e ↦ rw (e, c_config) refl
    | inr (lines, e) ↦
        rw (e, c_config)
          (run_lines-eq (rank path) d d' (agree path (opens refl path args refl)) lines w own
            (nested path lines e))
  ]

  pub call-Agree : (k d d' : ℕ) → k < d → k < d' → Agree k d d'
  unfolding call run_builtin
  call-Agree k zero d' lt lt' h name args w own opens = absurd (omega arith)
  call-Agree k (suc d) zero lt lt' h name args w own opens = absurd (omega arith)
  call-Agree k (suc d) (suc d') lt lt' (builtin Builtin.config) name args w own opens =
      c_config-Agree k d d' (λ path below. call-Agree (rank path) d d' (omega arith) (omega arith))
        args w own opens
  call-Agree k (suc d) (suc d') lt lt' (builtin Builtin.load_plugin) name args w own opens = refl
  call-Agree k (suc d) (suc d') lt lt' (builtin Builtin.unload_plugin) name args w own opens = refl
  call-Agree k (suc d) (suc d') lt lt' (builtin Builtin.reorder_plugins) name args w own opens =
      refl
  call-Agree k (suc d) (suc d') lt lt' (builtin Builtin.list_plugins) name args w own opens = refl
  call-Agree k (suc d) (suc d') lt lt' (builtin Builtin.quit) name args w own opens = refl
  call-Agree k (suc d) (suc d') lt lt' (builtin Builtin.mq_path) name args w own opens = refl
  call-Agree k (suc d) (suc d') lt lt' (builtin Builtin.help) name args w own opens = refl
  call-Agree k (suc d) (suc d') lt lt' (plugin_command f address) name args w own opens = refl
