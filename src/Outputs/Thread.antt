-- ===== src/Outputs/Thread.antt =====
-- plugins/input_cli.c: how the thread ends when the plugin is closed.
use io_monitor.Prelude.{
  ℕ, suc, ◌-◌, ◌≤◌, true, Bytes, ◌≡◌, refl, subst, if◌then◌else◌, ◌∙◌, arith, ◌⊎◌, inl, inr,
}
use io_monitor.Outputs.Cli.{
  Place, at_test, at_read, at_command, ended, Cli, advance_at, advance, close_plugin, thread_loop,
  closing, Steps, stay, go,
}

module _ {ℓ} {W : Type ℓ} (command_function : Bytes → W → W) where
  -- What may become of the listener once the thread is to end, from a place on.
  abbrev Becomes : Place → W → W → Type ℓ
  Becomes at_test w w' = w' ≡ w
  Becomes at_read w w' = (w' ≡ w) ⊎ ((buf : Bytes) × (w' ≡ command_function buf w))
  Becomes at_command w w' = (w' ≡ w) ⊎ ((buf : Bytes) × (w' ≡ command_function buf w))
  Becomes ended w w' = w' ≡ w

  at_most_one :
      (place : Place) {w w' : W}
      → Becomes place w w'
      → (w' ≡ w) ⊎ ((buf : Bytes) × (w' ≡ command_function buf w))
  at_most_one at_test h = inl h
  at_most_one at_read h = h
  at_most_one at_command h = h
  at_most_one ended h = inl h

  no_change : (place : Place) (w : W) → Becomes place w w
  no_change at_test w = refl
  no_change at_read w = inl refl
  no_change at_command w = inl refl
  no_change ended w = refl

  change-advance_at :
      (place : Place) (cli : Cli W) (w' : W)
      → cli.kill_thread ≡ true
      → Becomes
          (advance_at command_function place cli).place
          (advance_at command_function place cli).listener
          w'
      → Becomes place cli.listener w'
  unfolding advance_at
  change-advance_at at_test cli w' k h =
      subst (λ b. Becomes (if b then ended else at_read) cli.listener w') k h
  change-advance_at at_read cli w' k h = h
  change-advance_at at_command cli w' k h = inr (cli.buf, h)
  change-advance_at ended cli w' k h = h

  kill_thread-advance_at :
      (place : Place) (cli : Cli W)
      → (advance_at command_function place cli).kill_thread ≡ cli.kill_thread
  unfolding advance_at
  kill_thread-advance_at at_test cli = refl
  kill_thread-advance_at at_read cli = refl
  kill_thread-advance_at at_command cli = refl
  kill_thread-advance_at ended cli = refl

  kill_thread-advance :
      (cli : Cli W) → cli.kill_thread ≡ true → (advance command_function cli).kill_thread ≡ true
  unfolding advance
  kill_thread-advance cli k = kill_thread-advance_at cli.place cli ∙ k

  change-Steps :
      {cli last : Cli W}
      → Steps command_function cli last
      → cli.kill_thread ≡ true
      → Becomes cli.place cli.listener last.listener
  unfolding advance close_plugin
  change-Steps {cli} stay k = no_change cli.place cli.listener
  change-Steps (go (thread_loop cli) steps) k =
      change-advance_at cli.place cli _ k (change-Steps steps (kill_thread-advance cli k))
  change-Steps (go (closing cli) steps) k = change-Steps steps refl

  -- When the plugin is asked to close, at most one more command is given to the listener, whatever the
  -- two threads do from there on.
  pub listener-Steps :
      (cli last : Cli W)
      → Steps command_function (close_plugin cli) last
      → (last.listener ≡ cli.listener)
        ⊎ ((buf : Bytes) × (last.listener ≡ command_function buf cli.listener))
  unfolding close_plugin
  listener-Steps cli last steps = at_most_one cli.place (change-Steps steps refl)

  -- How many steps the thread has left when it is to end.
  abbrev rank : Place → ℕ
  rank at_test = 1
  rank at_read = 3
  rank at_command = 2
  rank ended = 0

  abbrev thread_steps : {cli last : Cli W} → Steps command_function cli last → ℕ
  thread_steps stay = 0
  thread_steps (go (thread_loop cli) steps) = suc (thread_steps steps)
  thread_steps (go (closing cli) steps) = thread_steps steps

  rank-advance_at :
      (place : Place) (cli : Cli W)
      → cli.kill_thread ≡ true
      → rank (advance_at command_function place cli).place ≡ rank place - 1
  unfolding advance_at
  rank-advance_at at_test cli k = rw k refl
  rank-advance_at at_read cli k = refl
  rank-advance_at at_command cli k = refl
  rank-advance_at ended cli k = refl

  rank-Steps :
      {cli last : Cli W} (steps : Steps command_function cli last)
      → cli.kill_thread ≡ true
      → rank last.place ≡ rank cli.place - thread_steps steps
  unfolding advance close_plugin
  rank-Steps stay k = omega arith
  rank-Steps (go (thread_loop cli) steps) k =
      omega (arith, rank-Steps steps (kill_thread-advance cli k), rank-advance_at cli.place cli k)
  rank-Steps (go (closing cli) steps) k = rank-Steps steps refl

  rank_zero : (place : Place) → rank place ≡ 0 → place ≡ ended
  rank_zero at_test h = absurd (omega (arith, h))
  rank_zero at_read h = absurd (omega (arith, h))
  rank_zero at_command h = absurd (omega (arith, h))
  rank_zero ended h = refl

  rank_le : (place : Place) → rank place ≤ 3
  rank_le at_test = omega arith
  rank_le at_read = omega arith
  rank_le at_command = omega arith
  rank_le ended = omega arith

  -- When the plugin is asked to close, the thread has ended after three of its own steps, whatever
  -- closings come between them, and stays ended: the wait for it is over then.
  pub place-Steps :
      (cli last : Cli W) (steps : Steps command_function (close_plugin cli) last)
      → 3 ≤ thread_steps steps
      → last.place ≡ ended
  unfolding close_plugin
  place-Steps cli last steps h =
      rank_zero last.place (omega (arith, h, rank_le cli.place, rank-Steps steps refl))
