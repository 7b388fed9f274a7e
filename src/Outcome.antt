-- ===== src/Outcome.antt =====
-- How a call in mq_listener ends: it returns, it ends the process by exit(), or it does what C leaves
-- undefined, such as a call through NULL or a write behind an array.
use io_monitor.Prelude.{ℤ, ◌≡◌, refl}

pub data Outcome (W A : Type 0) : Type 0 where
  done : A → W → Outcome W A
  exited : ℤ → W → Outcome W A
  fault : Outcome W A

infixl 5 ◌>>=◌
abbrev pub ◌>>=◌ : {W A B : Type 0} → Outcome W A → (A → W → Outcome W B) → Outcome W B
done a w >>= f = f a w
exited code w >>= f = exited code w
fault >>= f = fault

pub >>=-eq-done :
    {W A B : Type 0} (m : Outcome W A) (f : A → W → Outcome W B) {b : B} {u : W}
    → (m >>= f) ≡ done b u
    → (a : A) × (w : W) × (m ≡ done a w) × (f a w ≡ done b u)
>>=-eq-done (done a w) f h = (a, w, refl, h)
>>=-eq-done (exited code w) f h = cc
>>=-eq-done fault f h = cc
