-- ===== src/Kernel/Loop.antt =====
-- The main loop as a step relation: turns, and what the card puts into the ring between them. No
-- code that is linked enables interrupts, so nothing else runs.
use aimini_os.Base.{
  ℕ, ◌+◌, ◌%◌, ◌^◌, ◌≡◌, refl, ◌∙◌, Bool, true, false, Option, none, some, List, ◌&&◌, leb, M,
  ◌>>=◌, if◌then◌else◌, arith, u32, pure,
}
use mathlib.Core.Path.{subst}
use aimini_os.Machine.{Machine}
use aimini_os.Ring.{check_rx_buffer}
use aimini_os.Kernel.{Unset, ping_interval, periodic_ping, main_turn}
use aimini_os.Kernel.Safe.{Fixed, IsSafe, Ends, Ends-IsSafe, Safe-seen}
use aimini_os.Kernel.Safe.Turns.{Ends-main_turn}

-- The machine with `ping_timer`.
pub record Spin : Type 0 where
  pub machine : Machine
  pub timer : ℕ

-- One turn that returns, or a delivery. The number counts turns.
pub data Step (resolved : Bool) : ℕ → Spin → Spin → Type 0 where
  turn :
      (unset : Unset) {m m' : Machine} {t t' : ℕ}
      → main_turn unset resolved t m ≡ some (t', m')
      → Step resolved 1 (record { machine = m; timer = t }) (record { machine = m'; timer = t' })
  delivery :
      (rx_memory : List ℕ) {m : Machine} {t : ℕ}
      → Step resolved 0
          (record { machine = m; timer = t })
          (record { machine = record m { rx_memory = rx_memory }; timer = t })

-- A run from `s`, with the number of its turns.
pub data Runs (resolved : Bool) (s : Spin) : ℕ → Spin → Type 0 where
  stay : Runs resolved s 0 s
  more :
      {n k : ℕ} {q r : Spin} → Runs resolved s n q → Step resolved k q r → Runs resolved s (k + n) r

-- The timer starts again after so many turns.
abbrev pub period : Bool → ℕ
period resolved = if resolved then ping_interval else 2 ^ 32

-- The result of a call as a number, where it returns.
data Yields {A B : Type 0} (a : A) : Option (A × B) → Type 0 where
  faulted : Yields a none
  yielded : {b : B} → Yields a (some (a, b))

Yields-elim :
    {A B : Type 0} (a : A) (r : Option (B × Machine)) (f : B → M Machine A)
    → ((b : B) (n : Machine) → Yields a (f b n))
    → Yields a (elim r as (λ _. Option (A × Machine)) [ none ↦ none | some (b, n) ↦ f b n ])
Yields-elim a none f h = faulted
Yields-elim a (some (b, n)) f h = h b n

Yields-after :
    {A B : Type 0} (a : A) (x : M Machine B) (f : B → M Machine A) (m : Machine)
    → ((b : B) (n : Machine) → Yields a (f b n))
    → Yields a ((x >>= f) m)
Yields-after a x f m h = Yields-elim a (x m) f h

Yields-if :
    (b : Bool) (x : M Machine ℕ) (t : ℕ) (m : Machine)
    → Yields 0 (x m)
    → Yields (if b then 0 else t) ((if b then x else pure t) m)
Yields-if true x t m y = y
Yields-if false x t m y = yielded

Yields-same : {A B : Type 0} {a c : A} {b : B} → Yields a (some (c, b)) → c ≡ a
Yields-same yielded = refl

-- The next timer.
abbrev next_timer : Bool → ℕ → ℕ
next_timer resolved t = if leb ping_interval (u32 (t + 1)) && resolved then 0 else u32 (t + 1)

Yields-main_turn :
    (unset : Unset) (resolved : Bool) (t : ℕ) (m : Machine)
    → Yields (next_timer resolved t) (main_turn unset resolved t m)
unfolding main_turn
Yields-main_turn unset resolved t m =
    Yields-after (next_timer resolved t) (check_rx_buffer unset.behind unset.buffer) _ m (λ _ n.
      Yields-if (leb ping_interval (u32 (t + 1)) && resolved) (periodic_ping >>= λ _. pure 0)
        (u32 (t + 1)) n (Yields-after 0 periodic_ping (λ _. pure 0) n (λ _ k. yielded)))

-- The timer counts turns up to its period.
next_timer_lem :
    (resolved : Bool) (t u : ℕ)
    → u ≡ t % period resolved
    → next_timer resolved u ≡ (1 + t) % period resolved
next_timer_lem true t u h = ground arith
next_timer_lem false t u h = ground arith

at_zero : (resolved : Bool) → 0 ≡ 0 % period resolved
at_zero true = refl
at_zero false = refl

-- Between two turns: a safe machine, and a timer below its period.
pub record IsSpin (fixed : Fixed) (resolved : Bool) (t : ℕ) (s : Spin) : Type 0 where
  pub safe : IsSafe fixed s.machine
  pub counts : s.timer ≡ t % period resolved

module _ (fixed : Fixed) (resolved : Bool) where
  IsSpin-Step :
      (t k : ℕ) (q r : Spin)
      → IsSpin fixed resolved t q
      → Step resolved k q r
      → IsSpin fixed resolved (k + t) r
  IsSpin-Step t k q r i (delivery rx_memory) = record {
    safe = Safe-seen fixed q.machine _ _ rx_memory i.safe;
    counts = let z : 0 + t ≡ t = omega arith in rw z i.counts;
  }
  IsSpin-Step t k q r i (turn unset {m = m} {m' = m'} {t = u} {t' = u'} e) = record {
    safe = Ends-IsSafe (subst (Ends fixed) e (Ends-main_turn fixed unset resolved u m i.safe));
    counts =
        Yields-same (subst (Yields (next_timer resolved u)) e (Yields-main_turn unset resolved u m))
        ∙ next_timer_lem resolved t u i.counts;
  }

  -- From a safe machine with the timer at 0, after a run of `n` turns, with any frames and any
  -- bytes from the card, the machine is safe: the driver's statics are well formed, the ARP table
  -- has no two entries for one address, and the addresses, the debug switch, the end of the heap,
  -- the card's ports and the addresses of its buffers are the same. The timer is `n` modulo
  -- 20000000 if the gateway was resolved, and `n` modulo 2 ^ 32 if not.
  pub Runs-IsSpin :
      (m : Machine) (n : ℕ) (s : Spin)
      → IsSafe fixed m
      → Runs resolved (record { machine = m; timer = 0 }) n s
      → IsSpin fixed resolved n s
  Runs-IsSpin m n s i stay = record { safe = i; counts = at_zero resolved }
  Runs-IsSpin m n s i (more {n = j} {k = k} {q = q} {r = r} run step) =
      IsSpin-Step j k q r (Runs-IsSpin m j q i run) step
