-- ===== src/Kernel/Pings.antt =====
-- Turns of the main loop with nothing in the ring: when they ping and when they wait.
use aimini_os.Base.{ℕ, ◌+◌, ◌≡◌, Bool, false, ◌&&◌, leb, u32}
use aimini_os.Console
use aimini_os.Console.{Console}
use aimini_os.Machine.{Machine}
use aimini_os.Machine.Quiet.{IsQuiet, Quiet-bind, Quiet-pure}
use aimini_os.Ring.{bytes_avail, check_rx_buffer}
use aimini_os.Ring.Empty.{answer_capr, answer_cbr, check_rx_buffer-IsQuiet}
use aimini_os.Kernel.{Unset, ping_interval, main_turn}

module _ (unset : Unset) (m : Machine)
    (empty : bytes_avail (answer_capr m) (answer_cbr m) ≡ 0) where
  -- With an empty ring, before the interval is over or without a resolved gateway, a turn only
  -- prints and reads the registers, and the timer counts on, modulo 2 ^ 32.
  pub main_turn-IsQuiet :
      (resolved : Bool) (timer : ℕ)
      → (leb ping_interval (u32 (timer + 1)) && resolved) ≡ false
      → IsQuiet m (main_turn unset resolved timer m)
  unfolding main_turn
  main_turn-IsQuiet resolved timer early =
      Quiet-bind m (check_rx_buffer unset.behind unset.buffer) _
        (check_rx_buffer-IsQuiet unset.behind unset.buffer m empty)
        (λ _ n. rw early (Quiet-pure n (u32 (timer + 1))))
