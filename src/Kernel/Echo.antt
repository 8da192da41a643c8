-- ===== src/Kernel/Echo.antt =====
-- A ping that arrives while the main loop runs is answered by the next turn.
use aimini_os.Base.{
  ℕ, ◌+◌, ◌%◌, ◌<◌, ◌≡◌, ◌≢◌, refl, ap, ◌∙◌, Bool, true, false, ◌&&◌, Option, some, List, leb,
  length, arith, then_lem, u32,
}
use aimini_os.Layout.{EthHeader, Ipv4Header, IcmpHeader}
use aimini_os.Machine.{Machine}
use aimini_os.Network.Icmp.Reply.{reply_frame}
use aimini_os.Ring.{bytes_avail, rx_offset_of, next_offset, capr_of, check_rx_buffer}
use aimini_os.Ring.Empty.{answer_capr, answer_cbr}
use aimini_os.Ring.Answer.{Answers, IsPing}
use aimini_os.Ring.Modes.{check_rx_buffer-Answers}
use aimini_os.Kernel.{Unset, ping_interval, main_turn}
use aimini_os.Kernel.Safe.{Fixed, IsSafe, Ends, Ends-IsSafe}
use aimini_os.Kernel.Safe.Turns.{Ends-main_turn}
use mathlib.Core.Path.{subst}
use aimini_os.Kernel.Loop.{period, Spin, Runs, Runs-IsSpin}

-- A turn that answers with `frame`, ends with a safe machine, and sets the timer to `timer`.
pub record IsAnswered (fixed : Fixed) (unset : Unset) (resolved : Bool) (s : Spin) (frame : List ℕ)
    (value timer : ℕ) : Type 0 where
  pub after : Machine
  pub returns : main_turn unset resolved s.timer s.machine ≡ some (timer, after)
  pub answers : Answers s.machine frame 54 value (some (tt, after))
  pub safe : IsSafe fixed after

-- Before the end of the period a turn only counts.
counts_on :
    (resolved : Bool) (n t : ℕ)
    → t ≡ n % period resolved
    → (1 + n) % period resolved ≢ 0
    → ((leb ping_interval (u32 (t + 1)) && resolved) ≡ false)
      × (u32 (t + 1) ≡ (1 + n) % period resolved)
counts_on true n t e h = (ground arith, omega (arith, e, h))
counts_on false n t e h = (ground arith, omega (arith, e, h))

main_turn_lem :
    (unset : Unset) (resolved : Bool) (t : ℕ) (m after : Machine)
    → check_rx_buffer unset.behind unset.buffer m ≡ some (tt, after)
    → (leb ping_interval (u32 (t + 1)) && resolved) ≡ false
    → main_turn unset resolved t m ≡ some (u32 (t + 1), after)
unfolding main_turn
main_turn_lem unset resolved t m after e early =
    then_lem (check_rx_buffer unset.behind unset.buffer) _ e ∙ rw early refl

with_timer :
    {o : Option (ℕ × Machine)} {t u : ℕ} {after : Machine}
    → o ≡ some (t, after)
    → t ≡ u
    → o ≡ some (u, after)
with_timer {after = after} e same = e ∙ ap (λ t. some (t, after)) same

-- From a safe machine with the timer at 0, after any run of `n` turns with any frames, if a ping
-- for this machine, all in memory, then stands in the ring at the driver's read offset, with its status good and
-- its size 46 to 1504, and the ring does not count as empty, the next turn returns, unless the
-- timer's period ends with it: the 54 bytes of the reply are sent and then the frame's space is
-- given back, nothing else changes but the console, the port history and the transmit buffers, the
-- machine is safe, and the timer counts the turn.
pub Runs-IsAnswered :
    (fixed : Fixed) (resolved : Bool) (m : Machine) (n : ℕ) (s : Spin) (unset : Unset)
    (eth : EthHeader) (ip : Ipv4Header) (icmp : IcmpHeader) (payload : List ℕ) (size : ℕ)
    → IsSafe fixed m
    → Runs resolved (record { machine = m; timer = 0 }) n s
    → (1 + n) % period resolved ≢ 0
    → length unset.buffer ≡ 1500
    → 0 < bytes_avail (answer_capr s.machine) (answer_cbr s.machine)
    → IsPing s.machine.rx_memory s.machine.net_dev.ip_addr
        (rx_offset_of (answer_capr s.machine))
        size
        eth
        ip
        icmp
        payload
    → IsAnswered fixed unset resolved s
        (reply_frame eth ip icmp)
        (capr_of (next_offset (rx_offset_of (answer_capr s.machine)) size))
        ((1 + n) % period resolved)
Runs-IsAnswered fixed resolved m n s unset eth ip icmp payload size safe run early full avail p =
    let i = Runs-IsSpin fixed resolved m n s safe run in
    let (before, counted) = counts_on resolved n s.timer i.counts early in
    let a =
      check_rx_buffer-Answers unset.behind unset.buffer eth ip icmp payload size s.machine full
        i.safe.statics avail p in
    let returns = main_turn_lem unset resolved s.timer s.machine _ a.returns before in
    record {
      after = _;
      returns = with_timer returns counted;
      answers = record {
        row = a.row;
        console = a.console;
        ports = a.ports;
        held = a.held;
        returns = refl;
        transmits = a.transmits;
      };
      safe = Ends-IsSafe (
          subst (Ends fixed) returns
            (Ends-main_turn fixed unset resolved s.timer s.machine i.safe));
    }
