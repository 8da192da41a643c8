-- ===== src/Kernel/Boot.antt =====
-- `kernel_main` up to its main loop leaves a safe machine, and the main loop keeps it so.
use aimini_os.Base.{
  List, arith, ap, ℕ, zero, suc, ◌^◌, ◌<◌, ◌≡◌, refl, ◌∙◌, Bool, true, Option, none, some, then_lem,
  sym,
}
use mathlib.Core.Path.{subst}
use aimini_os.Format.{ascii}
use aimini_os.Console
use aimini_os.Console.{Console}
use aimini_os.Tcp.{tcp_init}
use aimini_os.Machine.{Machine}
use aimini_os.Pci.Scan.{pci_find_device, pci_init, rtl8139_vendor_id, rtl8139_device_id}
use aimini_os.Machine.{PortEvent}
use aimini_os.Pci.Find.{IsBridge, find_first, holds, all_slots, pci_find_device-Finds}
use aimini_os.Pci.Place.{InRange, IsPlace, Place-pci_find_device}
use aimini_os.Pci.Scan.Laws.{pci_init-IsLook}
use aimini_os.Rtl8139.Send.Laws.{IsNic}
use aimini_os.Rtl8139.Init.{rtl8139_init}
use aimini_os.Rtl8139.Init.Whole.{rtl8139_init-IsInitialised}
use aimini_os.Arp.Cache.Unique.{IsUnique-clear_entries}
use aimini_os.Arp.Calls.{arp_init, clear_arp_cache, send_arp_request, get_mac_from_cache}
use aimini_os.Network.Setup.{network_init, default_device}
use aimini_os.Ring.{check_rx_buffer}
use aimini_os.Kernel.{
  Unset, install_tables, start_network, welcome, show_gateway, wait_gateway, first_ping,
  find_gateway, with_card, boot,
}
use aimini_os.Kernel.Safe.{
  Fixed, IsSafe, Ends, ends, Ends-IsSafe, Safe-printed, Ends-seen, Ends-bind, Ends-if, Ends-option,
}
use aimini_os.Kernel.Safe.Turns.{
  Ends-check_rx_buffer, Ends-send_arp_request, Ends-get_mac_from_cache, Ends-send_icmp_echo_request,
}
use aimini_os.Kernel.Loop.{Spin, Runs, IsSpin, Runs-IsSpin}
use aimini_os.Kernel.Output.{Output-install_tables}

module _ (fixed : Fixed) where
  Ends-wait_gateway :
      (unset : Unset) (left : ℕ) (m : Machine)
      → IsSafe fixed m
      → Ends fixed (wait_gateway unset left m)
  unfolding wait_gateway show_gateway
  Ends-wait_gateway unset zero m s = ends s
  Ends-wait_gateway unset (suc left) m s =
      Ends-bind fixed m (check_rx_buffer unset.behind unset.buffer) _
        (Ends-check_rx_buffer fixed unset.behind unset.buffer m s)
        (λ _ m1 s1.
          Ends-bind fixed m1 (get_mac_from_cache m1.net_dev.gateway) _
            (Ends-get_mac_from_cache fixed m1.net_dev.gateway m1 s1)
            (λ found m2 s2.
              Ends-option fixed m2 found _ (wait_gateway unset left)
                (λ mac. Ends-seen fixed true m2 _ m2.ports s2)
                (Ends-wait_gateway unset left m2 s2)))

  Ends-first_ping :
      (resolved : Bool) (m : Machine) → IsSafe fixed m → Ends fixed (first_ping resolved m)
  unfolding first_ping
  Ends-first_ping resolved m s =
      Ends-if fixed m resolved _ _
        (Ends-send_icmp_echo_request fixed m.net_dev.gateway _ (Safe-printed fixed m _ s))
        (Ends-seen fixed tt m _ m.ports s)

  Ends-find_gateway :
      (unset : Unset) (m : Machine) → IsSafe fixed m → Ends fixed (find_gateway unset m)
  unfolding find_gateway welcome
  Ends-find_gateway unset m s =
      Ends-bind fixed _ (send_arp_request m.net_dev.gateway) _
        (Ends-send_arp_request fixed m.net_dev.gateway _ (Safe-printed fixed m _ s))
        (λ _ m1 s1.
          Ends-bind fixed m1 (wait_gateway unset 20) _ (Ends-wait_gateway unset 20 m1 s1)
            (λ resolved m2 s2.
              Ends-bind fixed m2 (first_ping resolved) _ (Ends-first_ping resolved m2 s2)
                (λ _ m3 s3. Ends-seen fixed resolved m3 _ m3.ports s3)))

-- The first slot that holds the card: vendor 0x10ec, device 0x8139.
abbrev pub card_place : (ℕ → ℕ) → Option (ℕ × ℕ)
card_place space = find_first (holds space 0x10ec 0x8139) (all_slots 8 0)

-- What the initialisation sets up: the addresses of `network_init`, and the card's place.
pub record IsSetUp (bus slot : ℕ) (fixed : Fixed) : Type 0 where
  pub addresses : fixed.addresses ≡ default_device
  pub bus_noted : fixed.bus ≡ bus
  pub slot_noted : fixed.slot ≡ slot

-- The initialisation of the network returns, and the machine that it leaves is safe.
pub record IsStarted (unset : Unset) (bus slot : ℕ) (m : Machine) : Type 0 where
  pub after : Machine
  pub fixed : Fixed
  pub starts : start_network unset bus slot m ≡ some (tt, after)
  pub set_up : IsSetUp bus slot fixed
  pub safe : IsSafe fixed after

-- The initialisation of the network on a machine with well-formed statics.
start_network-IsStarted :
    (unset : Unset) (bus slot : ℕ) (m : Machine)
    → bus < 2 ^ 8
    → slot < 2 ^ 5
    → IsNic m.nic
    → IsStarted unset bus slot m
unfolding start_network arp_init clear_arp_cache network_init tcp_init
start_network-IsStarted unset bus slot m b s v =
    let r = rtl8139_init-IsInitialised unset.beyond bus slot b s unset.heap m v in
    record {
      after = _;
      fixed = _;
      starts = then_lem (rtl8139_init unset.beyond unset.heap bus slot) _ r.run.returns;
      set_up = record { addresses = refl; bus_noted = refl; slot_noted = refl };
      safe = record {
        statics = r.run.statics;
        table = IsUnique-clear_entries m.arp_cache;
        same = refl;
      };
    }

-- The ends of `boot` from `m`, with the place of the card on the bus: without a card the early return,
-- with nothing but output and accesses to ports; with a card the initialisation, and then a fault in
-- the search for the gateway, or the main loop with a safe machine.
pub data Boots (unset : Unset) (m : Machine)
    : Option (ℕ × ℕ) → Option (Option Bool × Machine) → Type 0 where
  no_card :
      (console : Console) (ports : List PortEvent)
      → Boots unset m none (some (none, record m { console = console; ports = ports }))
  faulted :
      {bus slot : ℕ} (console : Console) (ports : List PortEvent)
      (start : IsStarted unset bus slot (record m { console = console; ports = ports }))
      → find_gateway unset start.after ≡ none
      → Boots unset m (some (bus, slot)) none
  booted :
      {bus slot : ℕ} {resolved : Bool} {m' : Machine} (console : Console) (ports : List PortEvent)
      (start : IsStarted unset bus slot (record m { console = console; ports = ports }))
      → find_gateway unset start.after ≡ some (resolved, m')
      → IsSafe start.fixed m'
      → Boots unset m (some (bus, slot)) (some (some resolved, m'))

module _ (unset : Unset) (m : Machine) (bus slot : ℕ) (console : Console) (ports : List PortEvent)
    (start : IsStarted unset bus slot (record m { console = console; ports = ports })) where
  Boots-find_gateway :
      (r : Option (Bool × Machine))
      → find_gateway unset start.after ≡ r
      → Ends start.fixed r
      → Boots unset m (some (bus, slot)) (elim r as (λ _. Option (Option Bool × Machine)) [
        | none ↦ none
        | some (resolved, n) ↦ some (some resolved, n)
      ])
  Boots-find_gateway none e i = faulted console ports start e
  Boots-find_gateway (some (resolved, n)) e i = booted console ports start e (Ends-IsSafe i)

Boots-with_card :
    (unset : Unset) (found : Option (ℕ × ℕ)) (m : Machine) (console : Console)
    (ports : List PortEvent)
    → InRange found
    → IsNic m.nic
    → Boots unset m found (with_card unset found (record m { console = console; ports = ports }))
unfolding with_card
Boots-with_card unset none m console ports h v = no_card _ ports
Boots-with_card unset (some (b, s)) m console ports h v =
    let n : Machine = record m { console = console; ports = ports } in
    let start = start_network-IsStarted unset b s n h.0 h.1 v in
    subst (Boots unset m (some (b, s))) (sym (then_lem (start_network unset b s) _ start.starts)) (
      Boots-find_gateway unset m b s console ports start (find_gateway unset start.after) refl
        (Ends-find_gateway start.fixed unset start.after start.safe))

result_place : Option (Option (ℕ × ℕ) × Machine) → Option (ℕ × ℕ)
result_place none = none
result_place (some (place, m)) = place

-- Where the search ends on a bridge, from its two descriptions.
found_place :
    (space : ℕ → ℕ) (m : Machine)
    → IsBridge space m.device
    → (f : IsPlace m (pci_find_device rtl8139_vendor_id rtl8139_device_id m))
    → f.value ≡ card_place space
unfolding result_place
found_place space m i f =
    let g = pci_find_device-Finds space rtl8139_vendor_id rtl8139_device_id (omega arith) m i in
    ap result_place (sym f.returns ∙ g.returns)

-- From a machine with well-formed statics, on a bus of which `space` is the configuration space:
-- where none of the slots 0 to 31 of the buses 0 to 7 has the card's vendor and device, `kernel_main`
-- returns early, and nothing but the console and the port history has changed. Where one of them
-- has, `kernel_main` does not return early: the initialisation of the card and of the network
-- returns, with a safe machine that has the addresses of `network_init` and the bus and slot of the
-- first of them. Then `kernel_main` comes to its main loop with a safe machine that has the same
-- addresses and place, unless the search for the gateway faults.
pub boot-Boots :
    (unset : Unset) (space : ℕ → ℕ) (m : Machine)
    → IsNic m.nic
    → IsBridge space m.device
    → Boots unset m (card_place space) (boot unset m)
unfolding boot
boot-Boots unset space m v i =
    let q = Output-install_tables m in
    let m1 : Machine = record m { console = q.console; ports = q.ports } in
    let p = pci_init-IsLook unset.beyond m1 in
    let console : Console = Console.print (ascii "PCI initialized\n") p.console in
    let m2 : Machine = record m { console = console; ports = p.ports } in
    let f = Place-pci_find_device rtl8139_vendor_id rtl8139_device_id m2 in
    subst (λ found. Boots unset m found (boot unset m)) (found_place space m2 i f)
      (subst (Boots unset m f.value)
        (sym (
          then_lem install_tables _ q.returns
          ∙ (then_lem (pci_init unset.beyond) _ p.returns
              ∙ then_lem (pci_find_device rtl8139_vendor_id rtl8139_device_id)
                  (λ found. with_card unset found) f.returns)))
        (Boots-with_card unset f.value m f.console f.ports f.place v))

-- A state of the main loop with the addresses of `network_init`.
record Serves (resolved : Bool) (n : ℕ) (s : Spin) : Type 0 where
  fixed : Fixed
  addresses : fixed.addresses ≡ default_device
  spins : IsSpin fixed resolved n s

Serves-Boots :
    (unset : Unset) (found : Option (ℕ × ℕ)) (before : Machine) (resolved : Bool) (m : Machine)
    (n : ℕ) (s : Spin)
    → Boots unset before found (some (some resolved, m))
    → Runs resolved (record { machine = m; timer = 0 }) n s
    → Serves resolved n s
Serves-Boots unset found before resolved m n s (booted console ports start e i) run = record {
  fixed = start.fixed;
  addresses = start.set_up.addresses;
  spins = Runs-IsSpin start.fixed resolved m n s i run;
}

-- From a machine with well-formed statics on a bus, when `kernel_main` comes to its main loop, every
-- state of every run of that loop has the addresses of `network_init`, a safe machine, and a timer
-- that counts the turns.
boot-Serves :
    (unset : Unset) (space : ℕ → ℕ) (m m' : Machine) (resolved : Bool) (n : ℕ) (s : Spin)
    → IsNic m.nic
    → IsBridge space m.device
    → boot unset m ≡ some (some resolved, m')
    → Runs resolved (record { machine = m'; timer = 0 }) n s
    → Serves resolved n s
boot-Serves unset space m m' resolved n s v i e run =
    Serves-Boots unset (card_place space) m resolved m' n s
      (subst (Boots unset m (card_place space)) e (boot-Boots unset space m v i)) run
