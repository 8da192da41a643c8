-- ===== src/Rtl8139/Init/Run.antt =====
-- Calls that move the statics of the driver and the heap on, with what they write.
use aimini_os.Base.{
  ℕ, ◌≡◌, refl, ap, ◌∙◌, List, [], ◌++◌, Option, some, M, ◌>>=◌, then_lem, sym, skip,
}
use aimini_os.Console.{Console}
use aimini_os.Machine.{PortEvent, Machine, Nic, Act, say}
use aimini_os.Machine.Stage.{append_assoc, writes, writes-Reads, IsStage}
use aimini_os.Machine.Quiet.{IsQuiet}
use aimini_os.Rtl8139.Send.Laws.{IsNic}

-- A normal return from `m` that printed, wrote `outs`, kept the statics well formed, and changed
-- nothing else but them and the heap.
pub record IsRun (m : Machine) (outs : List PortEvent) (result : Option (Unit {0} × Machine))
    : Type 0 where
  pub console : Console
  pub ports : List PortEvent
  pub heap_end : ℕ
  pub rx_memory : List ℕ
  pub rx_buffer : ℕ
  pub tx_buffer : List (List ℕ)
  pub current : ℕ
  pub returns :
      result
      ≡ some (
        tt,
        record m {
          console = console;
          ports = ports;
          heap_end = heap_end;
          rx_memory = rx_memory;
          nic = record m.nic {
            rx_buffer = rx_buffer;
            tx_buffer = tx_buffer;
            current_tx_buffer = current;
          };
        },
      )
  pub statics :
      IsNic
        (record m.nic { rx_buffer = rx_buffer; tx_buffer = tx_buffer; current_tx_buffer = current })
  pub wrote : writes ports ≡ outs ++ writes m.ports

-- A print at the end.
pub Run-say : (m : Machine) (s : List ℕ) → IsNic m.nic → IsRun m [] (say s m)
Run-say m s v = record {
  console = _;
  ports = m.ports;
  heap_end = m.heap_end;
  rx_memory = m.rx_memory;
  rx_buffer = m.nic.rx_buffer;
  tx_buffer = m.nic.tx_buffer;
  current = m.nic.current_tx_buffer;
  returns = refl;
  statics = record { buffers = v.buffers; sizes = v.sizes; current = v.current };
  wrote = refl;
}

pub Run-skip : (m : Machine) → IsNic m.nic → IsRun m [] (skip m)
Run-skip m v = record {
  console = m.console;
  ports = m.ports;
  heap_end = m.heap_end;
  rx_memory = m.rx_memory;
  rx_buffer = m.nic.rx_buffer;
  tx_buffer = m.nic.tx_buffer;
  current = m.nic.current_tx_buffer;
  returns = refl;
  statics = record { buffers = v.buffers; sizes = v.sizes; current = v.current };
  wrote = refl;
}

-- After calls that print and read.
pub Run-after :
    {A : Type 0} (m : Machine) (x : M Machine A) (f : A → Act) {outs : List PortEvent}
    → IsQuiet m (x m)
    → ((a : A) (console : Console) (ports : List PortEvent)
        → let n : Machine = record m { console = console; ports = ports } in IsRun n outs (f a n))
    → IsRun m outs ((x >>= f) m)
Run-after m x f {outs} q r =
    let s = r q.value q.console q.ports in
    record {
      console = s.console;
      ports = s.ports;
      heap_end = s.heap_end;
      rx_memory = s.rx_memory;
      rx_buffer = s.rx_buffer;
      tx_buffer = s.tx_buffer;
      current = s.current;
      returns = then_lem x f q.returns ∙ s.returns;
      statics = s.statics;
      wrote = s.wrote ∙ ap (λ t. outs ++ t) (writes-Reads q.reads);
    }

-- After a stage, what is written is what the rest writes and then what the stage wrote.
pub Run-stage :
    {A : Type 0} (m : Machine) (x : M Machine A) (f : A → Act) {first next : List PortEvent}
    (s : IsStage m first (x m))
    → IsRun
        (record m { console = s.console; ports = s.ports })
        next
        (f s.value (record m { console = s.console; ports = s.ports }))
    → IsRun m (next ++ first) ((x >>= f) m)
Run-stage m x f {first} {next} s r = record {
  console = r.console;
  ports = r.ports;
  heap_end = r.heap_end;
  rx_memory = r.rx_memory;
  rx_buffer = r.rx_buffer;
  tx_buffer = r.tx_buffer;
  current = r.current;
  returns = then_lem x f s.returns ∙ r.returns;
  statics = r.statics;
  wrote = r.wrote ∙ (ap (λ t. next ++ t) s.wrote ∙ sym (append_assoc next first (writes m.ports)));
}

-- What runs after a print and with another buffer, seen from before.
pub Run-moved :
    (m : Machine) (console : Console) (heap_end rx_buffer : ℕ) (rx_memory : List ℕ)
    {outs : List PortEvent} {result : Option (Unit {0} × Machine)}
    → let n : Machine = record m {
      console = console;
      heap_end = heap_end;
      nic = record m.nic { rx_buffer = rx_buffer };
      rx_memory = rx_memory;
    } in
      IsRun n outs result → IsRun m outs result
Run-moved m console heap_end rx_buffer rx_memory r = record {
  console = r.console;
  ports = r.ports;
  heap_end = r.heap_end;
  rx_memory = r.rx_memory;
  rx_buffer = r.rx_buffer;
  tx_buffer = r.tx_buffer;
  current = r.current;
  returns = r.returns;
  statics = r.statics;
  wrote = r.wrote;
}

pub moved-IsNic : (nic : Nic) (rx : ℕ) → IsNic nic → IsNic (record nic { rx_buffer = rx })
moved-IsNic nic rx v = record { buffers = v.buffers; sizes = v.sizes; current = v.current }
