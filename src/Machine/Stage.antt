-- ===== src/Machine/Stage.antt =====
-- Calls that print, read ports and write them: what they write is a list, the latest first.
use aimini_os.Base.{◌≡◌, refl, sym, ap, ◌∙◌, List, [], ◌∷◌, ◌++◌, Option, some, M, ◌>>=◌, then_lem}
use aimini_os.Console.{Console}
use aimini_os.Machine.{PortEvent, port_in, port_out, Machine}
use aimini_os.Machine.Quiet.{Reads, none_more, one_more, IsQuiet}

-- The writes of a history.
abbrev pub writes : List PortEvent → List PortEvent
writes [] = []
writes (port_in w p ∷ h) = writes h
writes (port_out w p v ∷ h) = port_out w p v ∷ writes h

pub writes-Reads : {h i : List PortEvent} → Reads h i → writes i ≡ writes h
writes-Reads none_more = refl
writes-Reads (one_more w p r) = writes-Reads r

-- A normal return from `m` that printed, wrote `outs` to ports, and changed nothing else.
pub record IsStage {A : Type 0} (m : Machine) (outs : List PortEvent)
    (result : Option (A × Machine)) : Type 0 where
  pub value : A
  pub console : Console
  pub ports : List PortEvent
  pub returns : result ≡ some (value, record m { console = console; ports = ports })
  pub wrote : writes ports ≡ outs ++ writes m.ports

pub Stage-Quiet :
    {A : Type 0} (m : Machine) {result : Option (A × Machine)}
    → IsQuiet m result
    → IsStage m [] result
Stage-Quiet m q = record {
  value = q.value;
  console = q.console;
  ports = q.ports;
  returns = q.returns;
  wrote = writes-Reads q.reads;
}

pub append_assoc : {A : Type 0} (xs ys zs : List A) → (xs ++ ys) ++ zs ≡ xs ++ (ys ++ zs)
append_assoc [] ys zs = refl
append_assoc (x ∷ xs) ys zs = ap (λ t. x ∷ t) (append_assoc xs ys zs)

module _ {A B : Type 0} where
  -- One stage after another.
  pub Stage-bind :
      (m : Machine) (x : M Machine A) (f : A → M Machine B) {first next : List PortEvent}
      → IsStage m first (x m)
      → ((a : A) (n : Machine) → IsStage n next (f a n))
      → IsStage m (next ++ first) ((x >>= f) m)
  Stage-bind m x f {first} {next} q r =
      let s = r q.value (record m { console = q.console; ports = q.ports }) in
      record {
        value = s.value;
        console = s.console;
        ports = s.ports;
        returns = then_lem x f q.returns ∙ s.returns;
        wrote =
            s.wrote
            ∙ (ap (λ t. next ++ t) q.wrote ∙ sym (append_assoc next first (writes m.ports)));
      }
