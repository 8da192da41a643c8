-- ===== src/Rtl8139/Log/Laws.antt =====
-- With as many bytes in the packet as its length says, the debug output only prints.
use aimini_os.Base.{
  ℕ, zero, suc, ◌+◌, ◌≤◌, ◌<◌, ◌≡◌, refl, List, [], ◌∷◌, leb, ltb, ◌&&◌, ◌==◌, Option, some, length,
  get_elem?, arith, M, skip, leb→le, drop, length-drop, if◌then◌else◌, ◌>>=◌,
}
use aimini_os.Machine.{Machine, demand}
use aimini_os.Machine.Quiet.{IsQuiet, Quiet-bind, Quiet-pure, Quiet-if, none_more, Quiet-say}
use aimini_os.Rtl8139.Log.{
  prefix, bytes_from, log_length, log_data, log_eth, log_ip, log_if_ip, log_packet,
}

prefix-some :
    (n : ℕ) (packet : List ℕ) → n ≤ length packet → (xs : List ℕ) × (prefix n packet ≡ some xs)
unfolding prefix
prefix-some zero packet h = ([], refl)
prefix-some (suc n) [] h = absurd (omega arith)
prefix-some (suc n) (x ∷ packet) h =
    let rest = prefix-some n packet (omega arith) in (x ∷ rest.0, rw rest.1)

bytes_from-some :
    (from n : ℕ) (packet : List ℕ)
    → from + n ≤ length packet
    → (xs : List ℕ) × (bytes_from from n packet ≡ some xs)
unfolding bytes_from
bytes_from-some from n packet h =
    prefix-some n (drop from packet) (omega (arith, length-drop from packet))

get_elem?-some :
    (packet : List ℕ) (i : ℕ) → i < length packet → (x : ℕ) × (get_elem? packet i ≡ some x)
get_elem?-some [] i h = absurd (omega arith)
get_elem?-some (x ∷ packet) zero h = (x, refl)
get_elem?-some (x ∷ packet) (suc i) h = get_elem?-some packet i (omega arith)

-- A value that is there.
Quiet-demand :
    {A B : Type 0} (m : Machine) (o : Option A) (f : A → M Machine B)
    → (a : A) × (o ≡ some a)
    → ((a : A) → IsQuiet m (f a m))
    → IsQuiet m ((demand o >>= f) m)
Quiet-demand m o f v r = rw (v.1, demand, ◌>>=◌) (r v.0)

Quiet-log_length : (n : ℕ) (m : Machine) → IsQuiet m (log_length n m)
unfolding log_length
Quiet-log_length n m = record {
  value = tt;
  console = _;
  ports = _;
  returns = refl;
  reads = none_more;
}

Quiet-log_data :
    (packet : List ℕ) (n : ℕ) (m : Machine) → n ≤ length packet → IsQuiet m (log_data packet n m)
unfolding log_data
Quiet-log_data packet n m h =
    Quiet-demand m (bytes_from 0 (if ltb n 64 then n else 64) packet) _
      (bytes_from-some 0 (if ltb n 64 then n else 64) packet (ground arith))
      (λ shown. Quiet-say m _)

Quiet-log_eth : (packet : List ℕ) (m : Machine) → 14 ≤ length packet → IsQuiet m (log_eth packet m)
unfolding log_eth
Quiet-log_eth packet m h =
    Quiet-demand m (bytes_from 0 6 packet) _ (bytes_from-some 0 6 packet (omega arith)) (λ dest.
      Quiet-demand m (bytes_from 6 6 packet) _ (bytes_from-some 6 6 packet (omega arith)) (λ src.
        Quiet-demand m (bytes_from 12 2 packet) _ (bytes_from-some 12 2 packet (omega arith))
          (λ eth_type. Quiet-say m _)))

Quiet-log_ip : (packet : List ℕ) (m : Machine) → 34 ≤ length packet → IsQuiet m (log_ip packet m)
unfolding log_ip
Quiet-log_ip packet m h = Quiet-demand m (bytes_from 14 1 packet) _ (there 14 1 (omega arith)) (λ _.
    Quiet-demand m (bytes_from 16 2 packet) _ (there 16 2 (omega arith)) (λ _.
      Quiet-demand m (bytes_from 23 1 packet) _ (there 23 1 (omega arith)) (λ _.
        Quiet-demand m (bytes_from 24 2 packet) _ (there 24 2 (omega arith)) (λ _.
          Quiet-demand m (bytes_from 26 4 packet) _ (there 26 4 (omega arith)) (λ _.
            Quiet-demand m (bytes_from 30 4 packet) _ (there 30 4 (omega arith))
              (λ _. Quiet-say m _))))))
  where
    there :
        (from n : ℕ)
        → from + n ≤ length packet
        → (xs : List ℕ) × (bytes_from from n packet ≡ some xs)
    there from n = bytes_from-some from n packet

Quiet-log_if_ip :
    (packet : List ℕ) (m : Machine) → 34 ≤ length packet → IsQuiet m (log_if_ip packet m)
unfolding log_if_ip
Quiet-log_if_ip packet m h =
    Quiet-demand m (get_elem? packet 12) _ (get_elem?-some packet 12 (omega arith)) (λ hi.
      Quiet-demand m (get_elem? packet 13) _ (get_elem?-some packet 13 (omega arith)) (λ lo.
        Quiet-if m ((hi == 0x08) && (lo == 0x00)) (log_ip packet) skip
          (λ _. Quiet-log_ip packet m h) (λ _. Quiet-pure m tt)))

pub Quiet-log_packet :
    (packet : List ℕ) (n : ℕ) (m : Machine) → n ≤ length packet → IsQuiet m (log_packet packet n m)
unfolding log_packet
Quiet-log_packet packet n m h = Quiet-bind m (log_length n) _ (Quiet-log_length n m) (λ _ a.
    Quiet-bind a (log_data packet n) _ (Quiet-log_data packet n a h) (λ _ b.
      Quiet-bind b (if leb 14 n then log_eth packet else skip) _
        (Quiet-if b (leb 14 n) (log_eth packet) skip
          (λ e. Quiet-log_eth packet b (omega (arith, leb→le 14 n e))) (λ _. Quiet-pure b tt))
        (λ _ c.
          Quiet-if c (leb 34 n) (log_if_ip packet) skip
            (λ e. Quiet-log_if_ip packet c (omega (arith, leb→le 34 n e))) (λ _. Quiet-pure c tt))))
