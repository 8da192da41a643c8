-- ===== src/Arp/Cache/Unique.antt =====
-- No two valid entries of the cache are for one IP address.
use aimini_os.Base.{
  ℕ, ◌≡◌, ◌≢◌, refl, Bool, true, false, Option, none, some, [], ◌∷◌, arith, if◌then◌else◌,
}
use aimini_os.Layout.{Mac}
use aimini_os.Arp.Cache.{
  ArpCacheEntry, ArpCache, matches, find_mac, update_existing, add_new, replace_first,
  update_entries, result, clear_entries, prepend, first_return,
}

-- No valid entry is for `ip`.
abbrev pub Absent : ℕ → ArpCache → Type 0
Absent ip [] = Unit
Absent ip (e ∷ rest) = (matches ip e ≡ false) × Absent ip rest

abbrev pub IsUnique : ArpCache → Type 0
IsUnique [] = Unit
IsUnique (e ∷ rest) = (e.valid ≡ true → Absent e.ip_addr rest) × IsUnique rest

abbrev pub AllValid : ArpCache → Type 0
AllValid [] = Unit
AllValid (e ∷ rest) = (e.valid ≡ true) × AllValid rest

pub update_existing-none :
    (ip : ℕ) (m : Mac) (c : ArpCache) → update_existing ip m c ≡ none → Absent ip c
unfolding update_existing
update_existing-none ip m [] h = tt
update_existing-none ip m (e ∷ rest) h = ground (arith, update_existing-none ip m rest)

pub add_new-none : (ip : ℕ) (m : Mac) (c : ArpCache) → add_new ip m c ≡ none → AllValid c
unfolding add_new
add_new-none ip m [] h = tt
add_new-none ip m (e ∷ rest) h = ground (arith, add_new-none ip m rest)

pub find_mac-Absent : (ip : ℕ) (c : ArpCache) → Absent ip c → find_mac ip c ≡ none
unfolding find_mac
find_mac-Absent ip [] h = refl
find_mac-Absent ip (e ∷ rest) h = ground (arith, find_mac-Absent ip rest)

-- What holds of the value of an option, if it has one.
abbrev pub OnSome {ℓ} : {A : Type ℓ} → (A → Type 0) → Option A → Type 0
OnSome P none = Unit
OnSome P (some a) = P a

module _ (P : ArpCache → Type 0) where
  pub OnSome-if :
      (b : Bool) (x y : Option ArpCache)
      → (b ≡ true → OnSome P x)
      → (b ≡ false → OnSome P y)
      → OnSome P (if b then x else y)
  OnSome-if true x y p q = p refl
  OnSome-if false x y p q = q refl

  pub OnSome-prepend :
      (Q : ArpCache → Type 0) (e : ArpCacheEntry) (o : Option ArpCache)
      → OnSome Q o
      → ((r : ArpCache) → Q r → P (e ∷ r))
      → OnSome P (prepend e o)
  OnSome-prepend Q e none h f = tt
  OnSome-prepend Q e (some r) h f = f r h

pub OnSome-both :
    (C : Type 0) (P Q : ArpCache → Type 0) (o : Option ArpCache)
    → (C → OnSome P o)
    → OnSome Q o
    → OnSome (λ r. (C → P r) × Q r) o
OnSome-both C P Q none p q = tt
OnSome-both C P Q (some r) p q = (p, q)

-- A property of the table that each of the three returns gives.
pub result-first_return :
    (P : ArpCache → Type 0) (old new : Option ArpCache) (last : ArpCache)
    → OnSome P old
    → (old ≡ none → OnSome P new)
    → (old ≡ none → new ≡ none → P last)
    → P (result (first_return old new last))
result-first_return P (some c) new last p q r = p
result-first_return P none (some c) last p q r = q refl
result-first_return P none none last p q r = r refl refl

-- Each loop keeps an address out of the table that is not there and is not the new one.
Absent-update_existing :
    (j ip : ℕ) (m : Mac) (c : ArpCache) → Absent j c → OnSome (Absent j) (update_existing ip m c)
unfolding update_existing
Absent-update_existing j ip m [] a = tt
Absent-update_existing j ip m (e ∷ rest) a =
    OnSome-if (Absent j) (matches ip e) _ _ (λ _. a)
      (λ _.
        OnSome-prepend (Absent j) (Absent j) e _ (Absent-update_existing j ip m rest a.1)
          (λ r h. (a.0, h)))

Absent-add_new :
    (j ip : ℕ) (m : Mac) (c : ArpCache) → j ≢ ip → Absent j c → OnSome (Absent j) (add_new ip m c)
unfolding add_new
Absent-add_new j ip m [] ne a = tt
Absent-add_new j ip m (e ∷ rest) ne a =
    OnSome-if (Absent j) e.valid _ _
      (λ _.
        OnSome-prepend (Absent j) (Absent j) e _ (Absent-add_new j ip m rest ne a.1)
          (λ r h. (a.0, h)))
      (λ _. (ground arith, a.1))

IsUnique-update_existing :
    (ip : ℕ) (m : Mac) (c : ArpCache) → IsUnique c → OnSome IsUnique (update_existing ip m c)
unfolding update_existing
IsUnique-update_existing ip m [] u = tt
IsUnique-update_existing ip m (e ∷ rest) u =
    OnSome-if IsUnique (matches ip e) _ _ (λ _. u)
      (λ _.
        OnSome-prepend IsUnique (λ r. (e.valid ≡ true → Absent e.ip_addr r) × IsUnique r) e _
          (OnSome-both (e.valid ≡ true) (Absent e.ip_addr) IsUnique _
            (λ v. Absent-update_existing e.ip_addr ip m rest (u.0 v))
            (IsUnique-update_existing ip m rest u.1))
          (λ r h. h))

IsUnique-add_new :
    (ip : ℕ) (m : Mac) (c : ArpCache) → Absent ip c → IsUnique c → OnSome IsUnique (add_new ip m c)
unfolding add_new
IsUnique-add_new ip m [] a u = tt
IsUnique-add_new ip m (e ∷ rest) a u =
    OnSome-if IsUnique e.valid _ _
      (λ v.
        OnSome-prepend IsUnique (λ r. (e.valid ≡ true → Absent e.ip_addr r) × IsUnique r) e _
          (OnSome-both (e.valid ≡ true) (Absent e.ip_addr) IsUnique _
            (λ v. Absent-add_new e.ip_addr ip m rest (ground arith) (u.0 v))
            (IsUnique-add_new ip m rest a.1 u.1))
          (λ r h. h))
      (λ _. ((λ _. a.1), u.1))

IsUnique-replace_first :
    (ip : ℕ) (m : Mac) (c : ArpCache) → Absent ip c → IsUnique c → IsUnique (replace_first ip m c)
unfolding replace_first
IsUnique-replace_first ip m [] a u = tt
IsUnique-replace_first ip m (e ∷ rest) a u = ((λ _. a.1), u.1)

-- If the valid entries of the table have different IP addresses, they still have after
-- `update_arp_cache`, on each of its three returns.
pub IsUnique-update_entries :
    (ip : ℕ) (m : Mac) (c : ArpCache) → IsUnique c → IsUnique (result (update_entries ip m c))
unfolding update_entries
IsUnique-update_entries ip m c u =
    result-first_return IsUnique _ _ _ (IsUnique-update_existing ip m c u)
      (λ e. IsUnique-add_new ip m c (update_existing-none ip m c e) u)
      (λ e _. IsUnique-replace_first ip m c (update_existing-none ip m c e) u)

pub IsUnique-clear_entries : (c : ArpCache) → IsUnique (clear_entries c)
unfolding clear_entries
IsUnique-clear_entries [] = tt
IsUnique-clear_entries (e ∷ rest) = ((λ h. cc), IsUnique-clear_entries rest)
