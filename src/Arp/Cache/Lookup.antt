-- ===== src/Arp/Cache/Lookup.antt =====
-- What a lookup finds after the table has been updated: the cache against a finite map.
use aimini_os.Base.{
  ℕ, suc, ◌≡◌, ◌<◌, refl, ap, false, Option, none, some, [], ◌∷◌, ◌==◌, arith, length, ◌⊎◌, inl,
  inr, if◌then◌else◌,
}
use native.Mathlib.Decide.{ℕ_discrete}
use aimini_os.Layout.{Mac}
use aimini_os.Arp.Cache.{
  ArpCacheEntry, ArpCache, matches, find_mac, update_existing, add_new, replace_first,
  update_entries, result, clear_entries,
}
use aimini_os.Arp.Cache.Unique.{
  Absent, IsUnique, AllValid, OnSome, OnSome-if, OnSome-prepend, find_mac-Absent,
  update_existing-none, add_new-none, result-first_return,
}

-- `c` maps as `old` does, but `ip` to `m`.
abbrev pub Maps : ℕ → Mac → ArpCache → ArpCache → Type 0
Maps ip m old c = (j : ℕ) → find_mac j c ≡ (if j == ip then some m else find_mac j old)

Maps-cons :
    (ip : ℕ) (m : Mac) (e : ArpCacheEntry) (rest r : ArpCache)
    → matches ip e ≡ false
    → Maps ip m rest r
    → Maps ip m (e ∷ rest) (e ∷ r)
unfolding find_mac
Maps-cons ip m e rest r ne h j = ground (arith, h j)

Maps-update_existing :
    (ip : ℕ) (m : Mac) (c : ArpCache) → OnSome (Maps ip m c) (update_existing ip m c)
unfolding update_existing find_mac
Maps-update_existing ip m [] = tt
Maps-update_existing ip m (e ∷ rest) =
    OnSome-if (Maps ip m (e ∷ rest)) (matches ip e) _ _ (λ y j. ground arith)
      (λ n.
        OnSome-prepend (Maps ip m (e ∷ rest)) (Maps ip m rest) e _ (Maps-update_existing ip m rest)
          (λ r h. Maps-cons ip m e rest r n h))

Maps-add_new :
    (ip : ℕ) (m : Mac) (c : ArpCache) → Absent ip c → OnSome (Maps ip m c) (add_new ip m c)
unfolding add_new find_mac
Maps-add_new ip m [] a = tt
Maps-add_new ip m (e ∷ rest) a =
    OnSome-if (Maps ip m (e ∷ rest)) e.valid _ _
      (λ y.
        OnSome-prepend (Maps ip m (e ∷ rest)) (Maps ip m rest) e _ (Maps-add_new ip m rest a.1)
          (λ r h. Maps-cons ip m e rest r a.0 h))
      (λ n j. ground arith)

-- `j` loses its entry to `ip`: the table is full, does not know `ip`, and `j` is in entry 0.
abbrev pub Evicts : ℕ → ℕ → ArpCache → Type 0
Evicts ip j [] = ⊥
Evicts ip j (e ∷ rest) = AllValid (e ∷ rest) × (find_mac ip (e ∷ rest) ≡ none) × (e.ip_addr ≡ j)

-- What an update promises of the map that the table stands for.
pub record IsUpdated (ip : ℕ) (m : Mac) (c c' : ArpCache) : Type 0 where
  pub own : find_mac ip c' ≡ some m
  pub others :
      (j : ℕ) → (j ≡ ip) ⊎ (find_mac j c' ≡ find_mac j c) ⊎ (Evicts ip j c × (find_mac j c' ≡ none))

Maps-IsUpdated : (ip : ℕ) (m : Mac) (c c' : ArpCache) → Maps ip m c c' → IsUpdated ip m c c'
Maps-IsUpdated ip m c c' h = record {
  own = ground (arith, h ip);
  others = λ j. elim (ℕ_discrete j ip) [ yes p ↦ inl p | no ne ↦ inr (inl (ground (arith, h j))) ];
}

OnSome-IsUpdated :
    (ip : ℕ) (m : Mac) (c : ArpCache) (o : Option ArpCache)
    → OnSome (Maps ip m c) o
    → OnSome (IsUpdated ip m c) o
OnSome-IsUpdated ip m c none h = tt
OnSome-IsUpdated ip m c (some c') h = Maps-IsUpdated ip m c c' h

replace_first-IsUpdated :
    (ip : ℕ) (m : Mac) (c : ArpCache)
    → 0 < length c
    → IsUnique c
    → AllValid c
    → Absent ip c
    → IsUpdated ip m c (replace_first ip m c)
unfolding replace_first find_mac
replace_first-IsUpdated ip m [] pos u full a = absurd (omega arith)
replace_first-IsUpdated ip m (e ∷ rest) pos u full a = record {
  own = ground arith;
  others = λ j. elim (ℕ_discrete e.ip_addr j) [
    | yes p ↦ inr (
        inr (
          (full, find_mac-Absent ip (e ∷ rest) a, p),
          ground (arith, find_mac-Absent e.ip_addr rest (u.0 full.0)),
        ))
    | no p ↦ elim (ℕ_discrete j ip) [ yes same ↦ inl same | no ne ↦ inr (inl (ground arith)) ]
  ];
}

-- In a table with an entry at least and no two valid entries for one IP address, after
-- `update_arp_cache` the address is known with its new hardware address; every other address is
-- found as before, but for the one in entry 0 of a full table that did not know the new address,
-- which is not found any more.
pub update_entries-IsUpdated :
    (ip : ℕ) (m : Mac) (c : ArpCache)
    → 0 < length c
    → IsUnique c
    → IsUpdated ip m c (result (update_entries ip m c))
unfolding update_entries
update_entries-IsUpdated ip m c pos u =
    result-first_return (IsUpdated ip m c) _ _ _
      (OnSome-IsUpdated ip m c _ (Maps-update_existing ip m c))
      (λ e. OnSome-IsUpdated ip m c _ (Maps-add_new ip m c (update_existing-none ip m c e)))
      (λ e f.
        replace_first-IsUpdated ip m c pos u (add_new-none ip m c f)
          (update_existing-none ip m c e))

length-update_existing :
    (ip : ℕ) (m : Mac) (c : ArpCache) → OnSome (λ r. length r ≡ length c) (update_existing ip m c)
unfolding update_existing
length-update_existing ip m [] = tt
length-update_existing ip m (e ∷ rest) =
    OnSome-if (λ r. length r ≡ suc (length rest)) (matches ip e) _ _ (λ _. refl)
      (λ _.
        OnSome-prepend (λ r. length r ≡ suc (length rest)) (λ r. length r ≡ length rest) e _
          (length-update_existing ip m rest) (λ r h. ap suc h))

length-add_new :
    (ip : ℕ) (m : Mac) (c : ArpCache) → OnSome (λ r. length r ≡ length c) (add_new ip m c)
unfolding add_new
length-add_new ip m [] = tt
length-add_new ip m (e ∷ rest) =
    OnSome-if (λ r. length r ≡ suc (length rest)) e.valid _ _
      (λ _.
        OnSome-prepend (λ r. length r ≡ suc (length rest)) (λ r. length r ≡ length rest) e _
          (length-add_new ip m rest) (λ r h. ap suc h))
      (λ _. refl)

length-replace_first : (ip : ℕ) (m : Mac) (c : ArpCache) → length (replace_first ip m c) ≡ length c
unfolding replace_first
length-replace_first ip m [] = refl
length-replace_first ip m (e ∷ rest) = refl

pub length-update_entries :
    (ip : ℕ) (m : Mac) (c : ArpCache) → length (result (update_entries ip m c)) ≡ length c
unfolding update_entries
length-update_entries ip m c =
    result-first_return (λ r. length r ≡ length c) _ _ _ (length-update_existing ip m c)
      (λ _. length-add_new ip m c) (λ _ _. length-replace_first ip m c)

-- A cleared table knows no address.
pub find_mac-clear_entries : (j : ℕ) (c : ArpCache) → find_mac j (clear_entries c) ≡ none
unfolding find_mac clear_entries
find_mac-clear_entries j [] = refl
find_mac-clear_entries j (e ∷ rest) = find_mac-clear_entries j rest
