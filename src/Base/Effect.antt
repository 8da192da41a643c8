-- ===== src/Base/Effect.antt =====
-- Statements of C over a state: `none` is undefined behaviour, such as an access out of an
-- array's bounds, after which the model says nothing.
use mathlib.Core.Path.{◌≡◌}
use mathlib.Core.Option.{Option, none, some}

-- A function with a result, over the state `S`.
abbrev pub M : Type 0 → Type 0 → Type 0
M S A = S → Option (A × S)

module _ {S : Type 0} where
  abbrev pub pure : {A : Type 0} → A → M S A
  pure a s = some (a, s)

  abbrev pub fault : {A : Type 0} → M S A
  fault s = none

  infixl 5 ◌>>=◌ ◌>>◌
  abbrev pub ◌>>=◌ : {A B : Type 0} → M S A → (A → M S B) → M S B
  ◌>>=◌ m f s = elim (m s) [ none ↦ none | some (a, s') ↦ f a s' ]

  abbrev pub ◌>>◌ : {B : Type 0} → M S (Unit {0}) → M S B → M S B
  ◌>>◌ m k = m >>= λ _. k

  abbrev pub skip : M S (Unit {0})
  skip s = some (tt, s)

  -- An assignment.
  abbrev pub modify : (S → S) → M S (Unit {0})
  modify f s = some (tt, f s)

  abbrev pub gets : {A : Type 0} → (S → A) → M S A
  gets f s = some (f s, s)

  -- What follows a call that returns normally.
  pub then_lem :
      {A B : Type 0} (x : M S A) (f : A → M S B) {s s' : S} {a : A}
      → x s ≡ some (a, s')
      → (x >>= f) s ≡ f a s'
  then_lem x f h = rw (h, ◌>>=◌)

  pub then_fault :
      {A B : Type 0} (x : M S A) (f : A → M S B) {s : S} → x s ≡ none → (x >>= f) s ≡ none
  then_fault x f h = rw (h, ◌>>=◌)
