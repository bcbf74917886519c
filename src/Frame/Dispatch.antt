-- ===== src/Frame/Dispatch.antt =====
-- Origins, and results of calls. A call takes the state to a result and a state: what was written
-- before an error stays written, unless the call is `transactional`.
use sygma_substrate_pallets.Prelude.{ℕ, Bool, true, false, Option, none, some}

-- The caller of an extrinsic: `RawOrigin`, or an origin of another pallet.
pub data Origin : Type 0 where
  root : Origin
  signed : ℕ → Origin
  unsigned : Origin
  custom : ℕ → Origin

pub data Result (E A : Type 0) : Type 0 where
  ok : A → Result E A
  err : E → Result E A

abbrev pub Action : Type 0 → Type 0 → Type 0 → Type 0
Action S E A = S → Result E A × S

infixl 5 ◌>>=◌ ◌>>◌
abbrev pub ◌>>=◌ : {S E A B : Type 0} → Action S E A → (A → Action S E B) → Action S E B
◌>>=◌ m f s = let (r, s') = m s in elim r [ ok a ↦ f a s' | err e ↦ (err e, s') ]

abbrev pub ◌>>◌ : {S E B : Type 0} → Action S E (Unit {0}) → Action S E B → Action S E B
m >> k = m >>= λ _. k

abbrev pub pure : {S E A : Type 0} → A → Action S E A
pure a s = (ok a, s)

abbrev pub throw : {S E A : Type 0} → E → Action S E A
throw e s = (err e, s)

abbrev pub gets : {S E A : Type 0} → (S → A) → Action S E A
gets f s = (ok (f s), s)

abbrev pub modify : {S E : Type 0} → (S → S) → Action S E (Unit {0})
modify f s = (ok tt, f s)

-- `ensure!(c, e)`
abbrev pub ensure : {S E : Type 0} → Bool → E → Action S E (Unit {0})
ensure true e s = (ok tt, s)
ensure false e s = (err e, s)

-- `ensure!` of a condition that reads the state
abbrev pub require : {S E : Type 0} → (S → Bool) → E → Action S E (Unit {0})
require c e s = ensure (c s) e s

-- `o.ok_or(e)?`
abbrev pub ok_or : {S E A : Type 0} → Option A → E → Action S E A
ok_or none e s = (err e, s)
ok_or (some a) e s = (ok a, s)

-- `r?` of a computed result, with its error wrapped
abbrev pub lift : {S E F A : Type 0} → (E → F) → Result E A → Action S F A
lift f (ok a) s = (ok a, s)
lift f (err e) s = (err (f e), s)

-- `m.map_err(f)?`
abbrev pub map_err : {S E F A : Type 0} → (E → F) → Action S E A → Action S F A
map_err f m s = let (r, s') = m s in (elim r [ ok a ↦ ok a | err e ↦ err (f e) ], s')

-- `#[transactional]`: an error undoes what was written.
abbrev pub transactional : {S E A : Type 0} → Action S E A → Action S E A
transactional m s = let (r, s') = m s in elim r [ ok a ↦ (ok a, s') | err e ↦ (err e, s) ]

abbrev pub is_ok : {E A : Type 0} → Result E A → Bool
is_ok (ok _) = true
is_ok (err _) = false
