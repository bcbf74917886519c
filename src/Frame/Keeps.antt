-- ===== src/Frame/Keeps.antt =====
-- Actions that keep a predicate on the state, whatever they return, and how they are put together.
use sygma_substrate_pallets.Prelude.{
  ◌≡◌, refl, sym, ap, subst, Bool, true, false, Option, none, some, if◌then◌else◌,
}
use sygma_substrate_pallets.Frame.Dispatch.{
  Action, Result, ok, err, ◌>>=◌, transactional, map_err, ok_or,
}

abbrev pub Keeps : {S E A : Type 0} → (S → Type 0) → Action S E A → Type 0
Keeps {S} P m = (s : S) → P s → P (m s).1

module _ {S E A : Type 0} (P : S → Type 0) where
  -- An action that writes nothing.
  pub reads-Keeps : (m : Action S E A) → ((s : S) → (m s).1 ≡ s) → Keeps P m
  reads-Keeps m e s p = subst P (sym (e s)) p

  pub ok_or-Keeps : (o : Option A) (e : E) → Keeps P (ok_or o e)
  ok_or-Keeps none e s p = p
  ok_or-Keeps (some a) e s p = p

  pub if-Keeps :
      (b : Bool) (m k : Action S E A) → Keeps P m → Keeps P k → Keeps P (if b then m else k)
  if-Keeps true m k km kk = km
  if-Keeps false m k km kk = kk

  pub map_err-Keeps :
      {F : Type 0} (f : E → F) (m : Action S E A) → Keeps P m → Keeps P (map_err f m)
  map_err-Keeps f m km = km

  pub >>=-Keeps :
      {B : Type 0} (m : Action S E A) (f : A → Action S E B)
      → Keeps P m
      → ((a : A) → Keeps P (f a))
      → Keeps P (m >>= f)
  >>=-Keeps {B} m f km kf s p =
      (elim (m s).0
        as (λ r.
          let y : Result E B × S = elim r [ ok a ↦ f a (m s).1 | err e ↦ (err e, (m s).1) ] in
          P y.1) [ ok a ↦ kf a (m s).1 (km s p) | err e ↦ km s p ])

  -- An error undoes what was written, so that only the success has to be looked at.
  pub transactional-Keeps :
      (m : Action S E A)
      → ((s t : S) (a : A) → transactional m s ≡ (ok a, t) → P s → P t)
      → Keeps P (transactional m)
  transactional-Keeps m k s p = go (m s) refl
    where
      undone : Result E A × S → Result E A × S
      undone r = let y : Result E A × S = elim r.0 [ ok a ↦ (ok a, r.1) | err e ↦ (err e, s) ] in y

      go : (r : Result E A × S) → m s ≡ r → P (transactional m s).1
      go (ok a, t) e = subst P (sym (ap (λ r. (undone r).1) e)) (k s t a (ap undone e) p)
      go (err x, t) e = subst P (sym (ap (λ r. (undone r).1) e)) p
