-- ===== src/Frame/Inversion.antt =====
-- What a successful composition of actions says of its parts.
use sygma_substrate_pallets.Prelude.{◌≡◌, ◌⊎◌, inl, inr, refl, ap, arith}
use sygma_substrate_pallets.Frame.Dispatch.{Action, Result, ok, err, ◌>>=◌, transactional, map_err}

module _ {S E A : Type 0} where
  pub >>=-ok :
      {B : Type 0} (m : Action S E A) (f : A → Action S E B) (s : S) {b : B} {s' : S}
      → (m >>= f) s ≡ (ok b, s')
      → (a : A) × (t : S) × (m s ≡ (ok a, t)) × (f a t ≡ (ok b, s'))
  >>=-ok {B} m f s {b} {s'} h = go (m s) refl h
    where
      go :
          (r : Result E A × S)
          → m s ≡ r
          → (let y : Result E B × S = elim r.0 [ ok a ↦ f a r.1 | err e ↦ (err e, r.1) ] in
              y ≡ (ok b, s'))
          → (a : A) × (t : S) × (m s ≡ (ok a, t)) × (f a t ≡ (ok b, s'))
      go (ok a, t) e k = (a, t, e, k)
      go (err x, t) e k = ground (arith, k)

  pub transactional-ok :
      (m : Action S E A) (s : S) {a : A} {s' : S}
      → transactional m s ≡ (ok a, s')
      → m s ≡ (ok a, s')
  transactional-ok m s {a} {s'} h = go (m s) refl h
    where
      go :
          (r : Result E A × S)
          → m s ≡ r
          → (let y : Result E A × S = elim r.0 [ ok a ↦ (ok a, r.1) | err e ↦ (err e, s) ] in
              y ≡ (ok a, s'))
          → m s ≡ (ok a, s')
      go (ok x, t) e k = ground (arith, e, k)
      go (err x, t) e k = ground (arith, k)

  -- A transactional action that fails leaves the state as it was.
  pub transactional-err :
      (m : Action S E A) (s : S) {e : E} {s' : S} → transactional m s ≡ (err e, s') → s' ≡ s
  transactional-err m s {e} {s'} h = go (m s) refl h
    where
      go :
          (r : Result E A × S)
          → m s ≡ r
          → (let y : Result E A × S = elim r.0 [ ok a ↦ (ok a, r.1) | err e ↦ (err e, s) ] in
              y ≡ (err e, s'))
          → s' ≡ s
      go (ok x, t) q k = ground (arith, k)
      go (err x, t) q k = ground (arith, k)

  pub map_err-ok :
      {F : Type 0} (f : E → F) (m : Action S E A) (s : S) {a : A} {s' : S}
      → map_err f m s ≡ (ok a, s')
      → m s ≡ (ok a, s')
  map_err-ok {F} f m s {a} {s'} h = go (m s) refl h
    where
      go :
          (r : Result E A × S)
          → m s ≡ r
          → (let y : Result F A = elim r.0 [ ok a ↦ ok a | err e ↦ err (f e) ] in
              ◌≡◌ {A = Result F A × S} (y, r.1) (ok a, s'))
          → m s ≡ (ok a, s')
      go (ok x, t) e k = ground (arith, e, k)
      go (err x, t) e k = ground (arith, k)

  -- A composition goes on from what its first part returns.
  pub >>=-step :
      {B : Type 0} (m : Action S E A) (f : A → Action S E B) (s : S) {a : A} {t : S}
      → m s ≡ (ok a, t)
      → (m >>= f) s ≡ f a t
  >>=-step {B} m f s {a} {t} h =
      ap
        (λ (r : Result E A × S).
          let y : Result E B × S = elim r.0 [ ok a ↦ f a r.1 | err e ↦ (err e, r.1) ] in y)
        h

  pub >>=-stop :
      {B : Type 0} (m : Action S E A) (f : A → Action S E B) (s : S) {e : E} {t : S}
      → m s ≡ (err e, t)
      → (m >>= f) s ≡ (err e, t)
  >>=-stop {B} m f s {e} {t} h =
      ap
        (λ (r : Result E A × S).
          let y : Result E B × S = elim r.0 [ ok a ↦ f a r.1 | err x ↦ (err x, r.1) ] in y)
        h

  -- An action returns a value or an error.
  pub Action-cases :
      (m : Action S E A) (s : S)
      → ((a : A) × (t : S) × (m s ≡ (ok a, t))) ⊎ ((e : E) × (t : S) × (m s ≡ (err e, t)))
  Action-cases m s = go (m s) refl
    where
      go :
          (r : Result E A × S)
          → m s ≡ r
          → ((a : A) × (t : S) × (m s ≡ (ok a, t))) ⊎ ((e : E) × (t : S) × (m s ≡ (err e, t)))
      go (ok a, t) e = inl (a, t, e)
      go (err x, t) e = inr (x, t, e)
