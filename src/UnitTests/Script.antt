-- ===== src/UnitTests/Script.antt =====
-- The unit tests of the pallets as scripts: steps from the state at hand to what the step asserts
-- and the state that follows. `assert_ok!`, `assert_noop!` and `assert_eq!` are those of
-- frame_support and of Rust; `assert_events` is the one of the mocks.
use sygma_substrate_pallets.Prelude.{
  ℕ, replicate, ◌≡◌, ◌≢◌, Bool, true, false, List, [], ◌∷◌, ◌++◌, length, take,
}
use sygma_substrate_pallets.Frame.Dispatch.{Origin, root, ok, err}
use sygma_substrate_pallets.Traits.{AccountId}
use sygma_substrate_pallets.Codec.Words.{from_be}
use sygma_substrate_pallets.Runtime.{State, Dispatch, DispatchError, RuntimeEvent}

-- `AccountId32::new([b; 32])`
abbrev pub account_of_byte : ℕ → AccountId
account_of_byte b = from_be (replicate 32 b)

-- `EnsureRoot<Self::AccountId>`
abbrev pub is_root : Origin → Bool
is_root root = true
is_root _ = false

-- Newest first, as the state keeps the events
unfoldable pub reverse : List RuntimeEvent → List RuntimeEvent
reverse [] = []
reverse (e ∷ es) = reverse es ++ (e ∷ [])

abbrev pub Step : Type 0 → Type 1
Step L = State L → Type 0 × State L

module _ {L : Type 0} where
  unfoldable pub Passes : List (Step L) → State L → Type 0
  Passes [] s = Unit {0}
  Passes (step ∷ steps) s = (step s).0 × Passes steps (step s).1

  -- The call succeeds.
  abbrev pub assert_ok : Dispatch L (Unit {0}) → Step L
  assert_ok call s = ((call s).0 ≡ ok tt, (call s).1)

  -- The call fails with the error and writes nothing.
  abbrev pub assert_noop : Dispatch L (Unit {0}) → DispatchError → Step L
  assert_noop call e s = (call s ≡ (err e, s), s)

  abbrev pub assert : (State L → Bool) → Step L
  assert p s = (p s ≡ true, s)

  abbrev pub assert_not : (State L → Bool) → Step L
  assert_not p s = (p s ≡ false, s)

  abbrev pub assert_eq : {A : Type 0} → (State L → A) → A → Step L
  assert_eq f a s = (f s ≡ a, s)

  abbrev pub assert_ne : {A : Type 0} → (State L → A) → A → Step L
  assert_ne f a s = (f s ≢ a, s)

  -- A change of the storage that returns nothing
  abbrev pub run : (State L → State L) → Step L
  run f s = (Unit {0}, f s)

  -- The events are the latest, in their order.
  abbrev pub assert_events : List RuntimeEvent → Step L
  assert_events expected s = (take (length expected) s.events ≡ reverse expected, s)

  -- The state after the steps
  unfoldable pub after : List (Step L) → State L → State L
  after [] s = s
  after (step ∷ steps) s = after steps (step s).1

  pub Passes-append :
      (xs ys : List (Step L)) (s : State L)
      → Passes xs s
      → Passes ys (after xs s)
      → Passes (xs ++ ys) s
  unfolding Passes after
  Passes-append [] ys s p q = q
  Passes-append (x ∷ xs) ys s (a, p) q = (a, Passes-append xs ys (x s).1 p q)
