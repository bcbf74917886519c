-- ===== src/Xcm/Api.antt =====
-- The functions of the `xcm` crate on locations that the source calls, as parameters with what
-- their documentation says.
use sygma_substrate_pallets.Prelude.{◌≡◌, List, [], ◌∷◌, Option, none, some}
use sygma_substrate_pallets.Xcm.{Junction, MultiLocation}

pub record LocationApi : Type 0 where
  -- `MultiLocation::first_interior`
  pub first_interior : MultiLocation → Option Junction
  -- `Junctions::split_first`: the rest, and the first junction
  pub split_first : List Junction → List Junction × Option Junction

abbrev pub head : List Junction → Option Junction
head [] = none
head (j ∷ js) = some j

abbrev pub rest : List Junction → List Junction
rest [] = []
rest (j ∷ js) = js

pub record IsLocationApi (X : LocationApi) : Type 0 where
  pub first_interior_is : (m : MultiLocation) → X.first_interior m ≡ head m.interior
  pub split_first_is : (js : List Junction) → X.split_first js ≡ (rest js, head js)
