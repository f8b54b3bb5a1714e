-- ===== src/Tests/Modifiers.antt =====
-- A required group with two options.
use order_agent.Prelude.{◌≡◌, refl, true, List, [], ◌∷◌, map, All}
use order_agent.Prelude.Int.{pos}
use order_agent.Errors.{ok, err, modifier_required, modifier_duplicate}
use order_agent.Modifiers.{
  ModifierOption, ModifierGroup, by_code, by_name, Candidate, snapshot, validate,
}
use order_agent.Modifiers.Sound.{AreChosen, AreDistinct, IsWithin, validate_lem}

abbrev mild : ModifierOption
mild = record { id = 1; code = "MILD"; name = "少辣"; price_delta_minor = pos 0; active = true }

abbrev hot : ModifierOption
hot = record { id = 2; code = "HOT"; name = "重辣"; price_delta_minor = pos 100; active = true }

abbrev spice : ModifierGroup
spice = record {
  id = 5;
  code = "SPICE";
  active = true;
  required = true;
  min_selections = 0;
  max_selections = 1;
  options = mild ∷ hot ∷ [];
}

chooses : validate (spice ∷ []) (by_name "重辣" ∷ []) ≡ ok (snapshot (spice, hot) ∷ [])
unfolding validate
chooses = refl

misses : validate (spice ∷ []) [] ≡ err (modifier_required "SPICE")
unfolding validate
misses = refl

repeats : validate (spice ∷ []) (by_name "重辣" ∷ by_code "SPICE" "HOT" ∷ []) ≡ err modifier_duplicate
unfolding validate
repeats = refl

validate_lem_example :
    (resolved : List Candidate) × (snapshot (spice, hot) ∷ [] ≡ map snapshot resolved)
    × AreChosen (by_name "重辣" ∷ []) resolved
    × AreDistinct resolved
    × All (IsWithin resolved) (spice ∷ [])
validate_lem_example = validate_lem (spice ∷ []) (by_name "重辣" ∷ []) chooses
