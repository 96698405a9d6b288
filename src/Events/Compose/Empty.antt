-- ===== src/Events/Compose/Empty.antt =====
-- Where there is nothing to validate, nothing is asked.
use incident_garden.Prelude.{◌≡◌, refl, []}
use incident_garden.Store.{World}
use incident_garden.Store.Returns.{Returns, Returns-bind, Returns-pure}
use incident_garden.Events.Compose.{check_services, check_groups, validate_affected_entities}

pub validate_nothing-Returns :
    (w : World) → Returns (λ _ u. u ≡ w) (validate_affected_entities [] []) w
unfolding validate_affected_entities check_services check_groups
validate_nothing-Returns w =
    Returns-bind {P = λ _ u. u ≡ w} _ _ w (Returns-pure tt w refl) λ t u s. Returns-pure tt u s
