-- ===== src/Observe/Controllers/Disabling.antt =====
-- What `disable_controller` does to a list of controllers.
use text.Mathlib.TextPositions.{eq_refl}
use cluster_openshift_contro.Common.{
  String, List, [], ◌∷◌, true, ◌≡◌, ◌≢◌, arith, eq_iff, ◌<>◌, member,
}
use cluster_openshift_contro.Observe.Controllers.{disable_controller}

-- Disabling a controller twice is disabling it once.
pub disable_controller_idem :
    (cs : List String) (c : String)
    → disable_controller (disable_controller cs c) c ≡ disable_controller cs c
unfolding disable_controller
disable_controller_idem [] c = ground (arith, eq_refl ("-" <> c))
disable_controller_idem (x ∷ xs) c =
    ground
      (arith, eq_refl ("-" <> c), eq_iff x c, eq_iff x ("-" <> c), disable_controller_idem xs c)

-- After a controller is disabled its disabled form is in the list, and every name but the
-- controller and its disabled form is in the list exactly if it was before.
pub disable_controller-member :
    (cs : List String) (c name : String)
    → name ≢ c
    → name ≢ "-" <> c
    → (member ("-" <> c) (disable_controller cs c) ≡ true)
      × (member name (disable_controller cs c) ≡ member name cs)
unfolding disable_controller
disable_controller-member cs c name h k = (here cs, other cs)
  where
    here : (l : List String) → member ("-" <> c) (disable_controller l c) ≡ true
    here [] = ground (arith, eq_refl ("-" <> c))
    here (x ∷ xs) = ground (arith, eq_refl ("-" <> c), eq_iff x ("-" <> c), here xs)

    other : (l : List String) → member name (disable_controller l c) ≡ member name l
    other [] = ground (arith, eq_iff ("-" <> c) name)
    other (x ∷ xs) =
        ground
          (arith, eq_iff ("-" <> c) name, eq_iff x name, eq_iff x c, eq_iff x ("-" <> c), other xs)
