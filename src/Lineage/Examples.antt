-- ===== src/Lineage/Examples.antt =====
-- Runs of contexts that nest.
use go_stopper.Prelude.{◌≡◌, refl, false, [], ◌∷◌, none, some}
use go_stopper.Errors.{stopped}
use go_stopper.State.{State, new, add_stop_hook}
use go_stopper.Lineage.{Family, join_family, cleanup}
use go_stopper.Lineage.Cleanup.{cleanup-join_family}

abbrev parent : State
parent = (add_stop_hook (record { child = 5; fn = 50 }) (new 1 false)).0

abbrev family : Family
family = record {
  parent = parent;
  children = 3 ∷ [];
  after_armed = false;
  cause = none;
  trace_open = false;
}

cleanup-join_family_example :
    cleanup 6 7 stopped (join_family (record { child = 6; fn = 60 }) 7 family).0 ≡ record {
      parent = parent;
      children = 3 ∷ [];
      after_armed = false;
      cause = some stopped;
      trace_open = false;
    }
unfolding new add_stop_hook
cleanup-join_family_example =
    cleanup-join_family (record { child = 6; fn = 60 }) 7 stopped family refl refl (refl, tt)
      (refl, tt)
