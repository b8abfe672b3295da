-- ===== src/Adapters/Tests.antt =====
-- The version check and the feed filter on concrete inputs.
use go_mink.Base.{◌≡◌, ◌↔◌, true, none, some}
use go_mink.Base.Int.{pos}
use go_mink.Adapters.Errors.{Error}
use go_mink.Adapters.Version.{check_version, check_version-decides, Accepts, Rejects}

check_version-decides_example :
    ((check_version "Order-1" (pos 2) (pos 3) true ≡ none) ↔ Accepts (pos 2) (pos 3) true)
    × ((e : Error)
        → (check_version "Order-1" (pos 2) (pos 3) true ≡ some e)
          ↔ Rejects "Order-1" (pos 2) (pos 3) true e)
check_version-decides_example = check_version-decides "Order-1" (pos 2) (pos 3) true
