-- ===== src/Driver/Wait.antt =====
-- The end of the driver: packets do not wait for ever.
use cs489_router.Prelude.{Bool, true, ◌≡◌, true, List, []}
use cs489_router.Interfaces.{InterfaceConfig, Wan}
use cs489_router.Interfaces.Default.{HasDefault}
use cs489_router.State.{Router}
use cs489_router.Run.Sound.{IsSound}

module _ (timed : Bool) (interfaces : List InterfaceConfig) (wan : Wan)
    (default : HasDefault interfaces) where
  abbrev pub IsDone : Router → Type 0
  IsDone r' = (r'.delta_list ≡ []) × IsSound timed interfaces wan r'
