-- ===== src/Interfaces/Tests.antt =====
-- The initial array of interfaces: the LAN of 24 bits, and the WAN as the default route.
use cs489_router.Prelude.{◌≡◌, refl, some, arith, All}
use cs489_router.Address.{IpAddr, apply_mask, create_subnet_mask, ip_addr_equals}
use cs489_router.Interfaces.{interface_arr, get_interface_for_ip}
use cs489_router.Interfaces.Route.{IsConfig, IsRoute, get_interface_for_ip-IsRoute}

abbrev lan_host : IpAddr
lan_host = record { b0 = 192; b1 = 168; b2 = 1; b3 = 100 }

abbrev far_host : IpAddr
far_host = record { b0 = 8; b1 = 8; b2 = 8; b3 = 8 }

routes :
    (get_interface_for_ip interface_arr lan_host ≡ some 0)
    × (get_interface_for_ip interface_arr far_host ≡ some 1)
unfolding get_interface_for_ip apply_mask create_subnet_mask ip_addr_equals
routes = (refl, refl)

interface_arr-IsConfig : All IsConfig interface_arr
interface_arr-IsConfig = omega arith

get_interface_for_ip-IsRoute_example :
    IsRoute lan_host interface_arr (get_interface_for_ip interface_arr lan_host)
get_interface_for_ip-IsRoute_example =
    get_interface_for_ip-IsRoute interface_arr lan_host interface_arr-IsConfig (omega arith)
