-- ===== src/Devices/Tests.antt =====
-- The table of hardware addresses at concrete inputs.
use cs489_router.Prelude.{◌≡◌, refl, arith, some, if◌then◌else◌}
use cs489_router.Address.{IpAddr, zero_ip, zero_mac, broadcast_mac, ip_addr_equals}
use cs489_router.Devices.{IpMacPair, empty_map, update_ip_mac_pair}
use cs489_router.Devices.Table.{IsValid, known, known-update_ip_mac_pair}

abbrev blank : IpMacPair
blank = record { ip_addr = zero_ip; mac_addr = zero_mac }

abbrev gateway : IpAddr
gateway = record { b0 = 192; b1 = 168; b2 = 0; b3 = 1 }

abbrev seen : IpMacPair
seen = record { ip_addr = gateway; mac_addr = broadcast_mac }

first_update : (update_ip_mac_pair blank empty_map seen).alloc_amt ≡ 10
unfolding update_ip_mac_pair
first_update = refl

known-update_ip_mac_pair_example :
    (known (update_ip_mac_pair blank empty_map seen) gateway
      ≡ (if ip_addr_equals gateway gateway then some broadcast_mac else known empty_map gateway))
    × IsValid (update_ip_mac_pair blank empty_map seen)
known-update_ip_mac_pair_example =
    known-update_ip_mac_pair blank empty_map (record { allocated = refl; within = omega arith })
      seen gateway
