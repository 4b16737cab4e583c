-- ===== src/Address/Tests.antt =====
-- The functions on addresses at concrete inputs.
use cs489_router.Prelude.{◌≡◌, refl, some, none, arith, ltb, if◌then◌else◌}
use cs489_router.Address.{IpAddr, create_subnet_mask, prefix_len_get}
use cs489_router.Address.Mask.{netmask, create_subnet_mask-netmask, prefix_len_get-netmask}

abbrev host : IpAddr
host = record { b0 = 192; b1 = 168; b2 = 1; b3 = 77 }

mask_of_20 : create_subnet_mask 20 ≡ record { b0 = 255; b1 = 255; b2 = 240; b3 = 0 }
unfolding create_subnet_mask
mask_of_20 = refl

-- The last byte is never set.
mask_of_30 : create_subnet_mask 30 ≡ record { b0 = 255; b1 = 255; b2 = 255; b3 = 0 }
unfolding create_subnet_mask
mask_of_30 = refl

create_subnet_mask-netmask_example : create_subnet_mask 20 ≡ netmask 20
create_subnet_mask-netmask_example = create_subnet_mask-netmask 20 (omega arith)

prefix_len_get-netmask_example : prefix_len_get (netmask 23) ≡ (if ltb 23 32 then some 23 else none)
prefix_len_get-netmask_example = prefix_len_get-netmask 23 (omega arith)
