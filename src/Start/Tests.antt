-- ===== src/Start/Tests.antt =====
-- Starts of the program on the addresses that are built in, and on reported ones.
use cs489_router.Prelude.{true, ◌≡◌, refl, some, List, [], ◌∷◌, All, arith}
use cs489_router.Address.Mask.{netmask}
use cs489_router.Interfaces.{interface_get_config, interface_get_wan_id}
use cs489_router.State.{Router}
use cs489_router.Sample.{idle}
use cs489_router.Timer.{timer_handler}
use cs489_router.Timer.Due.{due}
use cs489_router.Run.Sound.{IsSound}
use cs489_router.Start.{Ifaddrs, inet, packet, other_family, boot, strncmp_equal}
use cs489_router.Start.Network.{IsOnWan, IsUsable, wan_interface, boot-IsOnWan}
use cs489_router.Start.Waiting.{no_pair, boots_idle, waiting_router, datagram_waits}
use cs489_router.Start.Boot.{boot-IsSound, boot-timer_handler}

-- A loopback interface, which is not looked at, and the WAN's: 10.1.2.3 on a network of 20 bits.
abbrev reported : List Ifaddrs
reported =
    record {
      ifa_name = b'l' ∷ b'o' ∷ [];
      ifa_addr =
          inet (record { b0 = 127; b1 = 0; b2 = 0; b3 = 1 })
            (record { b0 = 255; b1 = 255; b2 = 255; b3 = 255 });
    }
    ∷ record {
      ifa_name = wan_interface;
      ifa_addr = packet (record { m0 = 2; m1 = 0; m2 = 0; m3 = 0; m4 = 0; m5 = 2 });
    }
    ∷ record {
      ifa_name = wan_interface;
      ifa_addr =
          inet (record { b0 = 10; b1 = 1; b2 = 2; b3 = 3 })
            (record { b0 = 255; b1 = 255; b2 = 240; b3 = 0 });
    }
    ∷ record { ifa_name = wan_interface; ifa_addr = other_family }
    ∷ []

reported-IsUsable :
    All (λ (ifa : Ifaddrs). IsUsable wan_interface ifa.ifa_name ifa.ifa_addr) reported
unfolding strncmp_equal netmask interface_get_config interface_get_wan_id
reported-IsUsable = (
  λ same. absurd (cc same),
  (
    tt,
    (
      (λ same. ((omega arith, omega arith, omega arith, omega arith), (20, omega arith, refl))),
      (tt, tt),
    ),
  ),
)

boot-IsOnWan_example : (r : Router) × (boot no_pair 0 reported ≡ some r) × IsOnWan wan_interface r
boot-IsOnWan_example = boot-IsOnWan no_pair 0 reported reported-IsUsable

boot-IsSound_example : IsSound true idle.interfaces idle.wan waiting_router
boot-IsSound_example = boot-IsSound no_pair 0 [] idle boots_idle true waiting_router datagram_waits

boot-timer_handler_example :
    (r' : Router) × (timer_handler waiting_router ≡ some r') × (due r'.delta_list ≡ [])
boot-timer_handler_example =
    boot-timer_handler no_pair 0 [] idle boots_idle true waiting_router datagram_waits
