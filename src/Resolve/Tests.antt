-- ===== src/Resolve/Tests.antt =====
-- The printer answers.
use cs489_router.Prelude.{ℕ, ◌≡◌, refl, All, ◌++◌, some, [], ◌∷◌, htons, if◌then◌else◌, arith}
use cs489_router.Address.{IpAddr, MacAddr, zero_mac, ip_addr_equals, apply_mask, create_subnet_mask}
use cs489_router.Interfaces.{get_interface_for_ip, interface_get_side, interface_get_type}
use cs489_router.Outgoing.{read_ip, ip_dst}
use cs489_router.Outgoing.Send.{on_lan}
use cs489_router.Devices.Table.{known}
use cs489_router.State.{Packet, Router}
use cs489_router.Arp.{ArpHdr}
use cs489_router.Sample.{printer, laptop, idle}
use cs489_router.Timer.Queue.{waiting, timetable, IsQueue}
use cs489_router.Timer.Remove.{taken}
use cs489_router.Resolve.{send_all, arp_handle}
use cs489_router.Resolve.Delivery.{IsFor, frames_of, arp_handle-delivers}
use cs489_router.Resolve.Answer.{arp_handle-IsReleased}

abbrev printer_mac : MacAddr
printer_mac = record { m0 = 2; m1 = 0; m2 = 0; m3 = 0; m4 = 0; m5 = 7 }

abbrev answer : ArpHdr
answer = record {
  hardware_type = 256;
  protocol_type = 8;
  hardware_length = 6;
  protocol_length = 4;
  operation = 512;
  sender_mac = printer_mac;
  sender_ip = printer;
  target_mac = zero_mac;
  target_ip = laptop;
}

abbrev busy : Router
busy = record idle {
  delta_list =
      record { msec = 400; ip_addr = printer; pkt_list = (1 ∷ []) ∷ []; retry_amt = 1 }
      ∷ record { msec = 600; ip_addr = laptop; pkt_list = (2 ∷ []) ∷ []; retry_amt = 0 }
      ∷ [];
}

busy-IsQueue : IsQueue busy.delta_list
unfolding timetable ip_addr_equals
busy-IsQueue = (omega arith, (refl, tt), (omega arith, tt, tt))

arp_handle-IsReleased_example :
    (r' : Router) × (arp_handle busy answer 0 ≡ send_all (waiting busy.delta_list printer) r')
    × ((ip : IpAddr)
        → known r'.devices ip
          ≡ (if ip_addr_equals printer ip then some printer_mac else known busy.devices ip))
    × ((ip : IpAddr) → waiting r'.delta_list ip ≡ taken (waiting busy.delta_list ip) printer ip)
    × IsQueue r'.delta_list
    × (r'.sent ≡ busy.sent)
    × (r'.interfaces ≡ busy.interfaces)
    × (r'.wan ≡ busy.wan)
unfolding htons ip_addr_equals
arp_handle-IsReleased_example =
    arp_handle-IsReleased busy answer 0 refl refl refl
      (record { allocated = refl; within = omega arith }) busy-IsQueue

-- Two packets from the Internet for the printer.
abbrev to_printer : ℕ → Packet
to_printer n =
    69 ∷ 0 ∷ 0 ∷ 21 ∷ 0 ∷ n ∷ 0 ∷ 0 ∷ 64 ∷ 1 ∷ 0 ∷ 0 ∷ 8 ∷ 8 ∷ 8 ∷ 8 ∷ 192 ∷ 168 ∷ 1 ∷ 7 ∷ n ∷ []

abbrev delivering : Router
delivering = record idle {
  delta_list =
      record {
        msec = 400;
        ip_addr = printer;
        pkt_list = to_printer 1 ∷ to_printer 2 ∷ [];
        retry_amt = 1;
      }
      ∷ record { msec = 600; ip_addr = laptop; pkt_list = (2 ∷ []) ∷ []; retry_amt = 0 }
      ∷ [];
}

delivering-IsQueue : IsQueue delivering.delta_list
unfolding timetable ip_addr_equals
delivering-IsQueue = (omega arith, (refl, tt), (omega arith, tt, tt))

to_printer-IsFor : (n : ℕ) → IsFor delivering printer (to_printer n)
unfolding get_interface_for_ip apply_mask create_subnet_mask ip_addr_equals ip_dst read_ip
    interface_get_side interface_get_type
to_printer-IsFor n = record {
  out = 0;
  route = refl;
  ether = refl;
  is_ip = (omega arith, omega arith, omega arith, omega arith);
  next = on_lan refl;
}

both-IsFor : All (IsFor delivering printer) (waiting delivering.delta_list printer)
unfolding waiting ip_addr_equals
both-IsFor = (to_printer-IsFor 1, (to_printer-IsFor 2, tt))

arp_handle-delivers_example :
    (r' : Router) × (arp_handle delivering answer 0 ≡ some r')
    × (r'.sent
        ≡ delivering.sent
          ++ frames_of delivering printer printer_mac
              (waiting delivering.delta_list printer)
              both-IsFor)
    × (waiting r'.delta_list printer ≡ [])
unfolding htons ip_addr_equals
arp_handle-delivers_example =
    arp_handle-delivers delivering answer 0 refl refl refl
      (record { allocated = refl; within = omega arith }) delivering-IsQueue
      (omega arith, (omega arith, omega arith, omega arith, omega arith)) both-IsFor
