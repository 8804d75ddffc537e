-- ===== src/Netzwerk/Route.antt =====
-- netzwerk/src/route.rs and route/bindings.rs: the default route, by one message to the kernel. An
-- address is a number: the text that it is written to and read from again is left out.
use knast.Base.{ℕ, ◌+◌, Option, none, some, [], ◌∷◌}
use knast.Base.Exec.{Exec, ◌>>◌}
use knast.Host.{Host}
use knast.Netzwerk.RouteMessages.{RtMsg}

pub data Operation : Type 0 where
  add delete : Operation

-- RTM_ADD and RTM_DELETE
unfoldable pub operation_code : Operation → ℕ
operation_code add = 0x1
operation_code delete = 0x2

-- RTF_UP, RTF_GATEWAY, RTF_STATIC and RTF_PINNED are different bits, so that their `|` is the sum.
abbrev pub rtm_flags : ℕ
rtm_flags = 0x1 + 0x2 + 0x800 + 0x100000

-- RTA_DST, RTA_GATEWAY and RTA_NETMASK
unfoldable pub rtm_addrs : Operation → ℕ
rtm_addrs add = 0x1 + 0x2 + 0x4
rtm_addrs delete = 0x1 + 0x4

unfoldable pub message_of : Operation → Option ℕ → RtMsg
message_of operation address = record {
  header = record {
    rtm_version = 5;
    rtm_type = operation_code operation;
    rtm_flags = rtm_flags;
    rtm_addrs = rtm_addrs operation;
    rtm_seq = 1;
  };
  payload = none ∷ address ∷ none ∷ [];
}

module _ (H : Host) where
  pub rtmsg : Operation → Option ℕ → Exec H.Os (Unit {0})
  rtmsg operation address = do H.route_socket; H.route_write (message_of operation address)

  pub add_default : ℕ → Exec H.Os (Unit {0})
  add_default address = rtmsg add (some address)

  pub delete_default : Exec H.Os (Unit {0})
  delete_default = rtmsg delete none
