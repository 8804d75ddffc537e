-- ===== src/Netzwerk/RouteMessages.antt =====
-- netzwerk/src/route/bindings.rs: the message to the routing socket, with the fields that are set;
-- the others are zero, but for its length.
use knast.Base.{ℕ, Option, List}

pub record RtMsghdr : Type 0 where
  pub rtm_version : ℕ
  pub rtm_type : ℕ
  pub rtm_flags : ℕ
  pub rtm_addrs : ℕ
  pub rtm_seq : ℕ

-- An address of the payload is a sockaddr_in, of 0.0.0.0 where there is none.
pub record RtMsg : Type 0 where
  pub header : RtMsghdr
  pub payload : List (Option ℕ)
