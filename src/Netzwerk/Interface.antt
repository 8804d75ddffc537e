-- ===== src/Netzwerk/Interface.antt =====
-- netzwerk/src/interface.rs and interface/operations.rs. A request keeps the name of its
-- interface in a buffer of 16 bytes.
pub mod Name
use knast.Base.{
  ℕ, zero, suc, Text, codes, Option, none, some, Bool, true, false, List, [], ◌∷◌, ◌++◌,
  if◌then◌else◌, ltb, leb, ◌==◌, length,
}
use knast.Base.Exec.{
  Exec, Error, panic, Result, ok, err, pure, lift, raise, match_result, ◌>>=◌, ◌>>◌,
}
use knast.Base.Int.{ℤ}
use knast.Host.{Host}

pub record Interface : Type 0 where
  pub ifr_name : Text

abbrev pub ifnamsiz : ℕ
ifnamsiz = 16

-- `buffer[0..bytes.len()].copy_from_slice(bytes)`, which panics behind the end of the buffer.
unfoldable pub copy : Text → Text → Option Text
copy buffer [] = some buffer
copy [] (b ∷ bytes) = none
copy (x ∷ buffer) (b ∷ bytes) = elim (copy buffer bytes) [
  | none ↦ none
  | some rest ↦ some (b ∷ rest)
]

unfoldable pub zeroed : ℕ → Text
zeroed zero = []
zeroed (suc n) = 0 ∷ zeroed n

-- The text up to the first zero byte; `CStr::from_ptr` on a buffer without one reads behind it.
unfoldable pub c_string : Text → Option Text
c_string [] = none
c_string (c ∷ s) =
    if c == 0 then some [] else (elim (c_string s) [ none ↦ none | some t ↦ some (c ∷ t) ])

unfoldable pub of_copy : Option Text → Result Text
of_copy none = err panic
of_copy (some buffer) = ok buffer

module _ (H : Host) where
  open H use {Os}

  pub new : Text → Exec Os Interface
  unfolding of_copy
  new iface = do
    H.socket
    name ← lift (of_copy (copy (zeroed ifnamsiz) iface))
    pure (record { ifr_name = name })

  pub create : Interface → Exec Os Interface
  create i = do name ← H.if_create i.ifr_name; pure (record { ifr_name = name })

  -- The new name is copied with its zero byte over the old one.
  pub name : Interface → Text → Exec Os Interface
  unfolding of_copy
  name i new_name = do
    H.if_rename i.ifr_name (new_name ++ 0 ∷ [])
    buffer ← lift (of_copy (copy i.ifr_name (new_name ++ 0 ∷ [])))
    pure (record { ifr_name = buffer })

  pub get_name : Interface → Exec Os Text
  get_name i = elim (c_string i.ifr_name) [ none ↦ raise panic | some name ↦ pure name ]

  pub address : Interface → ℕ → ℕ → ℕ → Exec Os Interface
  address i addr broadcast mask = do H.if_address i.ifr_name addr broadcast mask; pure i

  -- `check_interface_existence`: any error of the request is a no.
  check_interface_existence : Text → Exec Os Bool
  check_interface_existence name =
      match_result (H.if_capabilities name) (λ _. pure true) (λ _. pure false)

  pub exists : Interface → Exec Os Bool
  unfolding check_interface_existence
  exists i = check_interface_existence i.ifr_name

  pub vnet : Interface → ℤ → Exec Os (Unit {0})
  vnet i jid = H.if_vnet i.ifr_name jid

  -- The request of one member, whose name is copied.
  bridge_member : ℕ → Interface → Text → Exec Os (Unit {0})
  unfolding of_copy
  bridge_member command i member = do
    ifbr_ifsname ← lift (of_copy (copy (zeroed ifnamsiz) member))
    H.bridge_request i.ifr_name command ifbr_ifsname

  bridge_members : ℕ → Interface → List Text → Exec Os (Unit {0})
  unfolding bridge_member
  bridge_members command i [] = pure tt
  bridge_members command i (member ∷ members) = do
    bridge_member command i member
    bridge_members command i members

  -- The requests go out in turn, and the first that fails ends them.
  pub bridge_addm : Interface → List Text → Exec Os (Unit {0})
  unfolding bridge_members
  bridge_addm i members = bridge_members 0x0 i members

  pub bridge_delm : Interface → List Text → Exec Os (Unit {0})
  unfolding bridge_members
  bridge_delm i members = bridge_members 0x1 i members

  pub destroy : Interface → Exec Os (Unit {0})
  destroy i = H.if_destroy i.ifr_name
