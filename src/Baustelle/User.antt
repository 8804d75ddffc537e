-- ===== src/Baustelle/User.antt =====
-- baustelle/src/runtime_config/user.rs and user/unix_user.rs: the user string of an image. The
-- files and the csv reader are a parameter: what reading a path gives, a row at a time.
pub mod Parsers
pub mod Resolution
use knast.Base.{
  ℕ, ◌+◌, ◌*◌, ◌-◌, Text, codes, text_eq, Option, none, some, Bool, true, false, ◌&&◌, ◌||◌, List,
  [], ◌∷◌, ◌==◌, leb, ltb, if◌then◌else◌,
}
use knast.Base.Exec.{Error, message, Result, ok, err, ok_or}
use knast.Base.Nom.{Parser}
use knast.Base.Nom.Words.{Combinators}
use knast.Base.Paths.{join}

pub record EtcPasswdEntry : Type 0 where
  pub username : Text
  pub password : Text
  pub uid : ℕ
  pub gid : ℕ

pub record EtcGroupEntry : Type 0 where
  pub groupname : Text
  pub password : Text
  pub gid : ℕ
  pub users : List Text

-- `EtcConf::new` fails if the file cannot be opened; a row that does not parse is an error.
pub record Files : Type 0 where
  pub passwd : Text → Result (List (Result EtcPasswdEntry))
  pub group : Text → Result (List (Result EtcGroupEntry))

-- `u32::from_str` on letters and digits: decimal, refused if a letter is met or it is too large.
digits_value : ℕ → Text → Option ℕ
digits_value acc [] = some acc
digits_value acc (c ∷ s) =
    let rest = digits_value (acc * 10 + (c - b'0')) s in
    if leb b'0' c && leb c b'9'
    then (if ltb (acc * 10 + (c - b'0')) 4294967296 then rest else none)
    else none

unfoldable pub parse_u32 : Text → Option ℕ
unfolding digits_value
parse_u32 [] = none
parse_u32 (c ∷ s) = digits_value 0 (c ∷ s)

module _ (n : Combinators) where
  -- `identifier` at `u32` and at `String`
  unfoldable pub number : Parser ℕ
  number = n.map_res n.alphanumeric1 parse_u32

  unfoldable pub name : Parser Text
  name = n.map_res n.alphanumeric1 some

  -- `pair`, with the two instances of `identifier` written out
  pub pair : {A B : Type 0} → Parser A → Parser B → Parser (A × B)
  pair p q = n.separated_pair p (n.tag (codes ":")) q

-- `find_entry`: the first row that parses and fits.
unfoldable pub find_row : {A : Type 0} → (A → Bool) → List (Result A) → Option A
find_row p [] = none
find_row p (err e ∷ rows) = find_row p rows
find_row p (ok row ∷ rows) = if p row then some row else find_row p rows

find_entry : {A : Type 0} → Result (List (Result A)) → (A → Bool) → Option A
unfolding find_row
find_entry (err e) p = none
find_entry (ok rows) p = find_row p rows

-- `Ok((uid, find_group_by_name(rootfs)(group)?.gid))`, and so for the others.
pub with_group : ℕ → Option EtcGroupEntry → Option (ℕ × ℕ)
with_group uid none = none
with_group uid (some group) = some (uid, group.gid)

pub with_gid : ℕ → Option EtcPasswdEntry → Option (ℕ × ℕ)
with_gid gid none = none
with_gid gid (some user) = some (user.uid, gid)

pub user_with_group : Option EtcPasswdEntry → Option EtcGroupEntry → Option (ℕ × ℕ)
unfolding with_group
user_with_group none group = none
user_with_group (some user) group = with_group user.uid group

pub own_ids : Option EtcPasswdEntry → Option (ℕ × ℕ)
own_ids none = none
own_ids (some user) = some (user.uid, user.gid)

pub finish : Option ((ℕ × ℕ) × Text) → Result (ℕ × ℕ)
finish none = err (message (codes "Failed to parse user config string"))
finish (some (ids, rest)) = ok ids

module _ (files : Files) (rootfs : Text) where
  unfoldable pub find_group_by_name : Text → Option EtcGroupEntry
  unfolding find_entry
  find_group_by_name groupname =
      find_entry (files.group (join rootfs (codes "etc/group"))) λ g. text_eq g.groupname groupname

  pub find_user_by_name : Text → Option EtcPasswdEntry
  unfolding find_entry
  find_user_by_name username =
      find_entry (files.passwd (join rootfs (codes "etc/passwd"))) λ u. text_eq u.username username

  pub find_user_by_uid : ℕ → Option EtcPasswdEntry
  unfolding find_entry
  find_user_by_uid uid =
      find_entry (files.passwd (join rootfs (codes "etc/passwd"))) λ u. u.uid == uid

  module _ (n : Combinators) where
    pub uid_gid : Parser (ℕ × ℕ)
    uid_gid = pair n (number n) (number n)

    pub uid_group : Parser (ℕ × ℕ)
    uid_group =
        n.map_res (pair n (number n) (name n))
          (λ (uid, group). with_group uid (find_group_by_name group))

    pub user_group : Parser (ℕ × ℕ)
    user_group = n.map_res (pair n (name n) (name n)) (λ (username, group).
        user_with_group (find_user_by_name username) (find_group_by_name group))

    pub user_gid : Parser (ℕ × ℕ)
    user_gid =
        n.map_res (pair n (name n) (number n))
          (λ (username, gid). with_gid gid (find_user_by_name username))

    pub username : Parser (ℕ × ℕ)
    username = n.map_res (name n) (λ username. own_ids (find_user_by_name username))

    pub uid : Parser (ℕ × ℕ)
    uid = n.map_res (number n) (λ uid. own_ids (find_user_by_uid uid))

    -- `alt((uid_gid, uid_group, user_group, user_gid, username, uid))`
    pub parse : Text → Result (ℕ × ℕ)
    unfolding finish
    parse user =
        finish (n.alt (uid_gid ∷ uid_group ∷ user_group ∷ user_gid ∷ username ∷ uid ∷ []) user)
