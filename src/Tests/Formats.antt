-- ===== src/Tests/Formats.antt =====
-- Formats of the stored types that return what they were given.
use knast.Base.{
  ℕ, zero, suc, Text, codes, Option, none, some, Bool, List, [], ◌∷◌, ◌≡◌, refl, arith, ap, sym,
  subst,
}
use knast.Base.Exec.{Error, message, Result, ok, err, ok-injective}
use knast.Base.Int.{ℤ, pos, negsuc}
use knast.Storage.{Codec}
use knast.Storage.Typed.{CodecLaws}
use knast.Baustelle.RuntimeConfig.{RuntimeConfig, Root, Mount, Process, Hooks}
use knast.Libknast.AddressPool.{ContainerAddressStorage}
use knast.Base.Heap.{Heap}
use knast.Libknast.Processes.{ProcessStatus, created, starting, running, stopped, OciStatus}
use knast.Tests.World.{rooted}

abbrev refused : Error
refused = message (codes "not in this format")

-- A heap is stored as it is.
abbrev pub heap_codec : Codec Heap
heap_codec = record { serialize = λ heap. ok heap; deserialize = λ bytes. ok bytes }

pub heap_laws : CodecLaws heap_codec
heap_laws = record { deserialize-serialize = λ a bytes p. ap ok (sym (ok-injective a bytes p)) }

-- A format for the empty cache only.
abbrev encode_cache : ContainerAddressStorage → Result Text
encode_cache [] = ok []
encode_cache (a ∷ cache) = err refused

abbrev pub cache_codec : Codec ContainerAddressStorage
cache_codec = record { serialize = encode_cache; deserialize = λ _. ok [] }

encode_cache_lem :
    (a : ContainerAddressStorage) (bytes : Text) → encode_cache a ≡ ok bytes → Result.ok [] ≡ ok a
encode_cache_lem [] bytes p = refl
encode_cache_lem (a ∷ cache) bytes p = absurd (ground arith)

pub cache_laws : CodecLaws cache_codec
cache_laws = record { deserialize-serialize = encode_cache_lem }

-- A format for configurations that have a writable root and nothing else.
abbrev encode_config :
    Text
    → Option Root
    → Option (List Mount)
    → Option Process
    → Option Hooks
    → Option (List (Text × Text))
    → Result Text
encode_config [] (some root) none none none none = elim root.readonly [
  | none ↦ ok root.path
  | some _ ↦ err refused
]
encode_config _ _ _ _ _ _ = err refused

abbrev pub config_codec : Codec RuntimeConfig
config_codec = record {
  serialize = λ c. encode_config c.oci_version c.root c.mounts c.process c.hooks c.annotations;
  deserialize = λ bytes. ok (rooted bytes);
}

rooted_lem :
    (o : Option Bool) (path bytes : Text)
    → Path (Result Text) (elim o [ none ↦ ok path | some _ ↦ err refused ]) (ok bytes)
    → Result.ok (rooted bytes)
      ≡ ok (record {
        oci_version = [];
        root = some (record { path = path; readonly = o });
        mounts = none;
        process = none;
        hooks = none;
        annotations = none;
      })
rooted_lem none path bytes e = ap (λ p. Result.ok (rooted p)) (sym (ok-injective _ _ e))
rooted_lem (some b) path bytes e = absurd (ground arith)

encode_config_lem :
    (v : Text) (root : Option Root) (m : Option (List Mount)) (p : Option Process)
    (h : Option Hooks) (a : Option (List (Text × Text))) (bytes : Text)
    → encode_config v root m p h a ≡ ok bytes
    → Result.ok (rooted bytes)
      ≡ ok (record {
        oci_version = v;
        root = root;
        mounts = m;
        process = p;
        hooks = h;
        annotations = a;
      })
encode_config_lem (x ∷ v) root m p h a bytes e = absurd (ground arith)
encode_config_lem [] none m p h a bytes e = absurd (ground arith)
encode_config_lem [] (some r) (some m) p h a bytes e = absurd (ground arith)
encode_config_lem [] (some r) none (some p) h a bytes e = absurd (ground arith)
encode_config_lem [] (some r) none none (some h) a bytes e = absurd (ground arith)
encode_config_lem [] (some r) none none none (some a) bytes e = absurd (ground arith)
encode_config_lem [] (some r) none none none none bytes e = rooted_lem r.readonly r.path bytes e

pub config_laws : CodecLaws config_codec
config_laws = record {
  deserialize-serialize = λ c bytes e.
      encode_config_lem c.oci_version c.root c.mounts c.process c.hooks c.annotations bytes e;
}

-- The fields of a record in turn, numbers with their signs.
abbrev pub sign : ℤ → ℕ
sign (pos n) = 0
sign (negsuc n) = 1

abbrev pub size : ℤ → ℕ
size (pos n) = n
size (negsuc n) = n

abbrev signed : ℕ → ℕ → ℤ
signed zero n = pos n
signed (suc s) n = negsuc n

abbrev pub status_code : ProcessStatus → ℕ
status_code created = 0
status_code starting = 1
status_code running = 2
status_code stopped = 3

abbrev status_of : ℕ → ProcessStatus
status_of zero = created
status_of (suc zero) = starting
status_of (suc (suc zero)) = running
status_of (suc (suc (suc n))) = stopped

abbrev pub encode_status : OciStatus → Text
encode_status p =
    status_code p.status
    ∷ sign p.pid
    ∷ size p.pid
    ∷ sign p.jid
    ∷ size p.jid
    ∷ p.exited_at
    ∷ (elim p.exit_status [
      | none ↦ 0 ∷ p.oci_version
      | some e ↦ 1 ∷ sign e ∷ size e ∷ p.oci_version
    ])

abbrev decode_exit : Text → Option ℤ × Text
decode_exit [] = (none, [])
decode_exit (zero ∷ v) = (none, v)
decode_exit (suc n ∷ []) = (none, [])
decode_exit (suc n ∷ s ∷ []) = (none, [])
decode_exit (suc n ∷ s ∷ x ∷ v) = (some (signed s x), v)

abbrev decode_status : Text → Result OciStatus
decode_status (s ∷ sp ∷ p ∷ sj ∷ j ∷ t ∷ rest) = ok (record {
  oci_version = (decode_exit rest).1;
  status = status_of s;
  pid = signed sp p;
  jid = signed sj j;
  exit_status = (decode_exit rest).0;
  exited_at = t;
})
decode_status _ = err refused

abbrev pub status_codec : Codec OciStatus
status_codec = record { serialize = λ p. ok (encode_status p); deserialize = decode_status }

signed_lem : (i : ℤ) → signed (sign i) (size i) ≡ i
signed_lem (pos n) = refl
signed_lem (negsuc n) = refl

status_lem : (s : ProcessStatus) → status_of (status_code s) ≡ s
status_lem created = refl
status_lem starting = refl
status_lem running = refl
status_lem stopped = refl

exit_lem :
    (o : Option ℤ) (v : Text)
    → decode_exit (elim o [ none ↦ 0 ∷ v | some e ↦ 1 ∷ sign e ∷ size e ∷ v ]) ≡ (o, v)
exit_lem none v = refl
exit_lem (some e) v = ap (λ i. (some i, v)) (signed_lem e)

decode-encode : (p : OciStatus) → decode_status (encode_status p) ≡ ok p
decode-encode p =
    rw
      (
        exit_lem p.exit_status p.oci_version,
        status_lem p.status,
        signed_lem p.pid,
        signed_lem p.jid,
      )
      refl

pub status_laws : CodecLaws status_codec
status_laws = record {
  deserialize-serialize =
      λ p bytes e. subst (λ b. decode_status b ≡ ok p) (ok-injective _ bytes e) (decode-encode p);
}
