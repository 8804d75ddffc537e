-- ===== src/Libknast/Filesystem/Options.antt =====
-- libknast/src/filesystem/mount.rs: how the options of a mount become iovecs.
use mathlib.Core.List.{flat_map}
use knast.Base.{
  ◌+◌, ◌*◌, Text, false, List, [], ◌∷◌, ◌++◌, ◌≡◌, refl, contains, length, length-append, arith,
}
use knast.Base.Paths.Split.{split-cons, split_one}
use knast.Libknast.Filesystem.{nul, option_iovecs, parameters, iovecs}

-- The source writes `key` and `value` of an option without a further `=` as two C strings.
option_iovecs_pair :
    (key value : Text)
    → contains b'=' key ≡ false
    → contains b'=' value ≡ false
    → option_iovecs (key ++ b'=' ∷ value) ≡ (key ++ nul ∷ []) ∷ (value ++ nul ∷ []) ∷ []
unfolding option_iovecs
option_iovecs_pair key value h g =
    rw (split-cons b'=' key value h, split_one b'=' value g, option_iovecs) refl

option_iovecs_flag :
    (key : Text) → contains b'=' key ≡ false → option_iovecs key ≡ (key ++ nul ∷ []) ∷ [] ∷ []
unfolding option_iovecs
option_iovecs_flag key h = rw (split_one b'=' key h, option_iovecs) refl

-- The value of a mount option is cut at the second equals sign of the option.
pub option_iovecs_cut :
    (key value rest : Text)
    → contains b'=' key ≡ false
    → contains b'=' value ≡ false
    → option_iovecs (key ++ b'=' ∷ (value ++ b'=' ∷ rest))
      ≡ (key ++ nul ∷ []) ∷ (value ++ nul ∷ []) ∷ []
unfolding option_iovecs
option_iovecs_cut key value rest h g =
    rw (split-cons b'=' key (value ++ b'=' ∷ rest) h, split-cons b'=' value rest g, option_iovecs)
      refl

length-option_iovecs : (option : Text) → length (option_iovecs option) ≡ 2
unfolding option_iovecs
length-option_iovecs option = ground arith

length-options :
    (options : List Text) → length (flat_map option_iovecs options) ≡ 2 * length options
unfolding flat_map
length-options [] = omega arith
length-options (o ∷ os) = omega (
  arith,
  length-append (option_iovecs o) (flat_map option_iovecs os),
  length-option_iovecs o,
  length-options os,
)

length-parameters :
    (kind source destination : Text) → length (parameters kind source destination) ≡ 8
unfolding parameters
length-parameters kind source destination = refl

-- nmount receives two iovecs for every option and eight for the type, the path, the source and
-- the message.
length-iovecs :
    (kind source destination : Text) (options : List Text)
    → length (iovecs kind source destination options) ≡ 2 * length options + 8
unfolding iovecs
length-iovecs kind source destination options = omega (
  arith,
  length-append (flat_map option_iovecs options) (parameters kind source destination),
  length-options options,
  length-parameters kind source destination,
)
