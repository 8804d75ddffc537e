-- ===== src/Tests/Bundle.antt =====
-- What the operations read in a bundle, and the keys of records, on concrete inputs.
use knast.Base.{
  Text, text_eq, codes, none, some, false, List, [], ◌∷◌, map, ◌≡◌, refl, contains, All, ◌∙◌,
}
use knast.Base.Paths.{slash}
use mathlib.Core.List.{Perm}
use knast.Baustelle.RuntimeConfig.{Mount, Process}
use knast.Libknast.Bundle.{bare, envs, prepared, sort_mounts}
use knast.Libknast.Bundle.Environment.{
  line, NoEquals, env_value, env_value_last, last_value, or_value, envs_dropped,
}
use knast.Libknast.Bundle.Mounts.{Sorted, sort_mounts_lem, OuterFirst, sort-OuterFirst}
use knast.Libknast.Processes.Ids.{process_id-injective}

abbrev web : Text
web = codes "web"

no_slash : contains slash web ≡ false
unfolding contains
no_slash = refl

no_equals : contains b'=' (codes "OPTS") ≡ false
unfolding contains
no_equals = refl

no_equals_a : contains b'=' (codes "a") ≡ false
unfolding contains
no_equals_a = refl

no_equals_debug : contains b'=' (codes "DEBUG") ≡ false
unfolding contains
no_equals_debug = refl

-- A name that stands twice.
abbrev variables : List (Text × Text)
variables =
    (codes "TERM", codes "xterm")
    ∷ (codes "HOME", codes "/root")
    ∷ (codes "TERM", codes "vt100")
    ∷ []

variables_plain : All NoEquals variables
unfolding contains
variables_plain = ((refl, refl), ((refl, refl), ((refl, refl), tt)))

abbrev shell : Process
shell = record {
  terminal = none;
  console_size = none;
  cwd = codes "/";
  env = some (map line variables);
  args = some (codes "/bin/sh" ∷ []);
  rlimits = none;
  user = record { uid = 0; gid = 0; umask = none; additional_gids = none };
  hostname = none;
}

env_value_example :
    env_value (codes "TERM") (prepared (codes "/jail") shell [] (bare (codes "/bin/sh"))).envs
    ≡ some (codes "vt100")
unfolding last_value or_value text_eq
env_value_example =
    env_value_last (codes "/jail") shell [] (bare (codes "/bin/sh")) variables (codes "TERM")
      variables_plain refl
    ∙ refl

process_id_example : (web ≡ web) × (codes "1" ≡ codes "1")
process_id_example = process_id-injective web web (codes "1") (codes "1") no_slash no_slash refl

envs_dropped_example :
    envs (some (codes "TERM=xterm" ∷ codes "DEBUG" ∷ codes "HOME=/root" ∷ [])) ≡ []
envs_dropped_example =
    envs_dropped (codes "TERM=xterm" ∷ []) (codes "DEBUG") (codes "HOME=/root" ∷ []) no_equals_debug

abbrev mount_at : Text → Mount
mount_at destination = record {
  destination = destination;
  source = none;
  options = none;
  kind = codes "tmpfs";
}

abbrev three_mounts : List Mount
three_mounts = mount_at (codes "/dev/fd") ∷ mount_at (codes "/proc") ∷ mount_at (codes "/dev") ∷ []

sort_mounts_example :
    Sorted (sort_mounts three_mounts) × Perm (sort_mounts three_mounts) three_mounts
sort_mounts_example = sort_mounts_lem three_mounts

OuterFirst-example : OuterFirst (sort_mounts three_mounts)
OuterFirst-example = sort-OuterFirst three_mounts
