-- ===== src/Tests/Texts.antt =====
-- Paths, options, user strings and configurations, on concrete texts.
use knast.Base.{codes, text_eq, none, some, false, [], ◌∷◌, ◌++◌, filter, contains, ◌≡◌, refl, ◌⊎◌}
use knast.Base.Exec.{ok}
use knast.Base.Paths.{components}
use knast.Registratur.Domain.{Config}
use knast.Base.Nom.Words.{is_alphanumeric, IsWord}
use knast.Tests.Words.{combinators, combinators_laws}
use knast.Baustelle.User.{Files, find_group_by_name, parse, parse_u32}
use knast.Baustelle.User.Resolution.{answer, pair_ids, parse_pair, parse_cut}
use knast.Baustelle.RuntimeConfig.{
  RuntimeConfig, runtime_config_of, process_of, user_of, generate_mounts, generate_annotations,
  linux_mounts, freebsd_mounts,
}
use knast.Baustelle.RuntimeConfig.Conversion.{OptionalRuns, runtime_config_of_lem}
use knast.Libknast.Filesystem.{prefixed_destination}
use knast.Libknast.Filesystem.Destination.{prefixed_destination_inside, is_normal}

-- A rootfs with one user and no groups.
abbrev pub files : Files
files = record {
  passwd = λ _.
      ok (ok (record { username = codes "www"; password = codes "*"; uid = 80; gid = 80 }) ∷ []);
  group = λ _. ok [];
}

www-IsWord : IsWord (codes "www")
unfolding is_alphanumeric
www-IsWord = (refl, (refl, (refl, tt)))

staff-IsWord : IsWord (codes "staff")
unfolding is_alphanumeric
staff-IsWord = (refl, (refl, (refl, (refl, (refl, tt)))))

dash_stops : is_alphanumeric b'-' ≡ false
unfolding is_alphanumeric
dash_stops = refl

no_number : parse_u32 (codes "staff") ≡ none
unfolding parse_u32
no_number = refl

no_group : find_group_by_name files (codes "/r") (codes "staff") ≡ none
unfolding find_group_by_name
no_group = refl

parse_pair_example :
    parse files (codes "/r") combinators (codes "www" ++ b':' ∷ (codes "staff" ++ []))
    ≡ answer (pair_ids files (codes "/r") (codes "www") (codes "staff"))
parse_pair_example =
    parse_pair files (codes "/r") combinators combinators_laws (codes "www") (codes "staff") []
      www-IsWord staff-IsWord tt

parse_cut_example :
    parse files (codes "/r") combinators (codes "www" ++ b'-' ∷ codes "data")
    ≡ parse files (codes "/r") combinators (codes "www")
parse_cut_example =
    parse_cut files (codes "/r") combinators combinators_laws (codes "www") (codes "data") b'-'
      www-IsWord dash_stops refl

no_equals_key : contains b'=' (codes "opt") ≡ false
unfolding contains
no_equals_key = refl

no_equals_value : contains b'=' (codes "a") ≡ false
unfolding contains
no_equals_value = refl

prefixed_destination_example :
    components (prefixed_destination (codes "/rootfs") (codes "/../../etc/./passwd"))
    ≡ components (codes "/rootfs") ++ filter is_normal (components (codes "/../../etc/./passwd"))
prefixed_destination_example =
    prefixed_destination_inside (codes "/rootfs") (codes "/../../etc/./passwd")

-- An image of FreeBSD that runs a shell.
abbrev image : Config
image = record {
  created = none;
  author = none;
  architecture = codes "amd64";
  os = codes "freebsd";
  config = some (record {
    user = none;
    exposed_ports = none;
    env = none;
    entrypoint = none;
    cmd = some (codes "/bin/sh" ∷ []);
    volumes = none;
    working_dir = codes "/";
    labels = none;
    stop_signal = none;
  });
  rootfs = record { kind = codes "layers"; diff_ids = [] };
  history = [];
}

abbrev converted : RuntimeConfig
converted = record {
  oci_version = codes "1.0";
  root = some (record { path = codes "/r"; readonly = some false });
  mounts = some freebsd_mounts;
  process = some (record {
    terminal = none;
    console_size = none;
    cwd = codes "/";
    env = none;
    args = some (codes "/bin/sh" ∷ []);
    rlimits = none;
    user = record { uid = 0; gid = 0; umask = none; additional_gids = none };
    hostname = none;
  });
  hooks = none;
  annotations = some generate_annotations;
}

converts : runtime_config_of files (codes "/r") combinators image ≡ ok converted
unfolding runtime_config_of process_of user_of generate_mounts text_eq
converts = refl

runtime_config_example :
    (converted.root ≡ some (record { path = codes "/r"; readonly = some false }))
    × (((image.os ≡ codes "linux") × (converted.mounts ≡ some linux_mounts))
        ⊎ ((image.os ≡ codes "freebsd") × (converted.mounts ≡ some freebsd_mounts)))
    × OptionalRuns files (codes "/r") combinators image.config converted.process
runtime_config_example =
    runtime_config_of_lem files (codes "/r") combinators image converted converts
