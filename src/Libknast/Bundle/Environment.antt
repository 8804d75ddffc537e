-- ===== src/Libknast/Bundle/Environment.antt =====
-- libknast/src/operations.rs, `do_exec`: the environment of a process, and which variables it loses.
use knast.Base.{
  Text, text_eq, text_eq_iff, if◌then◌else◌, Option, none, some, false, List, [], ◌∷◌, ◌++◌, map,
  ◌≡◌, refl, contains, arith, All,
}
use knast.Base.Paths.Split.{split-cons, split_one}
use knast.Baustelle.RuntimeConfig.{Process}
use knast.Host.{Command}
use knast.Libknast.Bundle.{env_pair, env_pairs, envs, set_env, set_envs, prepared}

-- A variable as a configuration writes it.
abbrev pub line : Text × Text → Text
line (name, value) = name ++ b'=' ∷ value

abbrev pub NoEquals : Text × Text → Type 0
NoEquals (name, value) = (contains b'=' name ≡ false) × (contains b'=' value ≡ false)

env_pair-line : (pair : Text × Text) → NoEquals pair → env_pair (line pair) ≡ some pair
unfolding env_pair
env_pair-line (name, value) (h, g) =
    rw (split-cons b'=' name value h, split_one b'=' value g, env_pair) refl

env_pairs-lines :
    (pairs : List (Text × Text)) → All NoEquals pairs → env_pairs (map line pairs) ≡ some pairs
unfolding env_pairs
env_pairs-lines [] h = refl
env_pairs-lines (p ∷ pairs) h = rw (env_pairs, env_pair-line p h.0, env_pairs-lines pairs h.1) refl

envs-lines :
    (pairs : List (Text × Text)) → All NoEquals pairs → envs (some (map line pairs)) ≡ pairs
unfolding envs
envs-lines pairs h = rw (env_pairs-lines pairs h) refl

-- What a process reads of a variable.
unfoldable pub env_value : Text → List (Text × Text) → Option Text
env_value name [] = none
env_value name ((n, v) ∷ env) =
    let rest = env_value name env in if text_eq name n then some v else rest

-- The first option if it holds something, else the second.
unfoldable pub or_value : Option Text → Option Text → Option Text
or_value (some v) o = some v
or_value none o = o

-- The value of the last pair with a name.
unfoldable pub last_value : Text → List (Text × Text) → Option Text
last_value name [] = none
last_value name ((n, v) ∷ pairs) =
    or_value (last_value name pairs) (if text_eq name n then some v else none)

env_value-set_env :
    (name n v : Text) (env : List (Text × Text))
    → env_value name (set_env (n, v) env) ≡ (if text_eq name n then some v else env_value name env)
unfolding set_env env_value
env_value-set_env name n v [] = refl
env_value-set_env name n v ((m, w) ∷ env) =
    ground (
      arith,
      text_eq_iff n m,
      text_eq_iff name n,
      text_eq_iff name m,
      env_value-set_env name n v env,
    )

env_value-set_envs :
    (name : Text) (pairs env : List (Text × Text))
    → env_value name (set_envs pairs env) ≡ or_value (last_value name pairs) (env_value name env)
unfolding set_envs last_value or_value
env_value-set_envs name [] env = refl
env_value-set_envs name ((n, v) ∷ pairs) env =
    ground
      (arith, env_value-set_envs name pairs (set_env (n, v) env), env_value-set_env name n v env)

or_value-none : (o : Option Text) → or_value o none ≡ o
unfolding or_value
or_value-none none = refl
or_value-none (some v) = refl

-- Where a process has variables whose names and values have no equals sign, a name has in the
-- environment of its command the value of the last variable with this name, and none if there is
-- no such variable.
pub env_value_last :
    (rootfs : Text) (process : Process) (args : List Text) (command : Command)
    (pairs : List (Text × Text)) (name : Text)
    → All NoEquals pairs
    → process.env ≡ some (map line pairs)
    → env_value name (prepared rootfs process args command).envs ≡ last_value name pairs
unfolding prepared env_value
env_value_last rootfs process args command pairs name h p =
    rw (p, envs-lines pairs h, env_value-set_envs name pairs [], env_value) (or_value-none _)

-- The value of an environment variable is cut at its first equals sign.
pub env_cut :
    (name value rest : Text)
    → contains b'=' name ≡ false
    → contains b'=' value ≡ false
    → envs (some ((name ++ b'=' ∷ (value ++ b'=' ∷ rest)) ∷ [])) ≡ (name, value) ∷ []
unfolding envs env_pairs env_pair
env_cut name value rest h g =
    rw
      (
        envs,
        env_pairs,
        env_pair,
        split-cons b'=' name (value ++ b'=' ∷ rest) h,
        split-cons b'=' value rest g,
      )
      refl

env_pairs-none :
    (before : List Text) (x : Text) (behind : List Text)
    → contains b'=' x ≡ false
    → env_pairs (before ++ x ∷ behind) ≡ none
unfolding env_pairs env_pair
env_pairs-none [] x behind h = rw (env_pairs, env_pair, split_one b'=' x h) refl
env_pairs-none (y ∷ before) x behind h = ground (arith, env_pairs-none before x behind h)

-- One variable without an equals sign, anywhere, empties the whole environment.
pub envs_dropped :
    (before : List Text) (x : Text) (behind : List Text)
    → contains b'=' x ≡ false
    → envs (some (before ++ x ∷ behind)) ≡ []
unfolding envs
envs_dropped before x behind h = rw (env_pairs-none before x behind h) refl
