-- ===== src/Tests/Builds.antt =====
-- A build with the registry of the tests, and an archive that writes nothing.
use knast.Base.{ℕ, Text, codes, none, some, List, [], ◌∷◌, ◌++◌, Option, ◌≡◌, refl, true}
use knast.Base.Exec.{ok, message, Triple}
use knast.Base.Int.{pos}
use knast.Storage.Sqlite.{engine}
use knast.Storage.Sqlite.Contract.{contract}
use knast.Baustelle.RuntimeConfig.{RuntimeConfig}
use knast.Baustelle.Archive.{Libarchive}
use knast.Baustelle.Containerfile.{
  EvaluationUpdate, Instruction, from_image, other, System, flat_stages, build, tag_of,
}
use knast.Baustelle.Containerfile.Bundles.{ShowsCache, Built}
use knast.Baustelle.Containerfile.Builds.{build_Triple}
use knast.Tests.World.{call}
use knast.Tests.Registry.{nom, registry}
use knast.Tests.Words.{combinators}
use knast.Tests.Texts.{files}
use knast.Tests.Codecs.{
  text_codec, text_laws, manifest_codec, manifest_laws, config_codec, config_laws,
}
use knast.Tests.Images.{linux}

-- The state is the configuration that was written last, with its path.
abbrev Disk : Type 0
Disk = Option (Text × RuntimeConfig)

abbrev quiet : Libarchive
quiet = record {
  Files = Disk;
  Entry = Text;
  pathname = λ entry. entry;
  with_pathname = λ _ name. name;
  headers = λ _. [];
  read_new = call (λ s. s) true;
  read_open = λ _. call (λ s. s) (pos 0);
  write_new = call (λ s. s) true;
  set_standard_lookup = call (λ s. s) (pos 0);
  write_header = λ _. call (λ s. s) (pos 0);
  write_data_block = λ _ _. call (λ s. s) (pos 0);
  error_string = call (λ s. s) (message []);
  close = call (λ s. s) tt;
  remove_dir_all = λ _. call (λ s. s) tt;
  remove_file = λ _. call (λ s. s) tt;
}

abbrev instructions : List Instruction
instructions = from_image (codes "nginx") none ∷ other (codes "RUN true") ∷ []

abbrev system : System Disk
system = record {
  from_reader = λ _. ok (instructions ∷ []);
  client_build = ok tt;
  new_v4 = call (λ s. s) (codes "1f2e");
  create_dir_all = λ _. call (λ s. s) tt;
  create = λ _. call (λ s. s) tt;
  to_writer = λ path r. call (λ _. some (path, r)) tt;
  etc = λ _. files;
}

abbrev Written : Text → RuntimeConfig → Disk → Type 0
Written path r s = s ≡ some (path, r)

writes :
    (path : Text) (r : RuntimeConfig)
    → Triple (λ _. Unit) (system.to_writer path r) (λ _. Written path r) (λ _ _. Unit)
writes path r = record { at = λ s _. refl }

abbrev silent : EvaluationUpdate → ℕ → ℕ
silent update n = n

flat :
    flat_stages (instructions ∷ [])
    ≡ [] ++ from_image (codes "nginx") none ∷ (other (codes "RUN true") ∷ [])
unfolding flat_stages
flat = refl

build_example :
    Triple
      (ShowsCache engine contract registry quiet system text_codec text_laws text_codec text_laws
        manifest_codec manifest_laws config_codec config_laws nom combinators
        (codes "https://registry")
        (codes "amd64")
        linux
        silent
        Written
        writes)
      (build engine registry quiet system text_codec text_codec manifest_codec config_codec nom
        combinators
        (codes "https://registry")
        (codes "amd64")
        linux
        silent
        (codes "/db")
        (λ _. 0 ∷ 0 ∷ [])
        (codes "FROM nginx"))
      (λ folder.
        Built engine contract registry quiet system text_codec text_laws text_codec text_laws
          manifest_codec manifest_laws config_codec config_laws nom combinators
          (codes "https://registry")
          (codes "amd64")
          linux
          silent
          Written
          writes
          folder
          (codes "nginx")
          (tag_of none))
      (λ _.
        ShowsCache engine contract registry quiet system text_codec text_laws text_codec text_laws
          manifest_codec manifest_laws config_codec config_laws nom combinators
          (codes "https://registry")
          (codes "amd64")
          linux
          silent
          Written
          writes)
build_example =
    build_Triple engine contract registry quiet system text_codec text_laws text_codec text_laws
      manifest_codec manifest_laws config_codec config_laws nom combinators
      (codes "https://registry") (codes "amd64") linux silent Written writes (codes "/db")
      (λ _. 0 ∷ 0 ∷ []) (codes "FROM nginx") (instructions ∷ []) [] (codes "nginx") none
      (other (codes "RUN true") ∷ []) refl flat tt tt
