-- ===== src/Api/Build.antt =====
-- confort.go, `Build`.
pub mod Built
use confort.Base.{
  Bool, true, false, List, [], ◌∷◌, String, ◌⊎◌, inl, inr, Option, none, some, if◌then◌else◌,
}
use confort.Beacon.Streams.Keyed.{KeyLocks}
use confort.Backend.Build.{BuildClient, build_image}
use confort.Api.Run.{under_lock}

-- `types.ImageBuildOptions`, with what is not the same for each call, without the archive.
pub record ImageBuildOptions : Type 0 where
  pub tags : List String
  pub suppress_output : Bool
  pub dockerfile : String
  pub platform : String

-- `BuildOption`; `with_build_output` says whether the writer is not nil.
pub data BuildOption : Type 0 where
  with_image_build_options : (ImageBuildOptions → ImageBuildOptions) → BuildOption
  with_force_build : BuildOption
  with_build_output : Bool → BuildOption

pub record BuildChoice : Type 0 where
  pub modify_build_options : ImageBuildOptions → ImageBuildOptions
  pub force : Bool
  pub discards : Bool

unfoldable pub choose_build : List BuildOption → BuildChoice → BuildChoice
choose_build [] c = c
choose_build (with_image_build_options f ∷ opts) c =
    choose_build opts (record c { modify_build_options = f })
choose_build (with_force_build ∷ opts) c = choose_build opts (record c { force = true })
choose_build (with_build_output given ∷ opts) c =
    choose_build opts (record c { discards = if given then false else c.discards })

abbrev pub default_build : BuildChoice
default_build = record { modify_build_options = λ o. o; force = false; discards = true }

-- `BuildParams`, without what only goes to Docker.
pub record BuildParams : Type 0 where
  pub image : String
  pub platform : String

pub data BuildError : Type 0 where
  no_archive : String → BuildError
  no_tag build_lock_failed : BuildError
  build_failed : String → List String → BuildError

-- The images that `ImageBuild` has been called for, and the errors.
unfoldable pub build_body :
    Bool → BuildClient → List (List String) → String → List String → List String × List String
unfolding build_image
build_body force c summaries image calls =
    let (built, errors) = build_image image force c summaries in
    (if built then image ∷ calls else calls, errors)

unfoldable pub build_result : Option (List String) → Option BuildError
build_result none = some build_lock_failed
build_result (some []) = none
build_result (some (e ∷ es)) = some (build_failed e es)

module _ {L : Type 0} (k : KeyLocks L) where
  -- The part behind `modifyBuildOptions`.
  unfoldable pub build_tagged :
      Bool
      → Bool
      → BuildClient
      → List (List String)
      → List String
      → List String
      → L
      → Option (L × List String × Option BuildError)
  unfolding under_lock build_body build_result
  build_tagged done force c summaries [] calls l = some (l, calls, some no_tag)
  build_tagged done force c summaries (image ∷ tags) calls l =
      elim (under_lock k done image (build_body force c summaries image) calls l) [
        | none ↦ none
        | some (l', calls', r) ↦ some (l', calls', build_result r)
      ]

  -- `Build`, where `archive` is what `createArchive` gives: an error, or the path of the Dockerfile;
  -- `summaries` are the tags of the images. The state is the calls of `ImageBuild`. `none` for a panic.
  unfoldable pub build :
      String ⊎ String
      → Bool
      → BuildClient
      → List (List String)
      → BuildParams
      → List BuildOption
      → List String
      → L
      → Option (L × List String × Option BuildError)
  unfolding choose_build build_tagged
  build archive done c summaries b opts calls l = elim archive [
    | inl e ↦ some (l, calls, some (no_archive e))
    | inr dockerfile ↦
        let choice = choose_build opts default_build in
        let options = choice.modify_build_options (record {
          tags = b.image ∷ [];
          suppress_output = choice.discards;
          dockerfile = dockerfile;
          platform = b.platform;
        }) in
        build_tagged done choice.force c summaries options.tags calls l
  ]
