-- ===== src/Api/Build/Built.antt =====
-- What `Build` does to the locks, and when it has an image built.
use confort.Base.{
  ◌≡◌, refl, Bool, not, ◌&&◌, List, [], ◌∷◌, String, ◌⊎◌, inl, inr, Option, none, some,
  if◌then◌else◌,
}
use confort.Beacon.Streams.Keyed.{KeyLocks}
use confort.Backend.Build.{BuildClient, has_image, build_image-built}
use confort.Api.Run.Locks.{under_lock-returns}
use confort.Api.Build.{
  BuildParams, BuildOption, BuildError, no_archive, no_tag, build_lock_failed, choose_build,
  default_build, build_body, build_result, build_tagged, build,
}

-- Without an error there is a first tag, and its image is built if the build is forced or no image
-- has the tag, and else not.
abbrev pub BuiltFor :
    Bool → List (List String) → List String → List String → List String → Option BuildError → Type 0
BuiltFor force summaries tags calls calls' (some e) = Unit
BuiltFor force summaries [] calls calls' none = ⊥
BuiltFor force summaries (image ∷ tags) calls calls' none =
    calls' ≡ (if not (not force && has_image image summaries) then image ∷ calls else calls)

-- The tags, where there is an archive.
abbrev pub tags_for : String ⊎ String → BuildParams → List BuildOption → List String
tags_for (inl e) b opts = []
tags_for (inr dockerfile) b opts =
    ((choose_build opts default_build).modify_build_options (record {
      tags = b.image ∷ [];
      suppress_output = (choose_build opts default_build).discards;
      dockerfile = dockerfile;
      platform = b.platform;
    })).tags

module _ {L : Type 0} (k : KeyLocks L) where
  build_tagged-built :
      (done force : Bool) (c : BuildClient) (summaries : List (List String))
      (tags calls : List String) (l : L)
      → k.Valid l
      → (l' : L) × (calls' : List String) × (e : Option BuildError) × (build_tagged k done force c
            summaries tags calls l
          ≡ some (l', calls', e))
        × ((j : String) → k.weight j l' ≡ k.weight j l)
        × BuiltFor force summaries tags calls calls' e
  unfolding build_tagged build_body build_result
  build_tagged-built done force c summaries [] calls l v =
      (l, calls, some no_tag, refl, λ j. refl, tt)
  build_tagged-built done force c summaries (image ∷ tags) calls l v =
      let (l', calls', r, e, w, same, did) =
        under_lock-returns k done image (build_body force c summaries image) calls l v in
      elim did [
        | inl (f, t, q) ↦ (
          l',
          calls',
          some build_lock_failed,
          rw (e, build_tagged) (rw (q, build_result) refl),
          same,
          tt,
        )
        | inr (f, t, q) ↦ (
          l',
          (build_body force c summaries image calls).0,
          build_result (some (build_body force c summaries image calls).1),
          rw (e, build_tagged) (rw q (rw t refl)),
          same,
          ok (build_body force c summaries image calls).1 refl,
        )
      ]
    where
      ok :
          (errors : List String)
          → (build_body force c summaries image calls).1 ≡ errors
          → BuiltFor force summaries
              (image ∷ tags)
              calls
              (build_body force c summaries image calls).0
              (build_result (some errors))
      ok (x ∷ xs) g = tt
      ok [] g = rw (build_image-built image force c summaries g) refl

  -- Where the locks are valid: `Build` does not panic, and leaves the locks with the weights that they
  -- had. Without an error there is a first tag, and `ImageBuild` is called for it if the build is forced
  -- or no image has the tag, and else it is not called.
  pub build-built :
      (archive : String ⊎ String) (done : Bool) (c : BuildClient) (summaries : List (List String))
      (b : BuildParams) (opts : List BuildOption) (calls : List String) (l : L)
      → k.Valid l
      → (l' : L) × (calls' : List String) × (e : Option BuildError) × (build k archive done c
            summaries b opts calls l
          ≡ some (l', calls', e))
        × ((j : String) → k.weight j l' ≡ k.weight j l)
        × BuiltFor
            (choose_build opts default_build).force
            summaries
            (tags_for archive b opts)
            calls
            calls'
            e
  unfolding build
  build-built (inl x) done c summaries b opts calls l v =
      (l, calls, some (no_archive x), refl, λ j. refl, tt)
  build-built (inr dockerfile) done c summaries b opts calls l v =
      build_tagged-built done (choose_build opts default_build).force c summaries
        (tags_for (inr dockerfile) b opts) calls l v
