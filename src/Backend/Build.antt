-- ===== src/Backend/Build.antt =====
-- backend.go, `BuildImage`.
use confort.Base.{
  ◌≡◌, Bool, true, false, not, ◌&&◌, List, [], ◌∷◌, String, Option, none, some, if◌then◌else◌,
  string_eq, member, arith, Option-cases, inl, inr,
}

-- The calls of the client: the errors of `ImageList` and `ImageBuild`, what `handleJSONMessageStream`
-- returns, and the error of closing the body.
pub record BuildClient : Type 0 where
  pub list_error : Option String
  pub build_error : Option String
  pub stream_error : Option String
  pub close_error : Option String

abbrev pub errors_of : Option String → List String
errors_of none = []
errors_of (some e) = e ∷ []

-- `multierr.Append(err, resp.Body.Close())`
abbrev pub append_close : Option String → Option String → List String
append_close none close = errors_of close
append_close (some e) close = e ∷ errors_of close

-- The loop over `summaries` and their `RepoTags`.
unfoldable pub has_image : String → List (List String) → Bool
has_image image [] = false
has_image image (tags ∷ summaries) =
    let rest = has_image image summaries in if member image tags then true else rest

-- Whether `ImageBuild` is called, and the errors that `BuildImage` returns. `Tags` has at least one
-- element, the first argument.
unfoldable pub build_image : String → Bool → BuildClient → List (List String) → Bool × List String
unfolding has_image
build_image image force c summaries =
    if not force && elim c.list_error [ none ↦ false | some _ ↦ true ]
    then (false, errors_of c.list_error)
    else (if not force && has_image image summaries then (false, []) else (elim c.build_error [
      | some e ↦ (true, e ∷ [])
      | none ↦ (true, append_close c.stream_error c.close_error)
    ]))

-- Where `BuildImage` returns without an error: it has had the image built,
-- exactly if it is forced to or no image has the tag.
pub build_image-built :
    (image : String) (force : Bool) (c : BuildClient) (summaries : List (List String))
    → (build_image image force c summaries).1 ≡ []
    → (build_image image force c summaries).0 ≡ not (not force && has_image image summaries)
unfolding build_image
build_image-built image force c summaries h = elim (Option-cases c.list_error) [
  | inl e ↦ elim (Option-cases c.build_error) [
    | inl f ↦ ground (arith, h, e, f)
    | inr (x, f) ↦ ground (arith, h, e, f)
  ]
  | inr (y, e) ↦ elim (Option-cases c.build_error) [
    | inl f ↦ ground (arith, h, e, f)
    | inr (x, f) ↦ ground (arith, h, e, f)
  ]
]
