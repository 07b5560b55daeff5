-- ===== src/Diff/Scan/Paths.antt =====
-- crates/blindfold-diff/src/scan.rs: what is known of a path.
use blindfold.Prelude.{
  ℕ, ◌+◌, Bool, ◌&&◌, ◌||◌, [], ◌∷◌, map, leb, ◌==◌, if◌then◌else◌, codes, bytes_eq,
}
use blindfold.Core.SafeRef.{Text}
use blindfold.Diff.Text.{starts_with}

pub data PathRisk : Type 0 where
  normal frontend_public environment_file continuous_integration fixture : PathRisk

-- `contains` of a text
unfoldable pub contains : Text → Text → Bool
unfolding starts_with
contains [] pattern = starts_with [] pattern
contains (c ∷ text) pattern = starts_with (c ∷ text) pattern || contains text pattern

-- `to_ascii_lowercase` of a character
unfoldable pub to_lower : ℕ → ℕ
to_lower c = if leb 65 c && leb c 90 then c + 32 else c

-- `rsplit('/').next()`: what is behind the last slash
unfoldable pub last_part : Text → Text → Text
last_part part [] = part
last_part part (c ∷ text) = last_part (if c == 47 then text else part) text

-- `path.replace('\\', "/").to_ascii_lowercase()`
unfoldable pub normalize : Text → Text
unfolding to_lower
normalize path = map (λ c. to_lower (if c == 92 then 47 else c)) path

unfoldable pub classify_path : Text → PathRisk
unfolding contains normalize last_part starts_with bytes_eq
classify_path path =
    let normalized = normalize path in
    let file_name = last_part normalized normalized in
    if bytes_eq file_name (codes ".env") || starts_with file_name (codes ".env.")
    then environment_file
    else if starts_with normalized (codes ".github/workflows/")
        || (contains normalized (codes "/.github/workflows/")
            || (starts_with normalized (codes ".circleci/")
                || (contains normalized (codes "/.circleci/")
                    || (starts_with normalized (codes ".gitlab-ci")
                        || (bytes_eq file_name (codes ".travis.yml")
                            || (bytes_eq file_name (codes "jenkinsfile")
                                || (starts_with file_name (codes "azure-pipelines")
                                    || (contains normalized (codes "/buildkite/")
                                        || contains normalized (codes "/ci/")))))))))
    then continuous_integration
    else if contains normalized (codes "/fixtures/")
        || (starts_with normalized (codes "fixtures/")
            || (contains normalized (codes "/snapshots/")
                || contains normalized (codes "__snapshots__")))
    then fixture
    else if starts_with normalized (codes "public/")
        || (contains normalized (codes "/public/")
            || (starts_with normalized (codes "frontend/")
                || (contains normalized (codes "/frontend/")
                    || (starts_with normalized (codes "src/client/")
                        || contains normalized (codes "/src/client/")))))
    then frontend_public
    else normal
