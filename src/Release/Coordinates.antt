-- ===== src/Release/Coordinates.antt =====
-- github_release.py: `_validate_coordinates`.
use mt.Base.{◌||◌, not, ◌==◌, has_text, ends_with_lower}
use mt.Errors.{exception, Result, refuse_if, ◌>>◌}
use mt.Config.Source.{Coordinates, is_owner, is_repo, is_tag}

-- Beyond its pattern a repository's name ends in `.git` in no case, and a tag in `.lock`; of the
-- characters that the patterns let through, `casefold` is the ASCII lower case.
unfoldable pub validate_coordinates : Coordinates → Result (Unit {0})
validate_coordinates c = do
  refuse_if (not (is_owner c.owner) || has_text "--" c.owner) exception "GitHub owner is invalid"
  refuse_if
      (not (is_repo c.repo) || c.repo == "." || c.repo == ".." || ends_with_lower c.repo ".git")
      exception "GitHub repository name is invalid"
  refuse_if (not (is_tag c.tag) || has_text ".." c.tag || ends_with_lower c.tag ".lock") exception
      "GitHub release tag is invalid"
