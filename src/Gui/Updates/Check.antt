-- ===== src/Gui/Updates/Check.antt =====
-- `check_for_update` of gui/src/updates.rs, over the request for the releases.
pub mod Offers
use lecoo_control_center.Base.{Bool, Option, List, [], ◌∷◌, ◌==◌, if◌then◌else◌}
use lecoo_control_center.Base.Text.{Text, codes}
use lecoo_control_center.Base.Action.{Action, pure, fail, ◌>>=◌}
use lecoo_control_center.Gui.Updates.{is_newer}

pub record GhRelease : Type 0 where
  pub tag_name : Text
  pub html_url : Text
  pub name : Option Text
  pub body : Option Text
  pub prerelease : Bool

pub record UpdateCheck : Type 0 where
  pub current_version : Text
  pub latest_version : Text
  pub update_available : Bool
  pub release_url : Text
  pub release_name : Option Text
  pub release_notes : Option Text
  pub prerelease : Bool

-- `trim_start_matches('v')`
abbrev pub trim_v : Text → Text
trim_v [] = []
trim_v (c ∷ cs) = let rest = trim_v cs in if c == 0x76 then rest else c ∷ cs

-- `into_iter().next()`, with the error for no release.
abbrev pub first_release : {S : Type 0} → List GhRelease → Action S GhRelease
first_release [] = fail (codes "no releases published yet")
first_release (release ∷ releases) = pure release

-- What is known of a release, for an application of a version.
abbrev pub check_of : Text → GhRelease → UpdateCheck
check_of current release =
    let latest = trim_v release.tag_name in
    record {
      current_version = current;
      latest_version = latest;
      update_available = is_newer latest current;
      release_url = release.html_url;
      release_name = release.name;
      release_notes = release.body;
      prerelease = release.prerelease;
    }

-- The request gives the releases, the latest first, or the text of its error; `current` is the
-- version that the application is built with.
unfoldable pub check_for_update :
    {S : Type 0} → Action S (List GhRelease) → Text → Action S UpdateCheck
check_for_update request current = do
  releases ← request
  release ← first_release releases
  pure (check_of current release)
