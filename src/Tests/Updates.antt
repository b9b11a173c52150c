-- ===== src/Tests/Updates.antt =====
-- Comparisons of versions, among them the source's own.
use Prim.Native.Nat.{Ordering}
use lecoo_control_center.Base.{◌≡◌, refl, true, false, none, List, [], ◌∷◌}
use lecoo_control_center.Base.Text.{Text, codes}
use lecoo_control_center.Base.Action.{Action, pure}
use lecoo_control_center.Gui.Updates.{compare_from, compare_version, is_newer}
use lecoo_control_center.Gui.Updates.Check.{GhRelease, trim_v, check_for_update}
use lecoo_control_center.Gui.Updates.Check.Offers.{offered, is_above, check_for_update_offers}

newer_patch_wins : is_newer (codes "0.1.1") (codes "0.1.0") ≡ true
unfolding is_newer compare_version compare_from
newer_patch_wins = refl

newer_minor_wins : is_newer (codes "0.2.0") (codes "0.1.99") ≡ true
unfolding is_newer compare_version compare_from
newer_minor_wins = refl

equal_is_not_newer : is_newer (codes "0.1.0") (codes "0.1.0") ≡ false
unfolding is_newer compare_version compare_from
equal_is_not_newer = refl

prerelease_is_older : compare_version (codes "0.1.0-rc.1") (codes "0.1.0") ≡ Ordering.lt
unfolding compare_version compare_from
prerelease_is_older = refl

abbrev release : Text → GhRelease
release tag = record {
  tag_name = tag;
  html_url = codes "https://github.com/A-mi13/Lecoo-Control-Center/releases";
  name = none;
  body = none;
  prerelease = true;
}

abbrev published : Text → Action Unit (List GhRelease)
published tag = pure (release tag ∷ [])

tag_is_trimmed : trim_v (codes "v0.2.0") ≡ codes "0.2.0"
tag_is_trimmed = refl

newer_is_offered :
    offered (check_for_update (published (codes "v0.2.0")) (codes "0.1.4") tt).0 ≡ true
unfolding check_for_update is_newer compare_version compare_from
newer_is_offered = refl

check_for_update_offers_example :
    offered (check_for_update (published (codes "v0.2.0")) (codes "0.10.0-rc.1") tt).0
    ≡ is_above (codes "0.2.0") (codes "0.10.0-rc.1")
check_for_update_offers_example =
    check_for_update_offers (published (codes "v0.2.0")) (codes "0.10.0-rc.1") tt refl

older_is_not_above : is_above (codes "0.2.0") (codes "0.10.0-rc.1") ≡ false
older_is_not_above = refl
