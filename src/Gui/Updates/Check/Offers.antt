-- ===== src/Gui/Updates/Check/Offers.antt =====
-- Which releases are offered as an update.
use Prim.Native.Nat.{compare, Ordering}
use lecoo_control_center.Base.{
  ℕ, zero, suc, ◌≡◌, refl, Bool, true, false, ◌&&◌, ◌||◌, not, List, [], ◌∷◌, ltb, ◌==◌,
  if◌then◌else◌, arith,
}
use lecoo_control_center.Base.Text.{Text}
use lecoo_control_center.Base.Lists.{length}
use lecoo_control_center.Base.Action.{Action, Outcome, ok, err, panicked}
use lecoo_control_center.Gui.Updates.{
  parse, longer, is_greater, compare_pre, compare_from, compare_version, is_newer,
}
use lecoo_control_center.Gui.Updates.Check.{GhRelease, UpdateCheck, trim_v, check_for_update}

-- The first version is above the second: by their numbers, the first one that differs deciding and a
-- missing one being 0, and where no number differs, by `last`.
abbrev pub above : List ℕ → List ℕ → Bool → Bool
above [] [] last = last
above (x ∷ xs) [] last = ltb 0 x || ((x == 0) && above xs [] last)
above [] (y ∷ ys) last = (y == 0) && above [] ys last
above (x ∷ xs) (y ∷ ys) last = ltb y x || ((x == y) && above xs ys last)

-- Where the numbers are the same, a version without a suffix is above one with a suffix.
abbrev pub is_above : Text → Text → Bool
is_above a b = above (parse a).0 (parse b).0 (not (parse a).1 && (parse b).1)

-- Whether the window offers an update.
abbrev pub offered : Outcome UpdateCheck → Bool
offered (ok check) = check.update_available
offered (err e) = false
offered panicked = false

pre-above : (p q : Bool) → is_greater (compare_pre p q) ≡ (not p && q)
pre-above false false = refl
pre-above false true = refl
pre-above true false = refl
pre-above true true = refl

-- One part.
decide :
    (x y : ℕ) (o : Ordering) (b : Bool)
    → is_greater o ≡ b
    → is_greater (if not (x == y) then compare x y else o) ≡ (ltb y x || ((x == y) && b))
decide x y o b e = ground arith

-- The loop over the parts behind the first ones.
behind :
    (n i x y : ℕ) (xs ys : List ℕ) (p q : Bool)
    → compare_from n (suc i) (x ∷ xs, p) (y ∷ ys, q) ≡ compare_from n i (xs, p) (ys, q)
unfolding compare_from
behind zero i x y xs ys p q = refl
behind (suc n) i x y xs ys p q = rw (behind n (suc i) x y xs ys p q) refl

behind_first :
    (n i x : ℕ) (xs : List ℕ) (p q : Bool)
    → compare_from n (suc i) (x ∷ xs, p) ([], q) ≡ compare_from n i (xs, p) ([], q)
unfolding compare_from
behind_first zero i x xs p q = refl
behind_first (suc n) i x xs p q = rw (behind_first n (suc i) x xs p q) refl

behind_second :
    (n i y : ℕ) (ys : List ℕ) (p q : Bool)
    → compare_from n (suc i) ([], p) (y ∷ ys, q) ≡ compare_from n i ([], p) (ys, q)
unfolding compare_from
behind_second zero i y ys p q = refl
behind_second (suc n) i y ys p q = rw (behind_second n (suc i) y ys p q) refl

longer-suc : (a b : ℕ) → longer (suc a) (suc b) ≡ suc (longer a b)
longer-suc a b = ground arith

longer-first : (a : ℕ) → longer (suc a) 0 ≡ suc (longer a 0)
longer-first a = ground arith

longer-second : (b : ℕ) → longer 0 (suc b) ≡ suc (longer 0 b)
longer-second b = ground arith

decide_second :
    (y : ℕ) (o : Ordering) (b : Bool)
    → is_greater o ≡ b
    → is_greater (if not (0 == y) then compare 0 y else o) ≡ ((y == 0) && b)
decide_second y o b e = ground arith

compares :
    (xs ys : List ℕ) (p q : Bool)
    → is_greater (compare_from (longer (length xs) (length ys)) 0 (xs, p) (ys, q))
      ≡ above xs ys (not p && q)
unfolding compare_from
compares [] [] p q = pre-above p q
compares (x ∷ xs) [] p q =
    rw (longer-first (length xs), behind_first (longer (length xs) 0) 0 x xs p q)
      (decide x 0 _ _ (compares xs [] p q))
compares [] (y ∷ ys) p q =
    rw (longer-second (length ys), behind_second (longer 0 (length ys)) 0 y ys p q)
      (decide_second y _ _ (compares [] ys p q))
compares (x ∷ xs) (y ∷ ys) p q =
    rw (longer-suc (length xs) (length ys), behind (longer (length xs) (length ys)) 0 x y xs ys p q)
      (decide x y _ _ (compares xs ys p q))

-- An update is offered exactly where its version is above the application's.
is_newer-above : (a b : Text) → is_newer a b ≡ is_above a b
unfolding is_newer compare_version
is_newer-above a b = compares (parse a).0 (parse b).0 (parse a).1 (parse b).1

module _ {S : Type 0} where
  -- Where the request for the releases succeeds with a latest release, the check offers an update to
  -- an application exactly if the release's version is above the application's: by the first number
  -- that differs, a missing one being 0, and where none differs, if the application's version has a
  -- suffix and the release's has none.
  pub check_for_update_offers :
      (request : Action S (List GhRelease)) (current : Text) (s : S) {release : GhRelease}
      {others : List GhRelease}
      → (request s).0 ≡ ok (release ∷ others)
      → offered (check_for_update request current s).0 ≡ is_above (trim_v release.tag_name) current
  unfolding check_for_update
  check_for_update_offers request current s {release} e =
      rw e (is_newer-above (trim_v release.tag_name) current)
