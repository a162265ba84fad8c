-- ===== src/RkcdpSetup/Steps.antt =====
-- What the steps of an installation (do_install of rkcdp/rkcdp-setup.py) do to the path that each of
-- them has, and steps that are done again.
use Prim.Native.String.{String}
use text.Mathlib.Text.{◌==◌ as str_eq}
use text.Mathlib.TextEquality.{eq_iff}
use io_filter_driver_for_lin.Base.{
  ◌≡◌, refl, sym, ap, ◌∙◌, true, false, Option, none, some, List, [], ◌∷◌, map, All, Bool-cases,
  inl, inr, if◌then◌else◌,
}
use io_filter_driver_for_lin.RkcdpSetup.{Content, File}

-- What a step does to its own path.
pub data Step : Type 0 where
  deletes : String → Step
  installs : String → File → Step
  rewrites : String → Content → Step
  creates : String → Content → Step

unfoldable pub path_of : Step → String
path_of (deletes p) = p
path_of (installs p f) = p
path_of (rewrites p c) = p
path_of (creates p c) = p

unfoldable pub effect_of : Step → Option File → Option File
effect_of (deletes p) x = none
effect_of (installs p f) x = some f
effect_of (rewrites p c) none = some (record { content = c; mode = 420 })
effect_of (rewrites p c) (some f) = some (record { content = c; mode = f.mode })
effect_of (creates p c) none = some (record { content = c; mode = 420 })
effect_of (creates p c) (some f) = some f

-- What is at the path `q` after the steps.
unfoldable pub touch : String → Step → Option File → Option File
touch q s x = if str_eq q (path_of s) then effect_of s x else x

pub touch_here :
    (q : String) (s : Step) (x : Option File)
    → str_eq q (path_of s) ≡ true
    → touch q s x ≡ effect_of s x
unfolding touch
touch_here q s x h = rw h

pub touch_elsewhere :
    (q : String) (s : Step) (x : Option File) → str_eq q (path_of s) ≡ false → touch q s x ≡ x
unfolding touch
touch_elsewhere q s x h = rw h

abbrev pub after : String → List Step → Option File → Option File
after q [] x = x
after q (s ∷ steps) x = after q steps (touch q s x)

-- The step with other content for a file that is only created.
unfoldable pub renew : Content → Step → Step
renew c (deletes p) = deletes p
renew c (installs p f) = installs p f
renew c (rewrites p c') = rewrites p c'
renew c (creates p c') = creates p c

path-renew : (c : Content) (s : Step) → path_of (renew c s) ≡ path_of s
unfolding path_of renew
path-renew c (deletes p) = refl
path-renew c (installs p f) = refl
path-renew c (rewrites p c') = refl
path-renew c (creates p c') = refl

effect-renew :
    (c : Content) (s : Step) (x : Option File)
    → effect_of (renew c s) (effect_of s x) ≡ effect_of s x
unfolding effect_of renew
effect-renew c (deletes p) x = refl
effect-renew c (installs p f) x = refl
effect-renew c (rewrites p c') none = refl
effect-renew c (rewrites p c') (some f) = refl
effect-renew c (creates p c') none = refl
effect-renew c (creates p c') (some f) = refl

abbrev pub Elsewhere : String → Step → Type 0
Elsewhere q s = str_eq q (path_of s) ≡ false

abbrev pub AllDistinct : List Step → Type 0
AllDistinct [] = Unit
AllDistinct (s ∷ steps) = All (Elsewhere (path_of s)) steps × AllDistinct steps

after-Elsewhere :
    (q : String) (steps : List Step) (x : Option File)
    → All (Elsewhere q) steps
    → after q steps x ≡ x
after-Elsewhere q [] x h = refl
after-Elsewhere q (s ∷ steps) x (h, later) =
    after-Elsewhere q steps _ later ∙ touch_elsewhere q s x h

renew-Elsewhere :
    (q : String) (c : Content) (steps : List Step)
    → All (Elsewhere q) steps
    → All (Elsewhere q) (map (renew c) steps)
renew-Elsewhere q c [] h = tt
renew-Elsewhere q c (s ∷ steps) (h, later) =
    (rw (path-renew c s) h, renew-Elsewhere q c steps later)

-- Steps on different paths do nothing when they are done again.
pub after_again :
    (q : String) (c : Content) (steps : List Step) (x : Option File)
    → AllDistinct steps
    → after q (map (renew c) steps) (after q steps x) ≡ after q steps x
after_again q c [] x h = refl
after_again q c (s ∷ steps) x (apart, distinct) = elim (Bool-cases (str_eq q (path_of s))) [
  | inr other ↦
      ap (λ y. after q (map (renew c) steps) (touch q (renew c s) (after q steps y)))
        (touch_elsewhere q s x other)
      ∙ ap (after q (map (renew c) steps))
          (touch_elsewhere q (renew c s) _ (rw (path-renew c s) other))
      ∙ after_again q c steps x distinct
      ∙ ap (after q steps) (sym (touch_elsewhere q s x other))
  | inl here ↦
      let q_apart : All (Elsewhere q) steps = rw ((eq_iff q (path_of s)).0 here) apart in
      let done : after q steps (touch q s x) ≡ effect_of s x =
        after-Elsewhere q steps _ q_apart ∙ touch_here q s x here in
      ap (λ y. after q (map (renew c) steps) (touch q (renew c s) y)) done
      ∙ after-Elsewhere q (map (renew c) steps) _ (renew-Elsewhere q c steps q_apart)
      ∙ touch_here q (renew c s) _ (rw (path-renew c s) here)
      ∙ effect-renew c s x
      ∙ sym done
]
