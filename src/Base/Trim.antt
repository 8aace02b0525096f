-- ===== src/Base/Trim.antt =====
-- The parts of Go's strings and bytes packages that the program walks texts with: HasPrefix and
-- TrimSpace. White space is that of ASCII; a byte of a longer UTF-8 sequence
-- counts as no white space.
use Prim.Native.Nat.{ℕ}
use mathlib.Core.Bool.{Bool, true, false, not, ◌&&◌, ◌||◌}
use native.Mathlib.Omega.{arith}
use mathlib.Core.Path.{◌≡◌, refl, sym, ap, ◌∙◌, subst}
use mathlib.Core.Logic.{◌≢◌, inl, inr}
use mathlib.Core.List.{[], ◌∷◌, ◌++◌, reverse, reverse_aux, reverse-reverse, reverse-append}
use microvm_terminal.Base.Tests.{Bool-cases, nat_eq, leb, if◌then◌else◌}
use microvm_terminal.Base.Text.{Bytes}

unfoldable pub is_space : ℕ → Bool
is_space c = nat_eq c b' ' || (leb 9 c && leb c 13)

unfoldable pub trim_left : (ℕ → Bool) → Bytes → Bytes
trim_left p [] = []
trim_left p (c ∷ cs) = if p c then trim_left p cs else c ∷ cs

unfoldable pub trim_both : (ℕ → Bool) → Bytes → Bytes
unfolding trim_left
trim_both p s = reverse (trim_left p (reverse (trim_left p s)))

unfoldable pub trim_space : Bytes → Bytes
unfolding trim_both is_space
trim_space s = trim_both is_space s

unfoldable pub has_prefix : Bytes → Bytes → Bool
has_prefix s [] = true
has_prefix [] (p ∷ ps) = false
has_prefix (c ∷ cs) (p ∷ ps) = nat_eq c p && has_prefix cs ps

-- The text does not begin with a byte of the kind.
abbrev pub Edge : (ℕ → Bool) → Bytes → Type 0
Edge p [] = Unit {0}
Edge p (c ∷ cs) = p c ≡ false

Edge-append : (p : ℕ → Bool) (a b : Bytes) → Edge p (a ++ b) → Edge p a
Edge-append p [] b h = tt
Edge-append p (x ∷ a) b h = h

trim_left-Edge : (p : ℕ → Bool) (s : Bytes) → Edge p (trim_left p s)
unfolding trim_left
trim_left-Edge p [] = tt
trim_left-Edge p (c ∷ cs) = elim (Bool-cases (p c)) [
  | inl cut ↦ rw cut (trim_left-Edge p cs)
  | inr kept ↦ rw kept kept
]

trim_left_fixed : (p : ℕ → Bool) (s : Bytes) → Edge p s → trim_left p s ≡ s
unfolding trim_left
trim_left_fixed p [] h = refl
trim_left_fixed p (c ∷ cs) h = rw h refl

trim_left_parts : (p : ℕ → Bool) (s : Bytes) → (pre : Bytes) × (s ≡ pre ++ trim_left p s)
unfolding trim_left
trim_left_parts p [] = ([], refl)
trim_left_parts p (c ∷ cs) = elim (Bool-cases (p c)) [
  | inl cut ↦ let (pre, e) = trim_left_parts p cs in rw cut (c ∷ pre, ap (◌∷◌ c) e)
  | inr kept ↦ rw kept ([], refl)
]

-- Nothing is cut off when neither end is of the kind.
pub trim_both_fixed : (p : ℕ → Bool) (s : Bytes) → Edge p s → Edge p (reverse s) → trim_both p s ≡ s
unfolding trim_both
trim_both_fixed p s first last =
    rw (trim_left_fixed p s first, trim_left_fixed p (reverse s) last) (reverse-reverse s)

-- The text that is left of `s`, and what is cut off behind.
trim_behind :
    (p : ℕ → Bool) (u : Bytes) → (post : Bytes) × (u ≡ reverse (trim_left p (reverse u)) ++ post)
trim_behind p u =
    let (pre, e) = trim_left_parts p (reverse u) in
    (
      reverse pre,
      sym (reverse-reverse u) ∙ ap reverse e ∙ reverse-append pre (trim_left p (reverse u)),
    )

-- What is cut off, before and behind.
pub trim_both_parts :
    (p : ℕ → Bool) (s : Bytes) → (pre post : Bytes) × (s ≡ pre ++ (trim_both p s ++ post))
unfolding trim_both
trim_both_parts p s =
    let (pre, e) = trim_left_parts p s in
    let (post, f) = trim_behind p (trim_left p s) in (pre, post, e ∙ ap (◌++◌ pre) f)

-- Neither end of what is left is of the kind.
pub trim_both-Edge :
    (p : ℕ → Bool) (s : Bytes) → Edge p (trim_both p s) × Edge p (reverse (trim_both p s))
unfolding trim_both
trim_both-Edge p s =
    let u = trim_left p s in
    let (post, f) = trim_behind p u in
    (
      Edge-append p (reverse (trim_left p (reverse u))) post
          (subst (Edge p) f (trim_left-Edge p s)),
      subst (Edge p) (sym (reverse-reverse (trim_left p (reverse u))))
          (trim_left-Edge p (reverse u)),
    )

-- No byte is of the kind.
abbrev pub none_of : (ℕ → Bool) → Bytes → Bool
none_of p [] = true
none_of p (c ∷ cs) = not (p c) && none_of p cs

pub none_of-Edge : (p : ℕ → Bool) (s : Bytes) → none_of p s ≡ true → Edge p s
none_of-Edge p [] h = tt
none_of-Edge p (c ∷ s) h = ground (arith, h)

none_of-reverse_aux :
    (p : ℕ → Bool) (s acc : Bytes) → none_of p s ≡ true → Edge p acc → Edge p (reverse_aux s acc)
none_of-reverse_aux p [] acc h e = e
none_of-reverse_aux p (c ∷ s) acc h e =
    none_of-reverse_aux p s (c ∷ acc) (ground (arith, h)) (ground (arith, h))

pub none_of-Edge-reverse : (p : ℕ → Bool) (s : Bytes) → none_of p s ≡ true → Edge p (reverse s)
none_of-Edge-reverse p s h = none_of-reverse_aux p s [] h tt

trim_left_cons :
    (p : ℕ → Bool) (c : ℕ) (s : Bytes) → p c ≡ true → trim_left p (c ∷ s) ≡ trim_left p s
unfolding trim_left
trim_left_cons p c s h = rw h refl

-- Of a line, only its end is cut off.
pub trim_both-line :
    (p : ℕ → Bool) (s : Bytes) (c : ℕ)
    → p c ≡ true
    → s ≢ []
    → Edge p s
    → Edge p (reverse s)
    → trim_both p (s ++ c ∷ []) ≡ s
unfolding trim_both
trim_both-line p [] c space ne first last = absurd (ne refl)
trim_both-line p (x ∷ s) c space ne first last =
    let kept = trim_left_fixed p (x ∷ s ++ c ∷ []) first in
    let turned : reverse (x ∷ s ++ c ∷ []) ≡ c ∷ reverse (x ∷ s) =
      reverse-append (x ∷ s) (c ∷ []) in
    let cut = trim_left_cons p c (reverse (x ∷ s)) space in
    ap (λ u. reverse (trim_left p (reverse u))) kept
    ∙ ap (λ u. reverse (trim_left p u)) turned
    ∙ ap reverse (cut ∙ trim_left_fixed p (reverse (x ∷ s)) last)
    ∙ reverse-reverse (x ∷ s)
