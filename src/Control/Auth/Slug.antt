-- ===== src/Control/Auth/Slug.antt =====
-- What a slug is, and that Slugify yields one and leaves one alone.
use microvm_terminal.Base.{
  ℕ, ◌≡◌, ◌≤◌, ◌↔◌, refl, sym, ap, subst, ◌∙◌, Bool, true, false, ◌&&◌, not, [], ◌∷◌, ◌++◌, Bytes,
  length, take, drop, ltb, if◌then◌else◌, arith, inl, inr, Bool-cases, length-append,
  take-append-drop, length-take, le→ltb,
}
use microvm_terminal.Base.Lower.{to_lower, lower_from, nothing}
use microvm_terminal.Base.Trim.{
  is_space, trim_both, trim_space, Edge, none_of, none_of-Edge, none_of-Edge-reverse,
  trim_both_fixed, trim_both_parts, trim_both-Edge,
}
use mathlib.Core.List.{reverse}
use microvm_terminal.Control.Auth.{max_name_len, is_alnum, dash_runs, is_dash, shorten, slugify}

-- Letters, digits and single dashes; the flag says that a dash stands before.
abbrev pub clean : Bool → Bytes → Bool
clean dash [] = true
clean dash (c ∷ cs) =
    if is_alnum c then clean false cs else (is_dash c && not dash) && clean true cs

-- At most 32 of them, with no dash at either end.
pub record IsSlug (s : Bytes) : Type 0 where
  pub is_clean : clean false s ≡ true
  pub first : Edge is_dash s
  pub last : Edge is_dash (reverse s)
  pub short : length s ≤ max_name_len

clean-weaken : (s : Bytes) → clean true s ≡ true → clean false s ≡ true
clean-weaken [] h = refl
clean-weaken (c ∷ s) h = ground (arith, h)

clean-prefix : (d : Bool) (a b : Bytes) → clean d (a ++ b) ≡ true → clean d a ≡ true
clean-prefix d [] b h = refl
clean-prefix d (c ∷ a) b h = ground (arith, h, clean-prefix false a b, clean-prefix true a b)

clean-suffix : (d : Bool) (a b : Bytes) → clean d (a ++ b) ≡ true → clean false b ≡ true
clean-suffix true [] b h = clean-weaken b h
clean-suffix false [] b h = h
clean-suffix d (c ∷ a) b h = ground (arith, h, clean-suffix false a b, clean-suffix true a b)

clean-dash_runs : (d : Bool) (s : Bytes) → clean d (dash_runs d s) ≡ true
unfolding dash_runs
clean-dash_runs d [] = refl
clean-dash_runs d (c ∷ s) = ground (arith, clean-dash_runs false s, clean-dash_runs true s)

dash_runs-clean : (d : Bool) (s : Bytes) → clean d s ≡ true → dash_runs d s ≡ s
unfolding dash_runs
dash_runs-clean d [] h = refl
dash_runs-clean d (c ∷ s) h = ground (arith, h, dash_runs-clean false s, dash_runs-clean true s)

lower_from-clean : (d : Bool) (s : Bytes) → clean d s ≡ true → lower_from nothing s ≡ s
unfolding lower_from
lower_from-clean d [] h = refl
lower_from-clean d (c ∷ s) h = ground (arith, h, lower_from-clean false s, lower_from-clean true s)

to_lower-clean : (d : Bool) (s : Bytes) → clean d s ≡ true → to_lower s ≡ s
unfolding to_lower
to_lower-clean d s h = lower_from-clean d s h

clean-trim : (s : Bytes) → clean false s ≡ true → clean false (trim_both is_dash s) ≡ true
clean-trim s h =
    let (pre, post, e) = trim_both_parts is_dash s in
    clean-prefix false (trim_both is_dash s) post
      (clean-suffix false pre (trim_both is_dash s ++ post) (ap (clean false) (sym e) ∙ h))

length-trim : (s : Bytes) → length (trim_both is_dash s) ≤ length s
length-trim s =
    let (pre, post, e) = trim_both_parts is_dash s in
    omega (
      arith,
      ap length e,
      length-append pre (trim_both is_dash s ++ post),
      length-append (trim_both is_dash s) post,
    )

clean-take : (n : ℕ) (s : Bytes) → clean false s ≡ true → clean false (take n s) ≡ true
clean-take n s h =
    clean-prefix false (take n s) (drop n s) (ap (clean false) (take-append-drop n s) ∙ h)

trimmed-IsSlug :
    (s : Bytes) → clean false s ≡ true → length s ≤ max_name_len → IsSlug (trim_both is_dash s)
trimmed-IsSlug s h short = record {
  is_clean = clean-trim s h;
  first = (trim_both-Edge is_dash s).0;
  last = (trim_both-Edge is_dash s).1;
  short = omega (arith, short, length-trim s);
}

shorten-IsSlug : (s : Bytes) → clean false s ≡ true → IsSlug (shorten (trim_both is_dash s))
unfolding shorten
shorten-IsSlug s h = elim (Bool-cases (ltb max_name_len (length (trim_both is_dash s)))) [
  | inl long ↦ rw long (
      trimmed-IsSlug (take max_name_len (trim_both is_dash s))
        (clean-take max_name_len (trim_both is_dash s) (clean-trim s h))
        (omega (arith, length-take max_name_len (trim_both is_dash s))))
  | inr short ↦ rw short (record {
    is_clean = clean-trim s h;
    first = (trim_both-Edge is_dash s).0;
    last = (trim_both-Edge is_dash s).1;
    short = ground (arith, short);
  })
]

slugify-IsSlug : (name : Bytes) → IsSlug (slugify name)
unfolding slugify
slugify-IsSlug name =
    shorten-IsSlug (dash_runs false (to_lower (trim_space name)))
      (clean-dash_runs false (to_lower (trim_space name)))

clean_spaceless : (d : Bool) (s : Bytes) → clean d s ≡ true → none_of is_space s ≡ true
unfolding is_space
clean_spaceless d [] h = refl
clean_spaceless d (c ∷ s) h = ground (arith, h, clean_spaceless false s, clean_spaceless true s)

trim_space-clean : (s : Bytes) → clean false s ≡ true → trim_space s ≡ s
unfolding trim_space
trim_space-clean s h =
    let free = clean_spaceless false s h in
    trim_both_fixed is_space s (none_of-Edge is_space s free) (none_of-Edge-reverse is_space s free)

slugify_fixed : (s : Bytes) → IsSlug s → slugify s ≡ s
unfolding slugify shorten
slugify_fixed s slug =
    let trimmed = trim_both_fixed is_dash s slug.first slug.last in
    let short : ltb max_name_len (length s) ≡ false = le→ltb max_name_len (length s) slug.short in
    rw
      (
        trim_space-clean s slug.is_clean,
        to_lower-clean false s slug.is_clean,
        dash_runs-clean false s slug.is_clean,
        trimmed,
        short,
      )
      refl

-- Slugify yields slugs: at most 32 letters, digits and single dashes, with no dash at either end. It
-- leaves exactly these texts as they are, so that a second Slugify changes nothing.
pub slugify_lem : (name : Bytes) → IsSlug (slugify name) × ((slugify name ≡ name) ↔ IsSlug name)
slugify_lem name =
    (slugify-IsSlug name, (λ e. subst IsSlug e (slugify-IsSlug name), slugify_fixed name))
