-- ===== src/Control/Jailer/Passwd.antt =====
-- The line that getent prints for a user, read by lookupUser.
use microvm_terminal.Base.{
  ℕ, ◌≡◌, ◌<◌, refl, ap, ◌∙◌, Bool, true, false, some, List, [], ◌∷◌, ◌++◌, Bytes, nat_eq, length,
  ltb, arith,
}
use microvm_terminal.Base.Decimal.{decimal}
use microvm_terminal.Base.Int64.{pos, int64_half}
use microvm_terminal.Base.Numerals.{parse_int-decimal, decimal-all_digits, all_digits}
use microvm_terminal.Base.Result.{ok}
use microvm_terminal.Base.Split.{split}
use microvm_terminal.Base.Trim.{none_of}
use microvm_terminal.Control.Jailer.{ids_in, lookup_user}
use microvm_terminal.Control.Jailer.Split.{split_colon-split}

abbrev pub is_colon : ℕ → Bool
is_colon c = nat_eq c b':'

split-word :
    (w rest : Bytes)
    → none_of is_colon w ≡ true
    → split b':' (w ++ b':' ∷ rest) ≡ w ∷ split b':' rest
unfolding split
split-word [] rest h = refl
split-word (c ∷ w) rest h =
    let miss : nat_eq c b':' ≡ false = ground (arith, h) in
    let tail : none_of is_colon w ≡ true = ground (arith, h) in
    rw (miss, split-word w rest tail) refl

digits_no_colon : (s : Bytes) → all_digits s ≡ true → none_of is_colon s ≡ true
digits_no_colon [] h = refl
digits_no_colon (c ∷ s) h = ground (arith, h, digits_no_colon s)

ids_in-parts :
    (name password : Bytes) (uid gid : ℕ) (more : List Bytes)
    → uid < int64_half
    → gid < int64_half
    → ids_in (name ∷ password ∷ decimal uid ∷ decimal gid ∷ more) ≡ ok (pos uid, pos gid)
ids_in-parts name password uid gid more u g =
    let long : ltb (length (name ∷ password ∷ decimal uid ∷ decimal gid ∷ more)) 4 ≡ false =
      ground arith in
    rw (long, parse_int-decimal uid u, parse_int-decimal gid g) refl

-- The ids of a user are read back from the line that getent prints for it, whatever stands behind
-- them: for a name and a password without a colon, and ids below 2 ^ 63.
pub lookup_user-passwd :
    (name password : Bytes) (uid gid : ℕ) (more : Bytes)
    → none_of is_colon name ≡ true
    → none_of is_colon password ≡ true
    → uid < int64_half
    → gid < int64_half
    → lookup_user (
        some (
          name ++ b':' ∷ (password ++ b':' ∷ (decimal uid ++ b':' ∷ (decimal gid ++ b':' ∷ more)))))
      ≡ ok (pos uid, pos gid)
unfolding lookup_user
lookup_user-passwd name password uid gid more n p u g =
    let free : (k : ℕ) → none_of is_colon (decimal k) ≡ true =
      λ k. digits_no_colon (decimal k) (decimal-all_digits k) in
    let parts =
      split_colon-split
        (name ++ b':' ∷ (password ++ b':' ∷ (decimal uid ++ b':' ∷ (decimal gid ++ b':' ∷ more))))
      ∙ split-word name _ n
      ∙ ap (◌∷◌ name) (
          split-word password _ p
          ∙ ap (◌∷◌ password) (
              split-word (decimal uid) _ (free uid)
              ∙ ap (◌∷◌ (decimal uid)) (split-word (decimal gid) more (free gid)))) in
    ap ids_in parts ∙ ids_in-parts name password uid gid (split b':' more) u g
