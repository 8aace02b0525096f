-- ===== src/Control/Jailer/Split.antt =====
-- The splitting loop of jailer.go is strings.Split.
use microvm_terminal.Base.{
  ℕ, ◌+◌, ◌-◌, ◌≡◌, refl, sym, ap, ◌∙◌, List, [], ◌∷◌, ◌++◌, append-nil, append_assoc, length,
  length-append, take, drop, Bytes, nat_eq, inl, inr, arith,
}
use microvm_terminal.Base.Lists.{drop-length-append}
use microvm_terminal.Base.Split.{split, onto_first}
use microvm_terminal.Base.Tests.{Bool-cases}
use microvm_terminal.Control.Jailer.{split_loop, split_colon}

abbrev onto : Bytes → List Bytes → List Bytes
onto cur [] = cur ∷ []
onto cur (p ∷ ps) = (cur ++ p) ∷ ps

onto-onto_first :
    (cur : Bytes) (c : ℕ) (ps : List Bytes) → onto (cur ++ c ∷ []) ps ≡ onto cur (onto_first c ps)
onto-onto_first cur c [] = refl
onto-onto_first cur c (p ∷ ps) = ap (λ q. q ∷ ps) (append_assoc cur (c ∷ []) p)

onto_some : (c : ℕ) (ps : List Bytes) → onto [] (onto_first c ps) ≡ onto_first c ps
onto_some c [] = refl
onto_some c (p ∷ ps) = refl

onto-split : (sep : ℕ) (s : Bytes) → onto [] (split sep s) ≡ split sep s
unfolding split
onto-split sep [] = refl
onto-split sep (c ∷ cs) = elim (Bool-cases (nat_eq c sep)) [
  | inl hit ↦ rw hit refl
  | inr miss ↦ rw miss (onto_some c (split sep cs))
]

take-length-append : (cur xs : Bytes) → take (length cur) (cur ++ xs) ≡ cur
take-length-append [] xs = refl
take-length-append (c ∷ cur) xs = ap (◌∷◌ c) (take-length-append cur xs)

part_between :
    (before cur rest s : Bytes) (start i : ℕ)
    → s ≡ before ++ (cur ++ rest)
    → start ≡ length before
    → i ≡ length before + length cur
    → take (i - start) (drop start s) ≡ cur ++ []
part_between before cur rest s start i e es ei =
    let n : i - start ≡ length cur = omega (arith, es, ei) in
    rw (n, e, es, drop-length-append before (cur ++ rest), take-length-append cur rest)
      (sym (append-nil cur))

-- The part between `start` and `i` is `cur`.
split_loop-onto :
    (rest before cur s : Bytes) (start i : ℕ)
    → s ≡ before ++ (cur ++ rest)
    → start ≡ length before
    → i ≡ length before + length cur
    → split_loop s start i rest ≡ onto cur (split b':' rest)
unfolding split_loop split
split_loop-onto [] before cur s start i e es ei =
    rw (es, e, drop-length-append before (cur ++ [])) refl
split_loop-onto (c ∷ cs) before cur s start i e es ei = elim (Bool-cases (nat_eq c b':')) [
  | inl hit ↦
      let at = before ++ (cur ++ c ∷ []) in
      let e' : s ≡ at ++ cs =
        e
        ∙ ap (◌++◌ before) (sym (append_assoc cur (c ∷ []) cs))
        ∙ sym (append_assoc before (cur ++ c ∷ []) cs) in
      let n : i + 1 ≡ length at =
        omega (arith, ei, length-append before (cur ++ c ∷ []), length-append cur (c ∷ [])) in
      let rest =
        split_loop-onto cs at [] s (i + 1) (i + 1) e' n (omega (arith, n)) ∙ onto-split b':' cs in
      rw (hit, part_between before cur (c ∷ cs) s start i e es ei, rest) refl
  | inr miss ↦ rw miss (
      split_loop-onto cs before (cur ++ c ∷ []) s start (i + 1)
        (e ∙ ap (◌++◌ before) (sym (append_assoc cur (c ∷ []) cs))) es
        (omega (arith, ei, length-append cur (c ∷ [])))
      ∙ onto-onto_first cur c (split b':' cs))
]

-- The loop yields the parts of the text between its colons.
pub split_colon-split : (s : Bytes) → split_colon s ≡ split b':' s
unfolding split_colon
split_colon-split s = split_loop-onto s [] [] s 0 0 refl refl refl ∙ onto-split b':' s
