-- ===== src/Base/Fields.antt =====
-- strings.Fields and strings.TrimPrefix. White space is that of ASCII.
use Prim.Native.Nat.{ℕ}
use mathlib.Core.Path.{◌≡◌, refl, sym, ap, ◌∙◌}
use mathlib.Core.Logic.{◌≢◌}
use mathlib.Core.Bool.{true, false}
use mathlib.Core.List.{List, [], ◌∷◌, ◌++◌, append_assoc, append-nil}
use native.Mathlib.Omega.{arith}
use microvm_terminal.Base.Tests.{if◌then◌else◌}
use microvm_terminal.Base.Lists.{length, drop, drop-length-append}
use microvm_terminal.Base.Text.{Bytes}
use microvm_terminal.Base.Trim.{is_space, has_prefix, none_of}

abbrev pub end_word : Bytes → List Bytes → List Bytes
end_word [] words = words
end_word (c ∷ cs) words = (c ∷ cs) ∷ words

-- The words of a text whose first word has begun with `word`.
unfoldable pub fields_from : Bytes → Bytes → List Bytes
fields_from word [] = end_word word []
fields_from word (c ∷ cs) =
    let inside = fields_from (word ++ c ∷ []) cs in
    let next = end_word word (fields_from [] cs) in if is_space c then next else inside

unfoldable pub fields : Bytes → List Bytes
fields s = fields_from [] s

unfoldable pub trim_prefix : Bytes → Bytes → Bytes
trim_prefix s prefix = if has_prefix s prefix then drop (length prefix) s else s

end_word_ne : (w : Bytes) (ws : List Bytes) → w ≢ [] → end_word w ws ≡ w ∷ ws
end_word_ne [] ws h = absurd (h refl)
end_word_ne (c ∷ w) ws h = refl

fields_from-word :
    (cur w rest : Bytes)
    → none_of is_space w ≡ true
    → fields_from cur (w ++ rest) ≡ fields_from (cur ++ w) rest
unfolding fields_from
fields_from-word cur [] rest h = ap (λ x. fields_from x rest) (sym (append-nil cur))
fields_from-word cur (c ∷ w) rest h =
    let seen : is_space c ≡ false = ground (arith, h) in
    rw seen (
      fields_from-word (cur ++ c ∷ []) w rest (ground (arith, h))
      ∙ ap (λ x. fields_from x rest) (append_assoc cur (c ∷ []) w))

-- A word with white space behind it.
pub fields-word :
    (w rest : Bytes) (c : ℕ)
    → none_of is_space w ≡ true
    → w ≢ []
    → is_space c ≡ true
    → fields (w ++ c ∷ rest) ≡ w ∷ fields rest
unfolding fields fields_from
fields-word w rest c free some_word space =
    fields_from-word [] w (c ∷ rest) free ∙ rw space (end_word_ne w (fields_from [] rest) some_word)

pub has_prefix-append : (p s : Bytes) → has_prefix (p ++ s) p ≡ true
unfolding has_prefix
has_prefix-append [] s = refl
has_prefix-append (c ∷ p) s = ground (arith, has_prefix-append p s)

pub trim_prefix-append : (p s : Bytes) → trim_prefix (p ++ s) p ≡ s
unfolding trim_prefix
trim_prefix-append p s = rw (has_prefix-append p s) (drop-length-append p s)
