-- ===== src/Control/Bridge/Restarts.antt =====
-- The network after the daemon has been started again.
use microvm_terminal.Base.{
  ◌≡◌, refl, ap, ◌∙◌, Bool, true, false, ◌||◌, none, List, [], ◌∷◌, ◌++◌, bytes_eq, arith,
}
use microvm_terminal.Base.Map
use microvm_terminal.Base.Text.{bytes-eq, bytes_eq_iff}
use microvm_terminal.Control.Bridge.{
  Rule, Network, Inputs, Commands, rule_eq, has_rule, add_if_missing, masquerade, forward_in,
  forward_out, with_rules, is_there, ensure_bridge, ready, change_link,
}

rule_eq_self : (r : Rule) → rule_eq r r ≡ true
rule_eq_self [] = refl
rule_eq_self (a ∷ xs) = ground (arith, bytes_eq_iff a a, rule_eq_self xs)

has_rule-snoc : (r : Rule) (rules : List Rule) → has_rule r (rules ++ r ∷ []) ≡ true
has_rule-snoc r [] = ground (arith, rule_eq_self r)
has_rule-snoc r (x ∷ xs) = ground (arith, has_rule-snoc r xs)

has_rule-more :
    (r x : Rule) (rules : List Rule) → has_rule r rules ≡ true → has_rule r (rules ++ x ∷ []) ≡ true
has_rule-more r x [] h = absurd (ground (arith, h))
has_rule-more r x (y ∷ ys) h = ground (arith, h, has_rule-more r x ys)

-- A rule that is there stays.
has_rule-add :
    (works : Bool) (r x : Rule) (rules : List Rule)
    → has_rule r rules ≡ true
    → has_rule r (add_if_missing works x rules) ≡ true
unfolding add_if_missing
has_rule-add works r x rules h = ground (arith, h, has_rule-more r x rules)

has_rule-add_self : (r : Rule) (rules : List Rule) → has_rule r (add_if_missing true r rules) ≡ true
unfolding add_if_missing
has_rule-add_self r rules = ground (arith, has_rule-snoc r rules)

add_if_missing_there :
    (works : Bool) (r : Rule) (rules : List Rule)
    → has_rule r rules ≡ true
    → add_if_missing works r rules ≡ rules
unfolding add_if_missing
add_if_missing_there works r rules h = rw h refl

-- All of the rules that a bridge needs are there.
pub record Ruled (i : Inputs) (n : Network) : Type 0 where
  pub nat : has_rule (masquerade i) n.postrouting ≡ true
  pub going_in : has_rule (forward_in i) n.forward ≡ true
  pub going_out : has_rule (forward_out i) n.forward ≡ true

-- The links play no part in the rules.
pub record SameRules (n m : Network) : Type 0 where
  pub postrouting : m.postrouting ≡ n.postrouting
  pub forward : m.forward ≡ n.forward

with_rules-Ruled :
    (c : Commands) (i : Inputs) (n : Network)
    → bytes_eq i.upstream_iface [] ≡ false
    → c.nat_adds ≡ true
    → c.forward_in_adds ≡ true
    → c.forward_out_adds ≡ true
    → ((with_rules c i n).1 ≡ none) × Ruled i (with_rules c i n).0
unfolding with_rules
with_rules-Ruled c i n named nat fin fout =
    let made : has_rule (masquerade i) n.postrouting || true ≡ true = ground arith in
    simp (named, nat, made, fin, fout)
      (
        refl,
        record {
          nat = has_rule-add_self (masquerade i) n.postrouting;
          going_in =
              has_rule-add true (forward_in i) (forward_out i)
                (add_if_missing true (forward_in i) n.forward)
                (has_rule-add_self (forward_in i) n.forward);
          going_out =
              has_rule-add_self (forward_out i) (add_if_missing true (forward_in i) n.forward);
        },
      )

with_rules-again :
    (c : Commands) (i : Inputs) (n : Network)
    → bytes_eq i.upstream_iface [] ≡ false
    → Ruled i n
    → ((with_rules c i n).1 ≡ none) × SameRules n (with_rules c i n).0
unfolding with_rules
with_rules-again c i n named r =
    simp (named, r.nat)
      (
        refl,
        record {
          postrouting = refl;
          forward =
              ap (add_if_missing c.forward_out_adds (forward_out i))
                (add_if_missing_there c.forward_in_adds (forward_in i) n.forward r.going_in)
              ∙ add_if_missing_there c.forward_out_adds (forward_out i) n.forward r.going_out;
        },
      )

-- Every command works.
pub record AllWork (c : Commands) : Type 0 where
  pub link_adds : c.link_adds ≡ true
  pub addr_replaces : c.addr_replaces ≡ true
  pub link_goes_up : c.link_goes_up ≡ true
  pub nat_adds : c.nat_adds ≡ true
  pub forward_in_adds : c.forward_in_adds ≡ true
  pub forward_out_adds : c.forward_out_adds ≡ true

ensure_bridge-rules :
    (c : Commands) (i : Inputs) (n : Network)
    → AllWork c
    → (m : Network) × SameRules n m × (ensure_bridge c i n ≡ with_rules c i m)
unfolding ensure_bridge
ensure_bridge-rules c i n w =
    let made : is_there (Map.lookup i.bridge_name n.links) || true ≡ true = ground arith in
    (
      ready i n,
      unfold change_link in record { postrouting = refl; forward = refl },
      simp (w.link_adds, made, w.addr_replaces, w.link_goes_up) refl,
    )

-- A daemon that is started again, when every command works and the upstream interface is known, finds
-- its rules: the first start puts them where they are missing, and the second adds none, whatever
-- rules were there before.
pub ensure_bridge-again :
    (c : Commands) (i : Inputs) (n : Network)
    → AllWork c
    → bytes_eq i.upstream_iface [] ≡ false
    → let once = ensure_bridge c i n in
      let twice = ensure_bridge c i once.0 in
      (once.1 ≡ none) × (twice.1 ≡ none) × Ruled i once.0 × SameRules once.0 twice.0
ensure_bridge-again c i n w named =
    let (m, same, e) = ensure_bridge-rules c i n w in
    let (fine, ruled) =
      with_rules-Ruled c i m named w.nat_adds w.forward_in_adds w.forward_out_adds in
    let once : Network = (ensure_bridge c i n).0 in
    let ruled' : Ruled i once = rw e ruled in
    let (m', same', e') = ensure_bridge-rules c i once w in
    let ruled'' : Ruled i m' = record {
      nat = rw same'.postrouting ruled'.nat;
      going_in = rw same'.forward ruled'.going_in;
      going_out = rw same'.forward ruled'.going_out;
    } in
    let (fine', kept) = with_rules-again c i m' named ruled'' in
    (
      rw e fine,
      rw e' fine',
      ruled',
      rw e' (record {
        postrouting = kept.postrouting ∙ same'.postrouting;
        forward = kept.forward ∙ same'.forward;
      }),
    )
