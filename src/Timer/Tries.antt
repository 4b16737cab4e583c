-- ===== src/Timer/Tries.antt =====
-- How many time-outs the delta list can still make: each node asks again once, and is then given up.
use cs489_router.Prelude.{
  ℕ, zero, suc, ◌+◌, ◌-◌, ◌^◌, ◌%◌, ◌<◌, ◌≤◌, ◌≡◌, refl, sym, ap, ◌∙◌, inl, inr, true, false,
  Option, none, some, List, [], ◌∷◌, ◌++◌, if◌then◌else◌, Bool-cases, leb, ◌==◌, ≢→==, length,
  arith,
}
use mathlib.Core.Path.{subst}
use native.Mathlib.Nat.{le_refl, le_trans}
use cs489_router.Interfaces.{get_interface_for_ip}
use cs489_router.State.{DeltaNode, Router, OnSuccess, bind-OnSuccess, any-OnSuccess}
use cs489_router.Timer.{
  total_time, rest_of_second, resend, give_up, expire_node, expire_list, expire, zero_first,
  set_timer, timer_handler,
}

-- The time-outs of a list: two for a node that has not asked again, one for the others.
unfoldable pub tries : List DeltaNode → ℕ
tries [] = 0
tries (node ∷ rest) = let more = tries rest in if leb 1 node.retry_amt then 1 + more else 2 + more

tries-append : (list more : List DeltaNode) → tries (list ++ more) ≡ tries list + tries more
unfolding tries
tries-append [] more = omega arith
tries-append (node ∷ rest) more = elim (Bool-cases (leb 1 node.retry_amt)) [
  | inl old ↦ rw old (omega (arith, tries-append rest more))
  | inr first ↦ rw first (omega (arith, tries-append rest more))
]

tries_old :
    (node : DeltaNode) (rest : List DeltaNode)
    → leb 1 node.retry_amt ≡ true
    → tries (node ∷ rest) ≡ 1 + tries rest
unfolding tries
tries_old node rest old = rw old

tries_first :
    (node : DeltaNode) (rest : List DeltaNode)
    → leb 1 node.retry_amt ≡ false
    → tries (node ∷ rest) ≡ 2 + tries rest
unfolding tries
tries_first node rest first = rw first

tries_nil : tries [] ≡ 0
unfolding tries
tries_nil = refl

-- The node that has asked again, behind the others.
tries_again :
    (node : DeltaNode) (rest : List DeltaNode)
    → node.retry_amt ≡ 1
    → tries (rest ++ (node ∷ [])) ≡ 1 + tries rest
tries_again node rest asked =
    tries-append rest (node ∷ []) ∙ omega (arith, tries_old node [] (rw asked), tries_nil)

tries_positive : (node : DeltaNode) (rest : List DeltaNode) → 0 < tries (node ∷ rest)
unfolding tries
tries_positive node rest = ground arith

-- A router whose list has at most so many time-outs left.
abbrev AtMost : ℕ → Router → Type 0
AtMost n r = tries r.delta_list ≤ n

expire_node-AtMost :
    (n : ℕ) (r : Router) (node : DeltaNode) (rest : List DeltaNode)
    → tries (node ∷ rest) ≤ suc n
    → OnSuccess (AtMost n) (expire_node r node rest)
unfolding expire_node resend give_up tries
expire_node-AtMost n r node rest le = elim (Bool-cases (leb 1 node.retry_amt)) [
  | inl old ↦ rw old (omega (arith, le, tries_old node rest old))
  | inr first ↦ rw first (
      any-OnSuccess (AtMost n) (get_interface_for_ip r.interfaces node.ip_addr) _ (λ int_id. omega (
        arith,
        le,
        tries_first node rest first,
        tries_again
            (record node {
              msec = rest_of_second (total_time rest);
              retry_amt = (node.retry_amt + 1) % 2 ^ 8;
            })
            rest (ground (arith, first)),
      )))
]

abbrev weaker :
    (n m : ℕ) (o : Option Router) → n ≤ m → OnSuccess (AtMost n) o → OnSuccess (AtMost m) o
weaker n m none le h = tt
weaker n m (some r) le h = le_trans h le

module _ (n : ℕ) (again : Router → Option Router)
    (shrinks : (r : Router) → OnSuccess (AtMost (tries r.delta_list)) (again r)) where
  -- The first node's time is up, so there is one time-out less.
  expire_first-AtMost :
      (r : Router) (node : DeltaNode) (rest : List DeltaNode)
      → (node.msec == 0) ≡ true
      → tries (node ∷ rest) ≤ suc n
      → OnSuccess (AtMost n) (expire_list again (node ∷ rest) r)
  unfolding expire_list
  expire_first-AtMost r node rest now le = rw now (
      bind-OnSuccess (AtMost n) (AtMost n) (expire_node r node rest) again
        (expire_node-AtMost n r node rest le) (λ r' less. weaker _ n (again r') less (shrinks r')))

expire_list-AtMost :
    (again : Router → Option Router) (list : List DeltaNode) (r : Router)
    → ((r' : Router) → OnSuccess (AtMost (tries r'.delta_list)) (again r'))
    → r.delta_list ≡ list
    → OnSuccess (AtMost (tries list)) (expire_list again list r)
unfolding expire_list
expire_list-AtMost again [] r shrinks e = rw e (le_refl (tries []))
expire_list-AtMost again (node ∷ rest) r shrinks e = elim (Bool-cases (node.msec == 0)) [
  | inr wait ↦ rw wait (rw e (le_refl (tries (node ∷ rest))))
  | inl now ↦
      weaker (tries (node ∷ rest) - 1) (tries (node ∷ rest)) (expire_list again (node ∷ rest) r)
        (omega arith)
        (expire_first-AtMost (tries (node ∷ rest) - 1) again shrinks r node rest now (omega arith))
]

expire-AtMost : (fuel : ℕ) (r : Router) → OnSuccess (AtMost (tries r.delta_list)) (expire fuel r)
unfolding expire
expire-AtMost zero r = tt
expire-AtMost (suc fuel) r =
    expire_list-AtMost (expire fuel) r.delta_list r (expire-AtMost fuel) refl

-- A call of `timer_handler` uses up a time-out.
pub timer_handler-AtMost :
    (r : Router)
    → 0 < length r.delta_list
    → OnSuccess (λ (r' : Router). tries r'.delta_list < tries r.delta_list) (timer_handler r)
unfolding timer_handler set_timer expire zero_first
timer_handler-AtMost r busy = rw (≢→== (length r.delta_list) 0 (λ e. absurd (omega arith))) (
    bind-OnSuccess Fewer Fewer (expire_list again (zero_first r.delta_list) start) _
      (split r.delta_list refl) (λ r' less. less))
  where
    again : Router → Option Router
    again = expire (length r.delta_list)

    start : Router
    start = record r { delta_list = zero_first r.delta_list }

    Fewer : Router → Type 0
    Fewer r' = tries r'.delta_list < tries r.delta_list

    strict :
        (n : ℕ) (o : Option Router)
        → suc n ≤ tries r.delta_list
        → OnSuccess (AtMost n) o
        → OnSuccess Fewer o
    strict n none le h = tt
    strict n (some r') le h = omega (arith, le, h)

    split :
        (list : List DeltaNode)
        → r.delta_list ≡ list
        → OnSuccess Fewer (expire_list again (zero_first r.delta_list) start)
    split [] e = absurd (omega (arith, ap length e))
    split (node ∷ rest) e =
        strict (tries (node ∷ rest) - 1) (expire_list again (zero_first r.delta_list) start)
          (omega (arith, ap tries e, tries_positive node rest))
          (subst (λ l. OnSuccess (AtMost (tries (node ∷ rest) - 1)) (expire_list again l start))
            (sym (ap zero_first e))
            (expire_first-AtMost (tries (node ∷ rest) - 1) again
              (expire-AtMost (length r.delta_list)) start (record node { msec = 0 }) rest refl
              (unfold tries in omega arith)))
