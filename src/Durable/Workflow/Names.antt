-- ===== src/Durable/Workflow/Names.antt =====
-- About the names of the nodes in the builder of packages/durable/src/durable_workflow.ts, and the
-- names of workflow_registry.ts.
use strav_1_x.Common.{
  ℕ, zero, suc, String, Bool, false, ◌≡◌, refl, Option, none, some, List, [], ◌∷◌, ◌++◌, Result,
  throws, str_eq, eq_iff, eq_refl, if◌then◌else◌, includes, get_elem?, arith, inl, inr, some_inj,
  includes-append, Bool-cases,
}
use mathlib.Core.Path.{subst}
use strav_1_x.Common.Dict.{Dict, lookup, lookup-insert}
use strav_1_x.Durable.Types.{Json, Span, Call, DurableContext, DurableNode, name_of}
use strav_1_x.Durable.Runner.{find_node}
use strav_1_x.Durable.Workflow.{
  DurableWorkflow, RetryOptions, claim, push, after_claim, push_if_branches, add_step, add_sleep,
  add_wait_for_signal, add_parallel, add_route, add_loop, add_child_workflow, Registry, register,
  step_node, sleep_node, wait_for_signal_node, parallel_node, route_node, loop_node,
  child_workflow_node, no_branches,
}

module _ {W : Type 0} where
  -- One call of the builder, whether it throws or not.
  pub data Built (name : String) : DurableWorkflow W → Type 0 where
    new : Built name (record { name = name; nodes = []; names = [] })
    steps :
        {wf : DurableWorkflow W} (n : String) (h : Call W (Option Json))
        (c : Option (Call W (Unit {0}))) (o : RetryOptions)
        → Built name wf
        → Built name (add_step n h c o wf).1
    sleeps :
        {wf : DurableWorkflow W} (n : String) (d : Call W Span)
        → Built name wf
        → Built name (add_sleep n d wf).1
    waits :
        {wf : DurableWorkflow W} (n : String) (s : DurableContext → Result String String)
        → Built name wf
        → Built name (add_wait_for_signal n s wf).1
    parallels :
        {wf : DurableWorkflow W} (n : String) (b : Dict (Call W (Option Json))) (o : RetryOptions)
        → Built name wf
        → Built name (add_parallel n b o wf).1
    routes :
        {wf : DurableWorkflow W} (n : String) (s : Call W String) (b : Dict (Call W (Option Json)))
        (o : RetryOptions)
        → Built name wf
        → Built name (add_route n s b o wf).1
    loops :
        {wf : DurableWorkflow W} (n : String) (c : ℕ → Call W Bool) (b : ℕ → Call W (Option Json))
        (m : Option ℕ) (o : RetryOptions)
        → Built name wf
        → Built name (add_loop n c b m o wf).1
    children :
        {wf : DurableWorkflow W} (n : String) (s : Call W (String × Dict Json)) (p : Option ℕ)
        → Built name wf
        → Built name (add_child_workflow n s p wf).1

  -- No node's name is that of a later one.
  abbrev pub IsDistinct : List (DurableNode W) → Type 0
  IsDistinct [] = Unit
  IsDistinct (n ∷ ns) = (find_node (name_of n) ns ≡ none) × IsDistinct ns

  -- The names of the nodes are claimed, each once.
  record IsClaimed (wf : DurableWorkflow W) : Type 0 where
    distinct : IsDistinct wf.nodes
    claimed : (name : String) → includes name wf.names ≡ false → find_node name wf.nodes ≡ none

  -- Of two nodes with a name the later one is found.
  find_node-append :
      (name : String) (ns : List (DurableNode W)) (n : DurableNode W)
      → find_node name (ns ++ n ∷ [])
        ≡ (if str_eq (name_of n) name then some n else find_node name ns)
  unfolding find_node
  find_node-append name [] n = refl
  find_node-append name (m ∷ ns) n = ground (arith, find_node-append name ns n)

  IsDistinct-append :
      (ns : List (DurableNode W)) (n : DurableNode W)
      → IsDistinct ns
      → find_node (name_of n) ns ≡ none
      → IsDistinct (ns ++ n ∷ [])
  unfolding find_node
  IsDistinct-append [] n d h = (refl, tt)
  IsDistinct-append (m ∷ ns) n (fresh, d) h = (
    ground (
      arith,
      fresh,
      h,
      find_node-append (name_of m) ns n,
      eq_iff (name_of n) (name_of m),
      eq_iff (name_of m) (name_of n),
    ),
    IsDistinct-append ns n d (ground (arith, h)),
  )

  find_node-IsDistinct :
      (ns : List (DurableNode W)) (i : ℕ) (n : DurableNode W)
      → IsDistinct ns
      → get_elem? ns i ≡ some n
      → find_node (name_of n) ns ≡ some n
  unfolding find_node
  find_node-IsDistinct [] i n d at = absurd cc
  find_node-IsDistinct (m ∷ ns) zero n (fresh, d) at =
      subst (λ k. find_node (name_of k) (m ∷ ns) ≡ some k) (some_inj at)
        (rw (fresh, eq_refl (name_of m)) refl)
  find_node-IsDistinct (m ∷ ns) (suc i) n (fresh, d) at = rw (find_node-IsDistinct ns i n d at) refl

  push-IsClaimed :
      (wf : DurableWorkflow W) (n : DurableNode W)
      → IsClaimed wf
      → IsClaimed (after_claim (push n) (claim (name_of n) wf)).1
  unfolding claim
  push-IsClaimed wf n c = elim (Bool-cases (str_eq (name_of n) "")) [
    | inl e ↦ rw (e, claim) c
    | inr e ↦ elim (Bool-cases (includes (name_of n) wf.names)) [
      | inl old ↦ rw (e, old, claim) c
      | inr fresh ↦
          rw (e, fresh, claim)
            (record {
              distinct = IsDistinct-append wf.nodes n c.distinct (c.claimed (name_of n) fresh);
              claimed = λ name h. ground (
                arith,
                h,
                c.claimed name,
                find_node-append name wf.nodes n,
                includes-append name wf.names (name_of n ∷ []),
              );
            })
    ]
  ]

  claim-IsClaimed :
      (wf : DurableWorkflow W) (name : String)
      → IsClaimed wf
      → IsClaimed (after_claim (λ w. (throws no_branches, w)) (claim name wf)).1
  unfolding claim
  claim-IsClaimed wf name c = record {
    distinct = ground (arith, c.distinct);
    claimed = λ k h. ground (arith, h, c.claimed k, includes-append k wf.names (name ∷ []));
  }

  branches-IsClaimed :
      (wf : DurableWorkflow W) (n : DurableNode W) (b : Dict (Call W (Option Json)))
      → IsClaimed wf
      → IsClaimed (after_claim (push_if_branches b n) (claim (name_of n) wf)).1
  branches-IsClaimed wf n [] c = claim-IsClaimed wf (name_of n) c
  branches-IsClaimed wf n (b ∷ bs) c = push-IsClaimed wf n c

  Built-IsClaimed : {name : String} {wf : DurableWorkflow W} → Built name wf → IsClaimed wf
  unfolding find_node add_step add_sleep add_wait_for_signal add_parallel add_route add_loop
      add_child_workflow
  Built-IsClaimed new = record { distinct = tt; claimed = λ k h. refl }
  Built-IsClaimed (steps n h c o b) = push-IsClaimed _ (step_node n h c o) (Built-IsClaimed b)
  Built-IsClaimed (sleeps n d b) = push-IsClaimed _ (sleep_node n d) (Built-IsClaimed b)
  Built-IsClaimed (waits n s b) = push-IsClaimed _ (wait_for_signal_node n s) (Built-IsClaimed b)
  Built-IsClaimed (parallels n bs o b) =
      branches-IsClaimed _ (parallel_node n bs o) bs (Built-IsClaimed b)
  Built-IsClaimed (routes n s bs o b) =
      branches-IsClaimed _ (route_node n s bs o) bs (Built-IsClaimed b)
  Built-IsClaimed (loops n c d m o b) = push-IsClaimed _ (loop_node n c d m o) (Built-IsClaimed b)
  Built-IsClaimed (children n s p b) =
      push-IsClaimed _ (child_workflow_node n s p) (Built-IsClaimed b)

  -- In a workflow that the builder made, by calls that returned or threw, the node at each place is
  -- the one that a roll back finds by its name.
  pub Built-find_node :
      {name : String} {wf : DurableWorkflow W} (i : ℕ) (n : DurableNode W)
      → Built name wf
      → get_elem? wf.nodes i ≡ some n
      → find_node (name_of n) wf.nodes ≡ some n
  Built-find_node {name} {wf} i n b at =
      find_node-IsDistinct wf.nodes i n (Built-IsClaimed b).distinct at

  -- After `register` a name leads to the workflow that was registered first under it: a workflow is
  -- added under its name if that is free, and every other name leads where it led.
  lookup-register :
      (wf : DurableWorkflow W) (name : String) (registry : Registry W)
      → lookup name (register wf registry).1 ≡ elim (lookup name registry) [
        | some old ↦ some old
        | none ↦ if str_eq wf.name name then some wf else none
      ]
  unfolding register
  lookup-register wf name registry =
      ground (arith, lookup-insert wf.name name wf registry, eq_iff wf.name name)
