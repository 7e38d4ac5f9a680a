-- ===== src/Builder/Runner/Invariants.antt =====
-- A rule for runs: what each step needs and keeps, from its place in the list.
use packer_plugin_cloud_hype.Prelude.{String, ◌≡◌, ◌⊎◌, List, [], ◌∷◌}
use packer_plugin_cloud_hype.Runtime.{Platform, continue, Machine, Step}
use packer_plugin_cloud_hype.Builder.Runner.{
  mark, Marked, unmarked, marked, Runs, finished, stopped, ended, went_on,
}

module _ ⦃P : Platform⦄ where
  -- A predicate that the runner's marks keep.
  abbrev pub MarkProof : (Machine → Type 0) → Type 0
  MarkProof J = (k : String) (w : Machine) → (k ≡ "cancelled") ⊎ (k ≡ "halted") → J w → J (mark k w)

  pub Marked-keeps : (J : Machine → Type 0) → MarkProof J → {w v : Machine} → Marked w v → J w → J v
  Marked-keeps J proof (unmarked e) h = rw e h
  Marked-keeps J proof (marked {u = u} k is_mark m e) h =
      rw e (proof k u is_mark (Marked-keeps J proof m h))

  -- One step between two predicates. `J` holds at every end; `pre` before the step, and `next`
  -- before the one behind it.
  pub record Link (J pre next : Machine → Type 0) (s : Step) : Type 0 where
    pub stays : (w : Machine) → pre w → J (s.run w).1
    pub leads : (w : Machine) → pre w → (s.run w).0 ≡ continue → next (s.run w).1
    pub cleans : (w : Machine) → J w → J (s.cleanup w)

  -- A step that only runs behind what `pre` says, whose cleanup may rely on what its run has left:
  -- `inner` holds at every end between the two, and `J` behind the cleanup.
  pub record Nested (J inner pre next : Machine → Type 0) (s : Step) : Type 0 where
    pub stays : (w : Machine) → pre w → inner (s.run w).1
    pub leads : (w : Machine) → pre w → (s.run w).0 ≡ continue → next (s.run w).1
    pub cleans : (w : Machine) → inner w → J (s.cleanup w)

  pub data Chain : (Machine → Type 0) → (Machine → Type 0) → List Step → Type 1 where
    nil : {J pre : Machine → Type 0} → ((w : Machine) → pre w → J w) → Chain J pre []
    link :
        {J pre next : Machine → Type 0} {s : Step} {rest : List Step}
        → MarkProof next
        → ((w : Machine) → pre w → J w)
        → Link J pre next s
        → Chain J next rest
        → Chain J pre (s ∷ rest)
    nest :
        {J inner pre next : Machine → Type 0} {s : Step} {rest : List Step}
        → MarkProof inner
        → MarkProof next
        → ((w : Machine) → pre w → J w)
        → Nested J inner pre next s
        → Chain inner next rest
        → Chain J pre (s ∷ rest)

  Chain-weaken :
      {J pre : Machine → Type 0} {steps : List Step}
      → Chain J pre steps
      → (w : Machine) → pre w
      → J w
  Chain-weaken (nil weak) w h = weak w h
  Chain-weaken (link _ weak _ _) w h = weak w h
  Chain-weaken (nest _ _ weak _ _) w h = weak w h

  Runs-holds :
      {steps : List Step} {w v : Machine}
      → Runs steps w v
      → {J : Machine → Type 0} → MarkProof J
      → {pre : Machine → Type 0} → Chain J pre steps
      → pre w
      → J v
  Runs-holds (finished {w = w} m) {J} proof chain h =
      Marked-keeps J proof m (Chain-weaken chain w h)
  Runs-holds (stopped {w = w} m) {J} proof chain h = Marked-keeps J proof m (Chain-weaken chain w h)
  Runs-holds (ended {w = w} {u = u} m e) {J} proof (link _ _ l _) h =
      rw e (l.cleans u (Marked-keeps J proof m (l.stays w h)))
  Runs-holds (went_on {w = w} {t = t} c m r e) {J} proof (link {next = next} next_proof _ l chain)
        h =
      rw e (l.cleans t (Runs-holds r proof chain (Marked-keeps next next_proof m (l.leads w h c))))
  Runs-holds (ended {w = w} {u = u} m e) proof (nest {inner = inner} inner_proof _ _ l _) h =
      rw e (l.cleans u (Marked-keeps inner inner_proof m (l.stays w h)))
  Runs-holds (went_on {w = w} {t = t} c m r e) proof
        (nest {next = next} inner_proof next_proof _ l chain) h =
      rw e (
        l.cleans t
          (Runs-holds r inner_proof chain (Marked-keeps next next_proof m (l.leads w h c))))

  -- What a chain keeps holds after every run.
  pub Runs-keeps :
      {J : Machine → Type 0} {steps : List Step} {w v : Machine}
      → MarkProof J
      → Runs steps w v
      → {pre : Machine → Type 0} → Chain J pre steps
      → pre w
      → J v
  Runs-keeps proof runs chain h = Runs-holds runs proof chain h
