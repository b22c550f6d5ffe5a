-- ===== src/Control/Agents/Delivery.antt =====
-- A delivered command is leased to the poll that it answered.
use devion.Prelude.{
  ℕ, ◌+◌, ◌≤◌, String, Bool, true, false, ◌&&◌, ◌||◌, ◌===◌, ◌∈◌, not, ◌≡◌, ap, sym, ◌∙◌, subst,
  inl, inr, List, [], ◌∷◌, any, any-witness, filter, map, mem-filter, mem-append, mem-map, All,
  All-mem, All-of_mem, arith, Bool-cases, ===_iff,
}
use devion.Control.Store.{AgentCommand, Db, update_where}
use devion.Control.Store.Rows.{AllApart, AllApart-mem, All-update_where}
use devion.Control.Env.{Env}
use devion.Control.Agents.{delivery_lease_ms, is_candidate, deliver, deliver_each, poll_commands}

module _ (env : Env) where
  open env use {Json}

  abbrev pub same_command : AgentCommand Json → AgentCommand Json → Bool
  same_command c d = c.id === d.id

  same_command_comm : (c d : AgentCommand Json) → same_command c d ≡ same_command d c
  same_command_comm c d = ground (arith, ===_iff c.id d.id, ===_iff d.id c.id)

  -- A row that a later poll does not find under the identity, and one that it does not find unless
  -- this poll finds it.
  abbrev is_kept_back : ℕ → String → String → AgentCommand Json → Bool
  is_kept_back later node_id id d = not (d.id === id) || not (is_candidate env later node_id d)

  abbrev is_found : ℕ → ℕ → String → String → AgentCommand Json → Bool
  is_found now later node_id id d =
      is_candidate env now node_id d || is_kept_back later node_id id d

  -- Two polls of the node, within the lease.
  module _ (now later : ℕ) (node_id : String) (h : later ≤ now + delivery_lease_ms) where
    deliver-kept_back :
        (id : String) (d : AgentCommand Json)
        → is_kept_back later node_id id (deliver env now d) ≡ true
    deliver-kept_back id d = ground arith

    update-kept_back :
        (id : String) (test : AgentCommand Json → Bool) (commands : List (AgentCommand Json))
        → All (λ d. is_kept_back later node_id id d ≡ true) commands
        → All
            (λ d. is_kept_back later node_id id d ≡ true)
            (update_where test (deliver env now) commands)
    update-kept_back id test commands =
        All-update_where _ test (deliver env now) commands (λ d m t k. deliver-kept_back id d)

    update-found :
        (id : String) (test : AgentCommand Json → Bool) (commands : List (AgentCommand Json))
        → All (λ d. is_found now later node_id id d ≡ true) commands
        → All
            (λ d. is_found now later node_id id d ≡ true)
            (update_where test (deliver env now) commands)
    update-found id test commands =
        All-update_where _ test (deliver env now) commands
          (λ d m t k. let q = deliver-kept_back id d in ground arith)

    -- The delivery of a candidate keeps it back.
    delivered-kept_back :
        (id : String) (commands : List (AgentCommand Json))
        → All (λ d. is_found now later node_id id d ≡ true) commands
        → All
            (λ d. is_kept_back later node_id id d ≡ true)
            (update_where
              (λ d. d.id === id && is_candidate env now node_id d)
              (deliver env now)
              commands)
    delivered-kept_back id [] k = tt
    delivered-kept_back id (d ∷ commands) (q, k) = (
      elim (Bool-cases (d.id === id && is_candidate env now node_id d)) [
        | inl e ↦ rw e (deliver-kept_back id d)
        | inr e ↦ rw e (ground arith)
      ],
      delivered-kept_back id commands k,
    )

    each-kept_back :
        (id : String) (candidates commands : List (AgentCommand Json))
        → All (λ d. is_kept_back later node_id id d ≡ true) commands
        → All
            (λ d. is_kept_back later node_id id d ≡ true)
            (deliver_each env now node_id candidates commands).1
    each-kept_back id [] commands k = k
    each-kept_back id (c ∷ candidates) commands k =
        each-kept_back id candidates _ (update-kept_back id _ commands k)

    each-delivered :
        (c : AgentCommand Json) (candidates commands : List (AgentCommand Json))
        → c ∈ candidates
        → All (λ d. is_found now later node_id c.id d ≡ true) commands
        → All
            (λ d. is_kept_back later node_id c.id d ≡ true)
            (deliver_each env now node_id candidates commands).1
    each-delivered c [] commands m k = absurd m
    each-delivered c (b ∷ candidates) commands (inl e) k =
        subst
          (λ z.
            All (λ d. is_kept_back later node_id z.id d ≡ true)
              (deliver_each env now node_id (b ∷ candidates) commands).1)
          (sym e)
          (each-kept_back b.id candidates _ (
            delivered-kept_back b.id commands
              (subst (λ z. All (λ d. is_found now later node_id z.id d ≡ true) commands) e k)))
    each-delivered c (b ∷ candidates) commands (inr m) k =
        each-delivered c candidates _ m (update-found c.id _ commands k)

  -- What a poll hands out has the identity of a candidate.
  handed_out :
      (now : ℕ) (node_id : String) (candidates commands : List (AgentCommand Json))
      → All
          (λ x. any (λ c. c.id === x.id) candidates ≡ true)
          (deliver_each env now node_id candidates commands).0
  handed_out now node_id [] commands = tt
  handed_out now node_id (c ∷ candidates) commands =
      let test : AgentCommand Json → Bool = λ d. d.id === c.id && is_candidate env now node_id d in
      let rest =
        deliver_each env now node_id candidates (update_where test (deliver env now) commands) in
      All-of_mem _ _ (λ x m.
        elim (mem-append x (map (deliver env now) (filter test commands)) rest.0 m) [
          | inl k ↦
              let (y, i, e) = mem-map (deliver env now) x (filter test commands) k in
              let (j, t) = (mem-filter test y commands).0 i in
              ground (arith, ap (λ z. c.id === z.id) e, ===_iff c.id y.id, ===_iff y.id c.id)
          | inr k ↦
              let q = All-mem _ x rest.0 (handed_out now node_id candidates _) k in ground arith
        ])

  -- Within the lease of five minutes a command that a poll handed out is not handed out by another
  -- poll of the node.
  pub poll_commands_leased :
      (now later : ℕ) (node_id : String) (db : Db Json) (x y : AgentCommand Json)
      → later ≤ now + delivery_lease_ms
      → AllApart same_command db.commands
      → x ∈ (poll_commands env now node_id db).0
      → y ∈ (poll_commands env later node_id (poll_commands env now node_id db).1).0
      → (x.id === y.id) ≡ false
  unfolding poll_commands
  poll_commands_leased now later node_id db x y h apart m n =
      let found = filter (is_candidate env now node_id) db.commands in
      let after = (deliver_each env now node_id found db.commands).1 in
      let again = filter (is_candidate env later node_id) after in
      let (c, i, p) =
        any-witness (λ c. c.id === x.id) found
          (All-mem _ x _ (handed_out now node_id found db.commands) m) in
      let (d, j, q) =
        any-witness (λ d. d.id === y.id) again
          (All-mem _ y _ (handed_out later node_id again after) n) in
      let (k, r) = (mem-filter (is_candidate env later node_id) d after).0 j in
      let (l, s) = (mem-filter (is_candidate env now node_id) c db.commands).0 i in
      let all : All (λ z. is_found now later node_id c.id z ≡ true) db.commands =
        All-of_mem _ db.commands (λ z o. elim (Bool-cases (z.id === c.id)) [
          | inl e ↦
              let w : z ≡ c =
                AllApart-mem same_command same_command_comm db.commands z c apart o l e in
              let u : is_candidate env now node_id z ≡ true =
                ap (is_candidate env now node_id) w ∙ s in
              ground arith
          | inr e ↦ ground arith
        ]) in
      let kept =
        All-mem _ d after (each-delivered now later node_id h c found db.commands i all) k in
      ground (arith, ===_iff x.id y.id, ===_iff c.id x.id, ===_iff d.id y.id, ===_iff d.id c.id)
