-- ===== src/Control/Deployments/Claims/Affinity.antt =====
-- A claim that sends the placement to another node is final: a placement on that node is kept.
use devion.Prelude.{
  String, ◌≡◌, refl, sym, ap, ◌∙◌, inl, inr, Bool, false, ◌&&◌, ◌||◌, not, some, List, [], ◌∷◌,
  ◌===◌, ===_iff, filter, All, is_some, Bool-cases, Option-cases, arith, subst,
}
use devion.Core.Contracts.{WorkloadRequirements}
use devion.Control.Store.{VolumeStatus, Volume, Db, update_where}
use devion.Control.Env.{Env}
use devion.Control.Deployments.Claims.{
  has_text, node_ids, volumes_in, bind_volumes, require_node, moved, kept, set_requirements,
  after_claim, claim_volumes,
}

abbrev pub is_unbound : List String → Volume → Bool
is_unbound ids v = has_text ids v.id && not (is_some v.node_id)

abbrev bind : String → Volume → Volume
bind node_id v = record v { node_id = some node_id; status = VolumeStatus.in_use }

-- Every volume of the list with one of the identifiers is bound.
abbrev pub AllBound : List String → List Volume → Type 0
AllBound ids = All (λ v. is_unbound ids v ≡ false)

bind-AllBound :
    (ids : List String) (node_id : String) (vs : List Volume)
    → AllBound ids (update_where (is_unbound ids) (bind node_id) vs)
bind-AllBound ids node_id [] = tt
bind-AllBound ids node_id (v ∷ vs) = (ground arith, bind-AllBound ids node_id vs)

bind_of_AllBound :
    (ids : List String) (node_id : String) (vs : List Volume)
    → AllBound ids vs
    → update_where (is_unbound ids) (bind node_id) vs ≡ vs
bind_of_AllBound ids node_id [] h = refl
bind_of_AllBound ids node_id (v ∷ vs) (f, h) =
    rw f (ap (λ l. v ∷ l) (bind_of_AllBound ids node_id vs h))

node_ids_nonempty : (vs : List Volume) → All (λ i. (i === "") ≡ false) (node_ids vs)
unfolding node_ids
node_ids_nonempty [] = tt
node_ids_nonempty (v ∷ vs) = elim (Option-cases v.node_id) [
  | inl e ↦ rw (e, node_ids) (node_ids_nonempty vs)
  | inr (i, e) ↦
      rw (e, node_ids)
        (elim (Bool-cases (i === "" || has_text (node_ids vs) i)) [
          | inl t ↦ rw t (node_ids_nonempty vs)
          | inr f ↦ rw f ((ground arith), node_ids_nonempty vs)
        ])
]

head_nonempty :
    (c : String) (l : List String) (vs : List Volume) → node_ids vs ≡ c ∷ l → (c === "") ≡ false
head_nonempty c l vs e =
    let h : All (λ i. (i === "") ≡ false) (c ∷ l) =
      subst (All (λ i. (i === "") ≡ false)) e (node_ids_nonempty vs) in
    h.0

module _ (env : Env) where
  open env use {Json}

  -- The volumes with the identifiers all lie on one node.
  pub record IsPinned (ids : List String) (node_id : String) (r : WorkloadRequirements)
      (db : Db Json) : Type 0 where
    pub named : (node_id === "") ≡ false
    pub required : r.required_node_id ≡ some node_id
    pub sole : node_ids (volumes_in ids db) ≡ node_id ∷ []
    pub bound : AllBound ids db.volumes

  after_claim-IsPinned :
      (id : String) (ids : List String) (node_id : String) (r r' : WorkloadRequirements)
      (claimed : List String) (db db' : Db Json)
      → after_claim env id node_id r claimed db ≡ moved r' db'
      → node_ids (volumes_in ids db) ≡ claimed
      → AllBound ids db.volumes
      → (c : String) × IsPinned ids c r' db'
  unfolding set_requirements
  after_claim-IsPinned id ids node_id r r' [] db db' e s b = cc
  after_claim-IsPinned id ids node_id r r' (c ∷ d ∷ l) db db' e s b = cc
  after_claim-IsPinned id ids node_id r r' (c ∷ []) db db' e s b =
      elim (Bool-cases (c === node_id)) [
        | inl t ↦ cc (rw t at e)
        | inr f ↦
            let m : moved (require_node c r) (set_requirements env id (require_node c r) db)
                ≡ moved r' db' =
              rw f at e in
            let q : require_node c r ≡ r' = cc in
            let p : set_requirements env id (require_node c r) db ≡ db' = cc in
            let vols : db'.volumes ≡ db.volumes = ap (λ (d : Db Json). d.volumes) (sym p) in
            (
              c,
              record {
                named = head_nonempty c [] (volumes_in ids db) s;
                required = ap (λ (x : WorkloadRequirements). x.required_node_id) (sym q);
                sole = rw vols s;
                bound = rw vols b;
              },
            )
      ]

  -- A claim that sends the placement elsewhere pins the volumes and the requirements to that node.
  pub claim_volumes-IsPinned :
      (id : String) (ids : List String) (node_id : String) (r r' : WorkloadRequirements)
      (db db' : Db Json)
      → claim_volumes env id ids node_id r db ≡ moved r' db'
      → (c : String) × IsPinned ids c r' db'
  unfolding claim_volumes bind_volumes
  claim_volumes-IsPinned id [] node_id r r' db db' e = cc
  claim_volumes-IsPinned id (v ∷ vs) node_id r r' db db' e =
      after_claim-IsPinned id (v ∷ vs) node_id r r' _ (bind_volumes (v ∷ vs) node_id db) db' e refl
        (bind-AllBound (v ∷ vs) node_id db.volumes)

  -- On the node to which all is pinned the claim is kept.
  pub claim_volumes_pinned :
      (id : String) (ids : List String) (c : String) (r : WorkloadRequirements) (db : Db Json)
      → IsPinned ids c r db
      → (r' : WorkloadRequirements) × (db' : Db Json) × (claim_volumes env id ids c r db
          ≡ kept r' db')
  unfolding claim_volumes bind_volumes
  claim_volumes_pinned id [] c r db p = (r, db, refl)
  claim_volumes_pinned id (v ∷ vs) c r db p = (
    require_node c r,
    set_requirements env id (require_node c r) (bind_volumes (v ∷ vs) c db),
    (let sole : node_ids (volumes_in (v ∷ vs) (bind_volumes (v ∷ vs) c db)) ≡ c ∷ [] =
          ap (λ l. node_ids (filter (λ w. has_text (v ∷ vs) w.id) l))
            (bind_of_AllBound (v ∷ vs) c db.volumes p.bound)
          ∙ p.sole in
        rw sole (rw ((===_iff c c).1 refl) refl)),
  )
