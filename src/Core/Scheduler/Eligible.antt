-- ===== src/Core/Scheduler/Eligible.antt =====
-- Which nodes may take a workload, independently of the list of reasons, and that the scheduler's
-- constraints say the same.
use devion.Prelude.{
  ℕ, ◌+◌, ◌≤◌, String, ◌≡◌, refl, ◌≢◌, ◌↔◌, inl, inr, Bool, true, false, not, Option, none, some,
  List, [], ◌∷◌, ◌++◌, ◌===◌, ===_iff, or_else, any, All, concat, ◌∈◌, Bool-cases, arith,
}
use devion.Core.Contracts.{
  NodeStatus, ready, RuntimeKind, ResourceQuantity, HostPort, NodeSnapshot, WorkloadRequirements,
}
use devion.Core.Scheduler.{
  Reason, is_ready, same_runtime, same_port, mismatch, label, label_differs, when, port_reasons,
  label_reasons, lacks, reasons_against, constraints,
}

-- A wish is met if it is absent, empty, or the value.
abbrev pub Meets : Option String → Option String → Type 0
Meets wanted actual = (w : String) → wanted ≡ some w → w ≢ "" → actual ≡ some w

abbrev pub Fits : ResourceQuantity → ℕ → Type 0
Fits q required = required + q.reserved ≤ q.allocatable

pub record IsEligible (node : NodeSnapshot) (req : WorkloadRequirements) : Type 0 where
  pub is_up : node.status ≡ ready
  pub is_enabled : node.scheduling_enabled ≡ true
  pub has_runtime : req.runtime ∈ node.runtimes
  pub architecture : Meets req.architecture (some node.architecture)
  pub region : Meets req.region node.region
  pub affinity : Meets req.required_node_id (some node.id)
  pub ports :
      All (λ p. ¬ (p ∈ or_else node.reserved_host_ports [])) (or_else req.requested_host_ports [])
  pub labels :
      All
        (λ (l : String × String). label l.0 node.labels ≡ some l.1)
        (or_else req.required_labels [])
  pub cpu : Fits node.resources.cpu_milli req.cpu_milli
  pub memory : Fits node.resources.memory_mib req.memory_mib
  pub storage : Fits node.resources.storage_mib req.storage_mib

append-eq_nil {ℓ} : {A : Type ℓ} (xs ys : List A) → (xs ++ ys) ≡ [] → (xs ≡ []) × (ys ≡ [])
append-eq_nil [] ys h = (refl, h)
append-eq_nil (x ∷ xs) ys h = cc

nil_of-concat {ℓ} : {A : Type ℓ} (xss : List (List A)) → concat xss ≡ [] → All (λ xs. xs ≡ []) xss
nil_of-concat [] h = tt
nil_of-concat (xs ∷ xss) h =
    let (e, rest) = append-eq_nil xs (concat xss) h in (e, nil_of-concat xss rest)

concat-nil {ℓ} : {A : Type ℓ} (xss : List (List A)) → All (λ xs. xs ≡ []) xss → concat xss ≡ []
concat-nil [] h = refl
concat-nil (xs ∷ xss) (e, h) = rw e (concat-nil xss h)

nil_of-when : (b : Bool) (r : Reason) → when b r ≡ [] → b ≡ false
nil_of-when true r h = cc
nil_of-when false r h = refl

when-false : (b : Bool) (r : Reason) → b ≡ false → when b r ≡ []
when-false b r h = rw h

not_eq_false : (b : Bool) → not b ≡ false → b ≡ true
not_eq_false b h = ground arith

is_up_iff : (s : NodeStatus) → (not (is_ready s) ≡ false) ↔ (s ≡ ready)
is_up_iff s = (ground arith, ground arith)

same_runtime_iff : (a b : RuntimeKind) → (same_runtime a b ≡ true) ↔ (a ≡ b)
same_runtime_iff a b = (ground arith, ground arith)

same_port_iff : (p q : HostPort) → (same_port p q ≡ true) ↔ (p ≡ q)
same_port_iff p q = (ground arith, ground arith)

-- A list holds an item exactly when a sound test of it finds one.
module _ {A : Type 0} (same : A → A → Bool) (sound : (x y : A) → (same x y ≡ true) ↔ (x ≡ y)) where
  mem_of_any : (x : A) (ys : List A) → any (same x) ys ≡ true → x ∈ ys
  mem_of_any x [] h = cc
  mem_of_any x (y ∷ ys) h = elim (Bool-cases (same x y)) [
    | inl e ↦ inl ((sound x y).0 e)
    | inr e ↦ inr (mem_of_any x ys (rw e at h))
  ]

  any_of_mem : (x : A) (ys : List A) → x ∈ ys → any (same x) ys ≡ true
  any_of_mem x [] h = absurd h
  any_of_mem x (y ∷ ys) (inl e) = rw ((sound x y).1 e)
  any_of_mem x (y ∷ ys) (inr m) = elim (Bool-cases (same x y)) [
    | inl e ↦ rw e
    | inr e ↦ rw e (any_of_mem x ys m)
  ]

  not_mem_of_any : (x : A) (ys : List A) → any (same x) ys ≡ false → ¬ (x ∈ ys)
  not_mem_of_any x ys h m = cc (any_of_mem x ys m)

  any_of_not_mem : (x : A) (ys : List A) → ¬ (x ∈ ys) → any (same x) ys ≡ false
  any_of_not_mem x ys n = elim (Bool-cases (any (same x) ys)) [
    | inl e ↦ absurd (n (mem_of_any x ys e))
    | inr e ↦ e
  ]

mismatch_iff : (w a : Option String) → (mismatch w a ≡ false) ↔ Meets w a
mismatch_iff none a = (λ h w e n. cc, λ h. refl)
mismatch_iff (some w) none = (
  λ h v e n. ground (arith, ===_iff w "", ===_iff v ""),
  λ m. elim (Bool-cases (w === "")) [
    | inl e ↦ rw e
    | inr e ↦ ground (arith, m w refl, ===_iff w "")
  ],
)
mismatch_iff (some w) (some a) = (
  λ h v e n. ground (arith, ===_iff w "", ===_iff v "", ===_iff a w),
  λ m. elim (Bool-cases (w === "")) [
    | inl e ↦ rw e
    | inr e ↦ ground (arith, m w refl, ===_iff w "", ===_iff a w)
  ],
)

label_iff : (o : Option String) (v : String) → (label_differs o v ≡ false) ↔ (o ≡ some v)
label_iff none v = (λ h. cc, λ h. cc)
label_iff (some u) v = (ground (arith, ===_iff u v), ground (arith, ===_iff u v))

lacks_iff : (q : ResourceQuantity) (n : ℕ) → (lacks q n ≡ false) ↔ Fits q n
lacks_iff q n = (ground arith, ground arith)

port_reasons_iff :
    (taken ports : List HostPort) → (port_reasons taken ports ≡ []) ↔ All (λ p. ¬ (p ∈ taken)) ports
unfolding port_reasons
port_reasons_iff taken [] = (λ h. tt, λ h. refl)
port_reasons_iff taken (p ∷ ports) = (
  λ h.
      let (now, later) =
        append-eq_nil (when (any (same_port p) taken) _) (port_reasons taken ports) h in
      (
        not_mem_of_any same_port same_port_iff p taken (nil_of-when _ _ now),
        (port_reasons_iff taken ports).0 later,
      ),
  λ (n, rest).
      rw (any_of_not_mem same_port same_port_iff p taken n) ((port_reasons_iff taken ports).1 rest),
)

label_reasons_iff :
    (labels wanted : List (String × String))
    → (label_reasons labels wanted ≡ [])
      ↔ All (λ (l : String × String). label l.0 labels ≡ some l.1) wanted
unfolding label_reasons
label_reasons_iff labels [] = (λ h. tt, λ h. refl)
label_reasons_iff labels ((key, value) ∷ wanted) = (
  λ h.
      let (now, later) =
        append-eq_nil (when (label_differs (label key labels) value) _)
          (label_reasons labels wanted) h in
      (
        (label_iff (label key labels) value).0 (nil_of-when _ _ now),
        (label_reasons_iff labels wanted).0 later,
      ),
  λ (e, rest).
      rw ((label_iff (label key labels) value).1 e) ((label_reasons_iff labels wanted).1 rest),
)

-- What the eleven constraints say when none of them gives a reason.
pub IsEligible-of_no_reasons :
    (node : NodeSnapshot) (req : WorkloadRequirements)
    → reasons_against node req ≡ []
    → IsEligible node req
unfolding reasons_against
IsEligible-of_no_reasons node req h =
    let (a, h1) = nil_of-concat (constraints node req) h in
    let (b, h2) = h1 in
    let (c, h3) = h2 in
    let (d, h4) = h3 in
    let (e, h5) = h4 in
    let (f, h6) = h5 in
    let (g, h7) = h6 in
    let (i, h8) = h7 in
    let (j, h9) = h8 in
    let (k, h10) = h9 in
    let (l, _) = h10 in
    record {
      is_up = (is_up_iff node.status).0 (nil_of-when _ _ a);
      is_enabled = not_eq_false node.scheduling_enabled (nil_of-when _ _ b);
      has_runtime =
          mem_of_any same_runtime same_runtime_iff req.runtime node.runtimes
            (not_eq_false _ (nil_of-when _ _ c));
      architecture = (mismatch_iff req.architecture (some node.architecture)).0 (nil_of-when _ _ d);
      region = (mismatch_iff req.region node.region).0 (nil_of-when _ _ e);
      affinity = (mismatch_iff req.required_node_id (some node.id)).0 (nil_of-when _ _ f);
      ports = (port_reasons_iff _ _).0 g;
      labels = (label_reasons_iff _ _).0 i;
      cpu = (lacks_iff node.resources.cpu_milli _).0 (nil_of-when _ _ j);
      memory = (lacks_iff node.resources.memory_mib _).0 (nil_of-when _ _ k);
      storage = (lacks_iff node.resources.storage_mib _).0 (nil_of-when _ _ l);
    }

pub no_reasons_of_IsEligible :
    (node : NodeSnapshot) (req : WorkloadRequirements)
    → IsEligible node req
    → reasons_against node req ≡ []
unfolding reasons_against
no_reasons_of_IsEligible node req el = concat-nil (constraints node req) (
  when-false _ _ ((is_up_iff node.status).1 el.is_up),
  (
    when-false _ _ (rw el.is_enabled),
    (
      when-false _ _
          (rw (any_of_mem same_runtime same_runtime_iff req.runtime node.runtimes el.has_runtime)),
      (
        when-false _ _ ((mismatch_iff req.architecture (some node.architecture)).1 el.architecture),
        (
          when-false _ _ ((mismatch_iff req.region node.region).1 el.region),
          (
            when-false _ _ ((mismatch_iff req.required_node_id (some node.id)).1 el.affinity),
            (
              (port_reasons_iff _ _).1 el.ports,
              (
                (label_reasons_iff _ _).1 el.labels,
                (
                  when-false _ _ ((lacks_iff node.resources.cpu_milli _).1 el.cpu),
                  (
                    when-false _ _ ((lacks_iff node.resources.memory_mib _).1 el.memory),
                    (when-false _ _ ((lacks_iff node.resources.storage_mib _).1 el.storage), tt),
                  ),
                ),
              ),
            ),
          ),
        ),
      ),
    ),
  ),
)
