-- ===== src/Builder/Workflow.antt =====
-- The checks on a workflow's graph of steps: `validateGraph` of apps/builder/src/workflow.ts.
-- A step holds the fields that decide its order and its end; `condition` is its `if`.
-- A `Set` is a list of texts, and the `Map` of needs a list of entries.
pub mod Sets
pub mod Total
pub mod Order
pub mod Rank
pub mod Entries
pub mod Valid
use devion.Prelude.{
  ℕ, zero, suc, String, Bool, true, false, Option, none, some, List, [], ◌∷◌, ◌++◌, ◌===◌,
  if◌then◌else◌, not, any, filter, map, length,
}

pub record WorkflowStep : Type 0 where
  pub id : String
  pub needs : List String
  pub condition : Option String
  pub retries : ℕ
  pub continue_on_error : Bool

pub data GraphError : Type 0 where
  duplicate_step : (index : ℕ) → GraphError
  unknown_step : (index : ℕ) (dependency : String) → GraphError
  dependency_cycle : (path : List String) → GraphError

abbrev pub contains : List String → String → Bool
contains set s = any (λ t. t === s) set

-- `Set.prototype.add` and `delete`.
abbrev pub add : String → List String → List String
add s set = if contains set s then set else s ∷ set

abbrev pub delete : String → List String → List String
delete s set = filter (λ t. not (t === s)) set

-- The entry behind the index, where the loop over `steps.entries()` stands.
abbrev pub duplicates : ℕ → List String → List WorkflowStep → List GraphError
duplicates index ids [] = []
duplicates index ids (step ∷ steps) =
    let rest = duplicates (suc index) (add step.id ids) steps in
    if contains ids step.id then duplicate_step index ∷ rest else rest

abbrev pub ids_of : List String → List WorkflowStep → List String
ids_of ids [] = ids
ids_of ids (step ∷ steps) = ids_of (add step.id ids) steps

abbrev pub Graph : Type 0
Graph = List (String × List String)

-- `Map.prototype.set`: a key that is there keeps its place.
abbrev pub set_needs : String → List String → Graph → Graph
set_needs id needs [] = (id, needs) ∷ []
set_needs id needs ((k, ns) ∷ graph) =
    if k === id then (k, needs) ∷ graph else (k, ns) ∷ set_needs id needs graph

abbrev pub graph_of : Graph → List WorkflowStep → Graph
graph_of graph [] = graph
graph_of graph (step ∷ steps) = graph_of (set_needs step.id step.needs graph) steps

abbrev pub keys : Graph → List String
keys graph = map (λ (k, ns). k) graph

-- `graph.get(id) ?? []` and `graph.has(id)`.
abbrev pub needs_of : Graph → String → List String
needs_of [] id = []
needs_of ((k, ns) ∷ graph) id = if k === id then ns else needs_of graph id

abbrev pub has_key : Graph → String → Bool
has_key graph id = any (λ (k, ns). k === id) graph

abbrev pub unknown_needs : ℕ → List String → List String → List GraphError
unknown_needs index ids [] = []
unknown_needs index ids (dependency ∷ needs) =
    let rest = unknown_needs index ids needs in
    if contains ids dependency then rest else unknown_step index dependency ∷ rest

abbrev pub unknowns : ℕ → List String → List WorkflowStep → List GraphError
unknowns index ids [] = []
unknowns index ids (step ∷ steps) =
    unknown_needs index ids step.needs ++ unknowns (suc index) ids steps

-- What the search has collected.
pub record Search : Type 0 where
  pub visiting : List String
  pub visited : List String
  pub errors : List GraphError

abbrev pub enter : String → Search → Search
enter id s = record s { visiting = add id s.visiting }

abbrev pub leave : String → Search → Search
leave id s = record s { visiting = delete id s.visiting; visited = add id s.visited }

abbrev pub report : List String → String → Search → Search
report path id s = record s { errors = s.errors ++ dependency_cycle (path ++ id ∷ []) ∷ [] }

-- The loop over the dependencies of an entry, by the visit of one of them.
abbrev pub visit_each :
    (String → Search → Option Search) → Graph → List String → Search → Option Search
visit_each visit_one graph [] s = some s
visit_each visit_one graph (dependency ∷ needs) s = elim (has_key graph dependency) [
  | true ↦ elim (visit_one dependency s) [
    | none ↦ none
    | some t ↦ visit_each visit_one graph needs t
  ]
  | false ↦ visit_each visit_one graph needs s
]

-- `visit`, by the depth that is left; none where that is used up.
unfoldable pub visit : ℕ → Graph → List String → String → Search → Option Search
visit zero graph path id s = none
visit (suc depth) graph path id s = elim (contains s.visiting id) [
  | true ↦ some (report path id s)
  | false ↦ elim (contains s.visited id) [
    | true ↦ some s
    | false ↦
        elim (visit_each (visit depth graph (path ++ id ∷ [])) graph (needs_of graph id)
          (enter id s)) [ none ↦ none | some t ↦ some (leave id t) ]
  ]
]

abbrev pub visit_keys : ℕ → Graph → List String → Search → Option Search
visit_keys depth graph [] s = some s
visit_keys depth graph (id ∷ ids) s = elim (visit depth graph [] id s) [
  | none ↦ none
  | some t ↦ visit_keys depth graph ids t
]

abbrev pub search_start : List GraphError → Search
search_start errors = record { visiting = []; visited = []; errors = errors }

unfoldable pub validate_graph : List WorkflowStep → Option (List GraphError)
validate_graph steps =
    let ids = ids_of [] steps in
    let graph = graph_of [] steps in
    elim (visit_keys (suc (length (keys graph))) graph (keys graph)
      (search_start (duplicates 0 [] steps ++ unknowns 0 ids steps))) [
        | none ↦ none
        | some t ↦ some t.errors
      ]
