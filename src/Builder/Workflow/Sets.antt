-- ===== src/Builder/Workflow/Sets.antt =====
-- Sets of texts, as the search on a graph of steps uses them.
use devion.Prelude.{
  ◌≡◌, refl, sym, ap, ◌∙◌, inl, inr, String, false, List, [], ◌∷◌, ◌===◌, ===_iff, ◌||◌, arith,
  Bool-cases,
}
use devion.Builder.Workflow.{contains, add, delete}

pub ===_comm : (s t : String) → (s === t) ≡ (t === s)
===_comm s t = ground (arith, ===_iff s t, ===_iff t s)

pub contains-add :
    (s t : String) (set : List String) → contains (add s set) t ≡ ((s === t) || contains set t)
contains-add s t set = elim (Bool-cases (contains set s)) [
  | inl e ↦ rw e (elim (Bool-cases (s === t)) [
    | inl q ↦ rw q (ap (contains set) (sym ((===_iff s t).0 q)) ∙ e)
    | inr q ↦ rw q refl
  ])
  | inr e ↦ rw e refl
]

delete_absent : (s : String) (set : List String) → contains set s ≡ false → delete s set ≡ set
delete_absent s [] h = refl
delete_absent s (t ∷ set) h = ground (arith, delete_absent s set)

pub delete-add :
    (s : String) (set : List String) → contains set s ≡ false → delete s (add s set) ≡ set
delete-add s set h = rw (h, (===_iff s s).1 refl) (delete_absent s set h)
