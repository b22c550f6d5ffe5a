-- ===== src/Control/Volumes/Deletion.antt =====
-- What a tick of the volume controller may destroy.
use devion.Prelude.{
  ℕ, String, ◌≡◌, refl, sym, ap, ◌∙◌, ◌⊎◌, inl, inr, true, false, ◌&&◌, not, some, List, [], ◌∷◌,
  ◌===◌, ◌∈◌, filter, mem-filter, mem-append, Bool-cases, Option-cases, arith,
}
use devion.Control.Store.{
  VolumeStatus, CommandStatus, volume_delete, Payload, AgentCommand, Volume, Db, update_where,
}
use devion.Control.Env.{Env}
use devion.Control.Volumes.{
  is_managed_runtime_name, is_deleting, latest_deletion, remove_volume, send_deletion, follow,
  delete_volume, delete_volumes, volume_tick,
}

-- A row with the identifier that is not to be deleted.
abbrev pub IsKept : String → List Volume → Type 0
IsKept id vs = (v : Volume) × (v ∈ vs) × (v.id ≡ id) × (is_deleting v.status ≡ false)

IsKept-update_where :
    (id other : String) (vs : List Volume)
    → IsKept id vs
    → IsKept id
        (update_where (λ v. v.id === other) (λ v. record v { status = VolumeStatus.error }) vs)
IsKept-update_where id other [] (v, m, e, s) = absurd m
IsKept-update_where id other (w ∷ vs) (v, inl q, e, s) = elim (Bool-cases (w.id === other)) [
  | inl t ↦ rw t (
    record w { status = VolumeStatus.error },
    inl refl,
    ap (λ (z : Volume). z.id) (sym q) ∙ e,
    refl,
  )
  | inr f ↦ rw f (v, inl q, e, s)
]
IsKept-update_where id other (w ∷ vs) (v, inr m, e, s) =
    let (u, k, e', s') = IsKept-update_where id other vs (v, m, e, s) in (u, inr k, e', s')

module _ (env : Env) where
  open env use {Json}

  IsKept-remove_volume :
      (id other : String) (db : Db Json)
      → IsKept id db.volumes
      → IsKept id (remove_volume other db).volumes
  IsKept-remove_volume id other db (v, m, e, s) = (
    v,
    (mem-filter (λ v. not (v.id === other && is_deleting v.status)) v db.volumes).1
        (m, ground arith),
    e,
    s,
  )

  IsKept-delete_volume :
      (now : ℕ) (v : Volume) (id : String) (db : Db Json)
      → IsKept id db.volumes
      → IsKept id (delete_volume env now v db).volumes
  unfolding delete_volume
  IsKept-delete_volume now v id db k =
      elim (Bool-cases (not (is_managed_runtime_name v.runtime_name))) [
        | inl t ↦ rw t (IsKept-update_where id v.id db.volumes k)
        | inr f ↦ rw f (elim (Option-cases v.node_id) [
          | inl n ↦ rw (n, delete_volume) (IsKept-remove_volume id v.id db k)
          | inr (node_id, n) ↦
              rw (n, delete_volume)
                (elim (Bool-cases (node_id === "")) [
                  | inl t ↦ rw t (IsKept-remove_volume id v.id db k)
                  | inr g ↦ rw g (elim (Option-cases (latest_deletion v.id db.commands)) [
                    | inl l ↦ rw (l, delete_volume) k
                    | inr (c, l) ↦ rw (l, delete_volume) (followed c.status)
                  ])
                ])
        ])
      ]
    where
      followed : (s : CommandStatus) → IsKept id (follow env v s db).volumes
      followed CommandStatus.succeeded = IsKept-remove_volume id v.id db k
      followed CommandStatus.failed = IsKept-update_where id v.id db.volumes k
      followed CommandStatus.pending = k
      followed CommandStatus.delivered = k

  IsKept-delete_volumes :
      (now : ℕ) (vs : List Volume) (id : String) (db : Db Json)
      → IsKept id db.volumes
      → IsKept id (delete_volumes env now vs db).volumes
  unfolding delete_volumes
  IsKept-delete_volumes now [] id db k = k
  IsKept-delete_volumes now (v ∷ vs) id db k =
      IsKept-delete_volumes now vs id (delete_volume env now v db)
        (IsKept-delete_volume now v id db k)

  -- A tick removes only volumes that are to be deleted: any other has a row behind the tick that is
  -- not to be deleted either.
  pub volume_tick-IsKept :
      (now : ℕ) (v : Volume) (db : Db Json)
      → v ∈ db.volumes
      → is_deleting v.status ≡ false
      → IsKept v.id (volume_tick env now db).volumes
  unfolding volume_tick
  volume_tick-IsKept now v db m s = IsKept-delete_volumes now _ v.id db (v, m, refl, s)

  -- A deletion of a volume of the list that is managed.
  abbrev pub IsDeletion : List Volume → AgentCommand Json → Type 0
  IsDeletion vs c =
      (v : Volume) × (v ∈ vs)
      × (is_managed_runtime_name v.runtime_name ≡ true)
      × (v.node_id ≡ some c.node_id)
      × (c.type ≡ volume_delete)
      × (c.resource_id ≡ v.id)
      × (c.status ≡ CommandStatus.pending)
      × (c.payload ≡ Payload.delete_volume v.runtime_name)

  delete_volume-IsDeletion :
      (now : ℕ) (v : Volume) (c : AgentCommand Json) (db : Db Json)
      → c ∈ (delete_volume env now v db).commands
      → (c ∈ db.commands) ⊎ IsDeletion (v ∷ []) c
  unfolding delete_volume
  delete_volume-IsDeletion now v c db m =
      elim (Bool-cases (not (is_managed_runtime_name v.runtime_name))) [
        | inl t ↦ inl (rw t at m)
        | inr f ↦ elim (Option-cases v.node_id) [
          | inl n ↦ inl (rw (f, n) at m)
          | inr (node_id, n) ↦ elim (Bool-cases (node_id === "")) [
            | inl t ↦ inl (rw (f, n, t) at m)
            | inr g ↦ elim (Option-cases (latest_deletion v.id db.commands)) [
              | inl l ↦ sent node_id n f (rw (f, n, g, l) at m)
              | inr (d, l) ↦ inl (followed d.status (rw (f, n, g, l) at m))
            ]
          ]
        ]
      ]
    where
      sent :
          (node_id : String)
          → v.node_id ≡ some node_id
          → not (is_managed_runtime_name v.runtime_name) ≡ false
          → c ∈ (send_deletion env now node_id v db).commands
          → (c ∈ db.commands) ⊎ IsDeletion (v ∷ []) c
      sent node_id n f k = elim (mem-append c db.commands _ k) [
        | inl j ↦ inl j
        | inr (inl e) ↦ inr (
          v,
          inl refl,
          (ground arith),
          n ∙ ap (λ (z : AgentCommand Json). some z.node_id) (sym e),
          ap (λ (z : AgentCommand Json). z.type) e,
          ap (λ (z : AgentCommand Json). z.resource_id) e,
          ap (λ (z : AgentCommand Json). z.status) e,
          ap (λ (z : AgentCommand Json). z.payload) e,
        )
        | inr (inr j) ↦ absurd j
      ]

      followed : (s : CommandStatus) → c ∈ (follow env v s db).commands → c ∈ db.commands
      followed CommandStatus.succeeded k = k
      followed CommandStatus.failed k = k
      followed CommandStatus.pending k = k
      followed CommandStatus.delivered k = k

  delete_volumes-IsDeletion :
      (now : ℕ) (vs : List Volume) (c : AgentCommand Json) (db : Db Json)
      → c ∈ (delete_volumes env now vs db).commands
      → (c ∈ db.commands) ⊎ IsDeletion vs c
  unfolding delete_volumes
  delete_volumes-IsDeletion now [] c db m = inl m
  delete_volumes-IsDeletion now (v ∷ vs) c db m =
      elim (delete_volumes-IsDeletion now vs c (delete_volume env now v db) m) [
        | inr (u, k, a, b, t, i, p, d) ↦ inr (u, inr k, a, b, t, i, p, d)
        | inl k ↦ elim (delete_volume-IsDeletion now v c db k) [
          | inl j ↦ inl j
          | inr (u, inl e, a, b, t, i, p, d) ↦ inr (u, inl e, a, b, t, i, p, d)
          | inr (u, inr j, a, b, t, i, p, d) ↦ absurd j
        ]
      ]

  -- A command that a tick sends is a pending deletion of a volume that is to be deleted and has a
  -- name that the platform gave: it stands for that volume's row, goes to that volume's node, and
  -- names its runtime volume.
  pub volume_tick-IsDeletion :
      (now : ℕ) (c : AgentCommand Json) (db : Db Json)
      → c ∈ (volume_tick env now db).commands
      → (c ∈ db.commands) ⊎ IsDeletion (filter (λ v. is_deleting v.status) db.volumes) c
  unfolding volume_tick
  volume_tick-IsDeletion now c db m = delete_volumes-IsDeletion now _ c db m
