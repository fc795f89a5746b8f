-- ===== src/Root/CreateGroup/Passes.antt =====
-- What one pass over the replicas of a new group leaves: of their creation, and of their removal.
use sekas.Prelude.{
  ℕ, ◌<◌, ◌≡◌, refl, sym, ap, ◌∙◌, subst, ◌⊎◌, inl, inr, true, false, Bool-cases, Option-cases,
  ◌&&◌, none, some, is_some, is_none, unwrap_or, List, [], ◌∷◌, ◌++◌, find, ltb, ◌==◌,
  if◌then◌else◌, arith, All, append-nil, append_assoc,
}
use sekas.Api.{Error, Result, ok, err, panicked, GroupDesc, ReplicaDesc}
use sekas.Root.Balance.{rev}
use sekas.Root.Allocator.{NodeDesc}
use sekas.Root.CreateGroup.{
  finish, abort, CreateOneGroupJob, Progress, Answers, and_then, stored, not_stored,
  save_create_group, set_status, save_status, check_group, check_is_already_meet_requirement,
  create_failed, create_done, create_replicas, create_all, handle_wait_create_group_replicas,
  remove_replicas, try_remove, handle_rollback_group_replicas,
}

create_failed-wait_cleanup :
    (job : CreateOneGroupJob) → (create_failed job).wait_cleanup ≡ job.wait_cleanup
unfolding create_failed set_status
create_failed-wait_cleanup job = elim (Bool-cases (ltb job.create_retry 20)) [
  | inl again ↦ rw again refl
  | inr last ↦ rw last refl
]

-- The store finds the job or not, as before; what it does not find it does not change.
abbrev Keeps : Progress → Progress → Type 0
Keeps p q = (q.listed ≡ p.listed) × (p.listed ≡ false → q.saved ≡ p.saved)

stored-Keeps : (job : CreateOneGroupJob) (p q : Progress) → Keeps (stored job p) q → Keeps p q
unfolding stored
stored-Keeps job p q (same, saved) = (same, λ h. saved h ∙ ground (arith, h))

module _ (ask : Answers) where
  -- A save fails, and its failure is returned.
  abbrev pub SaveFails : Progress × Result (Unit {0}) → Type 0
  SaveFails r = (n : ℕ) × (e : Error) × (q : Progress) × (ask.update n ≡ some e) × (r ≡ (q, err e))

  -- The replicas that are created, of the nodes in the order in which they are tried.
  unfoldable pub created_replicas : GroupDesc → List NodeDesc → List ReplicaDesc
  created_replicas desc [] = []
  created_replicas desc (n ∷ ns) =
      let rest = created_replicas desc ns in
      elim (find (λ r. r.node_id == n.id) desc.replicas) [
        | none ↦ rest
        | some r ↦ if ask.try_create_replica n r then r ∷ rest else rest
      ]

  -- What a pass leaves that is not cut off by a save.
  abbrev IsCreated : List ReplicaDesc → Progress → Progress × Result (Unit {0}) → Type 0
  IsCreated cleanup p r =
      (q : Progress) × (r ≡ (q, ok tt)) × (q.job.wait_cleanup ≡ cleanup) × Keeps p q

  abbrev Passes : List ReplicaDesc → Progress → Progress × Result (Unit {0}) → Type 0
  Passes cleanup p r = IsCreated cleanup p r ⊎ SaveFails r

  -- After a save: it fails, or the pass goes on.
  after_save :
      (job : CreateOneGroupJob) (p : Progress) (cleanup : List ReplicaDesc)
      (f : Unit {0} → Progress → Progress × Result (Unit {0}))
      → Passes cleanup (stored job p) (f tt (stored job p))
      → Passes cleanup p (and_then (save_create_group ask job p) f)
  unfolding save_create_group and_then
  after_save job p cleanup f h = elim (Option-cases (ask.update p.saves)) [
    | inl done ↦
        let same : and_then (save_create_group ask job p) f ≡ f tt (stored job p) =
          rw (save_create_group, done) refl in
        elim h [
          | inl (q, ran, kept, keeps) ↦ inl (q, same ∙ ran, kept, stored-Keeps job p q keeps)
          | inr (n, e, q, lost, ran) ↦ inr (n, e, q, lost, same ∙ ran)
        ]
    | inr (e, lost) ↦ inr (p.saves, e, not_stored job p, lost, rw (save_create_group, lost) refl)
  ]

  create_replicas-created :
      (desc : GroupDesc) (ns : List NodeDesc) (undo : List ReplicaDesc) (p : Progress)
      → All (λ n. is_some (find (λ r. r.node_id == n.id) desc.replicas) ≡ true) ns
      → p.job.wait_cleanup ≡ undo
      → Passes (undo ++ created_replicas desc ns) p (create_replicas ask desc ns undo p)
  unfolding create_replicas created_replicas create_done stored
  create_replicas-created desc [] undo p h e =
      inl (p, refl, e ∙ sym (append-nil undo), (refl, λ h. refl))
  create_replicas-created desc (n ∷ ns) undo p h e =
      elim (Option-cases (find (λ r. r.node_id == n.id) desc.replicas)) [
        | inl missing ↦ absurd (ground (arith, missing, h.0))
        | inr (r, here) ↦ elim (Bool-cases (ask.try_create_replica n r)) [
          | inl done ↦
              let job = create_done (rev ns) (undo ++ r ∷ []) p.job in
              let step : create_replicas ask desc (n ∷ ns) undo p
                  ≡ and_then (save_create_group ask job p)
                      (λ _ q. create_replicas ask desc ns (undo ++ r ∷ []) q) =
                rw (create_replicas, here, done) refl in
              let more : created_replicas desc (n ∷ ns) ≡ r ∷ created_replicas desc ns =
                rw (created_replicas, here, done) refl in
              subst (Passes (undo ++ created_replicas desc (n ∷ ns)) p) (sym step) (
                subst
                  (λ t. Passes t p (
                    and_then (save_create_group ask job p)
                      (λ _ q. create_replicas ask desc ns (undo ++ r ∷ []) q)))
                  (append_assoc undo (r ∷ []) (created_replicas desc ns)
                    ∙ ap (λ t. undo ++ t) (sym more))
                  (after_save job p ((undo ++ r ∷ []) ++ created_replicas desc ns)
                    (λ _ q. create_replicas ask desc ns (undo ++ r ∷ []) q)
                    (create_replicas-created desc ns (undo ++ r ∷ []) (stored job p) h.1 refl)))
          | inr lost ↦
              let job = create_failed p.job in
              let step : create_replicas ask desc (n ∷ ns) undo p
                  ≡ and_then (save_create_group ask job p)
                      (λ _ q. create_replicas ask desc ns undo q) =
                rw (create_replicas, here, lost) refl in
              let more : created_replicas desc (n ∷ ns) ≡ created_replicas desc ns =
                rw (created_replicas, here, lost) refl in
              subst (Passes (undo ++ created_replicas desc (n ∷ ns)) p) (sym step) (
                subst
                  (λ t. Passes t p (
                    and_then (save_create_group ask job p)
                      (λ _ q. create_replicas ask desc ns undo q)))
                  (ap (λ t. undo ++ t) (sym more))
                  (after_save job p (undo ++ created_replicas desc ns)
                    (λ _ q. create_replicas ask desc ns undo q)
                    (create_replicas-created desc ns undo (stored job p) h.1
                      (create_failed-wait_cleanup p.job ∙ e))))
        ]
      ]

  -- The job is finished, and stored so if the store finds it.
  abbrev pub IsFinished : List ReplicaDesc → Progress → Progress × Result (Unit {0}) → Type 0
  IsFinished cleanup p r =
      (q : Progress) × (r ≡ (q, ok tt))
      × (q.saved ≡ (if p.listed then q.job else p.saved))
      × (q.job.status ≡ finish)
      × (q.job.wait_cleanup ≡ cleanup)

  finish_pass :
      (cleanup : List ReplicaDesc) (p : Progress) (r : Progress × Result (Unit {0}))
      → Passes cleanup p r
      → IsFinished cleanup p (and_then r (save_status ask finish))
        ⊎ SaveFails (and_then r (save_status ask finish))
  unfolding and_then save_status save_create_group set_status stored
  finish_pass cleanup p r (inr (n, e, q, lost, ran)) =
      inr (n, e, q, lost, ap (λ t. and_then t (save_status ask finish)) ran)
  finish_pass cleanup p r (inl (q, ran, kept, keeps)) =
      let job = set_status finish q.job in
      let last : and_then r (save_status ask finish) ≡ save_create_group ask job q =
        ap (λ t. and_then t (save_status ask finish)) ran in
      elim (Option-cases (ask.update q.saves)) [
        | inl done ↦ inl (
          stored job q,
          last ∙ (rw (save_create_group, done) refl),
          ground (arith, keeps.0, keeps.1),
          refl,
          kept,
        )
        | inr (e, lost) ↦
            inr (q.saves, e, not_stored job q, lost, last ∙ (rw (save_create_group, lost) refl))
      ]

  -- The root has a schema, the job its descriptor with a replica for every node and nothing to clean
  -- up, and fewer replicas are known than are requested. Whatever replicas cannot be created, the job is
  -- then finished after one pass over its nodes, and stored so if the store finds it, with those that
  -- could left as the ones to clean up; or a save of the job fails, and its failure is returned.
  pub handle_wait_create_group_replicas_finishes :
      (p : Progress) (desc : GroupDesc) (replicas : ℕ)
      → ask.schema p.saves ≡ ok tt
      → p.job.group_desc ≡ some desc
      → ask.group_replica_states p.saves desc.id ≡ ok replicas
      → replicas < p.job.request_replica_cnt
      → p.job.wait_cleanup ≡ []
      → All
          (λ n. is_some (find (λ r. r.node_id == n.id) desc.replicas) ≡ true)
          (rev p.job.wait_create)
      → IsFinished
          (created_replicas desc (rev p.job.wait_create))
          p
          (handle_wait_create_group_replicas ask p)
        ⊎ SaveFails (handle_wait_create_group_replicas ask p)
  unfolding handle_wait_create_group_replicas check_is_already_meet_requirement check_group
      create_all and_then
  handle_wait_create_group_replicas_finishes p desc replicas leads d known short clean h =
      let few : ltb replicas p.job.request_replica_cnt ≡ true = ground (arith, short) in
      let unmet : check_is_already_meet_requirement ask p ≡ (p, ok false) =
        ap (check_group ask p) d ∙ (rw (known, few) refl) in
      let all : create_all ask p p.job.group_desc
          ≡ and_then (create_replicas ask desc (rev p.job.wait_create) [] p)
              (save_status ask finish) =
        ap (create_all ask p) d in
      let run : handle_wait_create_group_replicas ask p ≡ create_all ask p p.job.group_desc =
        rw (handle_wait_create_group_replicas, leads, unmet) refl in
      subst (λ r. IsFinished (created_replicas desc (rev p.job.wait_create)) p r ⊎ SaveFails r)
        (sym (run ∙ all))
        (finish_pass (created_replicas desc (rev p.job.wait_create)) p
          (create_replicas ask desc (rev p.job.wait_create) [] p)
          (create_replicas-created desc (rev p.job.wait_create) [] p h clean))

  remove_replicas-removed :
      (desc : GroupDesc) (e : Error) (r : ReplicaDesc) (done rest : List ReplicaDesc) (p : Progress)
      → p.job.group_desc ≡ some desc
      → All (λ x. ask.try_remove_replica desc.id x ≡ none) done
      → ask.try_remove_replica desc.id r ≡ some e
      → remove_replicas ask (done ++ r ∷ rest) p
        ≡ and_then
            (save_create_group ask (record p.job { wait_cleanup = rev rest }) p)
            (λ _ q. (q, err e))
  unfolding remove_replicas try_remove
  remove_replicas-removed desc e r [] rest p d h f =
      let found : try_remove ask p.job.group_desc r ≡ ok (some e) =
        ap (λ o. try_remove ask o r) d ∙ ap ok f in
      rw (remove_replicas, found) refl
  remove_replicas-removed desc e r (x ∷ done) rest p d h f =
      let gone : try_remove ask p.job.group_desc x ≡ ok none =
        ap (λ o. try_remove ask o x) d ∙ ap ok h.0 in
      let first : remove_replicas ask (x ∷ (done ++ r ∷ rest)) p
          ≡ remove_replicas ask (done ++ r ∷ rest) p =
        ap
          (λ o. elim o [
            | ok none ↦ remove_replicas ask (done ++ r ∷ rest) p
            | ok (some x') ↦
                and_then
                  (save_create_group ask (record p.job { wait_cleanup = rev (done ++ r ∷ rest) }) p)
                  (λ _ q. (q, err x'))
            | err x' ↦ (p, err x')
            | panicked ↦ (p, panicked)
          ])
          gone in
      first ∙ remove_replicas-removed desc e r done rest p d h.1 f

  -- After replicas that are removed, one that is not: its failure is returned, and the job is stored
  -- without it, if the store finds the job. If that save fails, its failure is returned, and nothing is
  -- stored.
  pub handle_rollback_group_replicas_forgets :
      (p : Progress) (desc : GroupDesc) (e : Error) (r : ReplicaDesc) (done rest : List ReplicaDesc)
      → p.job.group_desc ≡ some desc
      → rev p.job.wait_cleanup ≡ done ++ r ∷ rest
      → All (λ x. ask.try_remove_replica desc.id x ≡ none) done
      → ask.try_remove_replica desc.id r ≡ some e
      → (q : Progress) × (handle_rollback_group_replicas ask p
          ≡ (q, err (unwrap_or (ask.update p.saves) e)))
        × (q.saved ≡ (
            if is_none (ask.update p.saves) && p.listed
            then record p.job { wait_cleanup = rev rest }
            else p.saved))
  unfolding handle_rollback_group_replicas save_create_group stored not_stored and_then
  handle_rollback_group_replicas_forgets p desc e r done rest d w h f =
      let job : CreateOneGroupJob = record p.job { wait_cleanup = rev rest } in
      let run : handle_rollback_group_replicas ask p
          ≡ and_then (and_then (save_create_group ask job p) (λ _ q. (q, err e)))
              (save_status ask abort) =
        ap (λ t. and_then t (save_status ask abort))
          (ap (λ rs. remove_replicas ask rs p) w
            ∙ remove_replicas-removed desc e r done rest p d h f) in
      elim (Option-cases (ask.update p.saves)) [
        | inl saved ↦
            (stored job p, run ∙ (rw (save_create_group, saved) refl), rw saved (ground arith))
        | inr (x, lost) ↦
            (not_stored job p, run ∙ (rw (save_create_group, lost) refl), rw lost refl)
      ]
