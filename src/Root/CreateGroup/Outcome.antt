-- ===== src/Root/CreateGroup/Outcome.antt =====
-- How the job that creates a group ends.
use sekas.Prelude.{
  ℕ, zero, subst, Bool, Option, suc, ◌+◌, ◌≤◌, ◌<◌, ◌≡◌, refl, sym, ap, inl, inr, true, false,
  Bool-cases, Option-cases, none, some, [], if◌then◌else◌, arith,
}
use sekas.Api.{Result, ok, err, panicked, GroupDesc}
use sekas.Root.Balance.{rev}
use sekas.Root.CreateGroup.{
  CreateOneGroupStatus, init, creating, rollbacking, finish, abort, CreateOneGroupJob, Progress,
  Answers, and_then, stored, not_stored, save_create_group, set_status, save_status,
  check_is_already_meet_requirement, allocated, handle_init_create_group_replicas, create_replicas,
  create_all, handle_wait_create_group_replicas, remove_replicas, handle_rollback_group_replicas,
  handle_status, is_ended, handle_create_one_group,
}

-- How far a status is from the end.
abbrev pub rounds : CreateOneGroupStatus → ℕ
rounds init = 3
rounds creating = 2
rounds rollbacking = 1
rounds finish = 0
rounds abort = 0

rounds_bound : (status : CreateOneGroupStatus) → rounds status < 4
rounds_bound init = omega arith
rounds_bound creating = omega arith
rounds_bound rollbacking = omega arith
rounds_bound finish = omega arith
rounds_bound abort = omega arith

-- The result is a failure, or the job is in a status that is nearer to the end.
abbrev IsNearer : ℕ → Progress × Result (Unit {0}) → Type 0
IsNearer n (p, ok u) = rounds p.job.status + 1 ≤ n
IsNearer n (p, err e) = Unit
IsNearer n (p, panicked) = Unit

and_then-IsNearer {ℓ} :
    {A : Type ℓ} (n : ℕ) (r : Progress × Result A) (f : A → Progress → Progress × Result (Unit {0}))
    → ((a : A) (q : Progress) → r ≡ (q, ok a) → IsNearer n (f a q))
    → IsNearer n (and_then r f)
unfolding and_then
and_then-IsNearer n (p, ok a) f h = h a p refl
and_then-IsNearer n (p, err e) f h = tt
and_then-IsNearer n (p, panicked) f h = tt

module _ (ask : Answers) where
  save-IsNearer :
      (n : ℕ) (job : CreateOneGroupJob) (p : Progress)
      → rounds job.status + 1 ≤ n
      → IsNearer n (save_create_group ask job p)
  unfolding save_create_group stored not_stored
  save-IsNearer n job p h = elim (Option-cases (ask.update p.saves)) [
    | inl done ↦ rw (save_create_group, done) h
    | inr (e, lost) ↦ rw (save_create_group, lost) tt
  ]

  -- Where the requirement is met the job is to be rolled back.
  check-status :
      (p q : Progress)
      → check_is_already_meet_requirement ask p ≡ (q, ok true)
      → q.job.status ≡ rollbacking
  unfolding check_is_already_meet_requirement and_then save_create_group set_status stored
      not_stored
  check-status p q h = ground arith

  checked-IsNearer :
      (n : ℕ) (p : Progress) (f : Progress → Progress × Result (Unit {0}))
      → 2 ≤ n
      → ((q : Progress) → IsNearer n (f q))
      → IsNearer n (
          and_then
            (check_is_already_meet_requirement ask p)
            (λ met r. if met then (r, ok tt) else f r))
  checked-IsNearer n p f le h =
      and_then-IsNearer n (check_is_already_meet_requirement ask p)
        (λ met r. if met then (r, ok tt) else f r) met_or_not
    where
      met_or_not :
          (met : Bool) (q : Progress)
          → check_is_already_meet_requirement ask p ≡ (q, ok met)
          → IsNearer n (if met then (q, ok tt) else f q)
      met_or_not true q e =
          subst (λ s. rounds s + 1 ≤ n) (sym (check-status p q e)) (omega (arith, le))
      met_or_not false q e = h q

  allocated-status :
      (p : Progress) (job : CreateOneGroupJob) → allocated ask p ≡ ok job → job.status ≡ creating
  unfolding allocated
  allocated-status p job h = ground arith

  handle_init-IsNearer : (p : Progress) → IsNearer 3 (handle_init_create_group_replicas ask p)
  unfolding handle_init_create_group_replicas
  handle_init-IsNearer p =
      and_then-IsNearer 3 (p, ask.schema p.saves) _
        (λ _ q e. checked-IsNearer 3 q _ (omega arith) (λ r.
          and_then-IsNearer 3 (r, allocated ask r) (save_create_group ask)
            (λ job t e'. save-IsNearer 3 job t (
              subst (λ s. rounds s + 1 ≤ 3) (sym (allocated-status r job (ap (λ x. x.1) e')))
                (omega arith)))))

  save_status-IsNearer :
      (n : ℕ) (status : CreateOneGroupStatus) (p : Progress)
      → rounds status + 1 ≤ n
      → IsNearer n (save_status ask status tt p)
  unfolding save_status set_status
  save_status-IsNearer n status p h = save-IsNearer n (set_status status p.job) p h

  create_all-IsNearer :
      (p : Progress) (group : Option GroupDesc) → IsNearer 2 (create_all ask p group)
  unfolding create_all
  create_all-IsNearer p none = tt
  create_all-IsNearer p (some desc) =
      and_then-IsNearer 2 (create_replicas ask desc (rev p.job.wait_create) [] p) _
        (λ _ q e. save_status-IsNearer 2 finish q (omega arith))

  handle_wait_create-IsNearer :
      (p : Progress) → IsNearer 2 (handle_wait_create_group_replicas ask p)
  unfolding handle_wait_create_group_replicas
  handle_wait_create-IsNearer p =
      and_then-IsNearer 2 (p, ask.schema p.saves) _
        (λ _ q e.
          checked-IsNearer 2 q _ (omega arith) (λ r. create_all-IsNearer r r.job.group_desc))

  handle_rollback-IsNearer : (p : Progress) → IsNearer 1 (handle_rollback_group_replicas ask p)
  unfolding handle_rollback_group_replicas
  handle_rollback-IsNearer p =
      and_then-IsNearer 1 (remove_replicas ask (rev p.job.wait_cleanup) p) _
        (λ _ q e. save_status-IsNearer 1 abort q (omega arith))

  handle_status-IsNearer :
      (status : CreateOneGroupStatus) (p : Progress)
      → is_ended status ≡ false
      → IsNearer (rounds status) (handle_status ask status p)
  unfolding handle_status is_ended
  handle_status-IsNearer init p h = handle_init-IsNearer p
  handle_status-IsNearer creating p h = handle_wait_create-IsNearer p
  handle_status-IsNearer rollbacking p h = handle_rollback-IsNearer p
  handle_status-IsNearer finish p h = absurd (ground (arith, h))
  handle_status-IsNearer abort p h = absurd (ground (arith, h))

  -- After a round: the next one ends, or there is an answer.
  continued :
      (fuel n : ℕ) (r : Progress × Result (Unit {0}))
      → ((q : Progress)
          → rounds q.job.status < fuel
          → (t : Progress × Result (Unit {0})) × (handle_create_one_group ask fuel q ≡ some t))
      → n < suc fuel
      → IsNearer n r
      → (t : Progress × Result (Unit {0})) × (elim r.1 [
        | ok u ↦ handle_create_one_group ask fuel r.0
        | err e ↦ some (r.0, err e)
        | panicked ↦ some (r.0, panicked)
      ]
          ≡ some t)
  continued fuel n (q, ok u) next le near = next q (omega (arith, le, near))
  continued fuel n (q, err x) next le near = ((q, err x), refl)
  continued fuel n (q, panicked) next le near = ((q, panicked), refl)

  create_one_group_ends :
      (fuel : ℕ) (p : Progress)
      → rounds p.job.status < fuel
      → (t : Progress × Result (Unit {0})) × (handle_create_one_group ask fuel p ≡ some t)
  unfolding handle_create_one_group
  create_one_group_ends zero p h = absurd (omega (arith, h))
  create_one_group_ends (suc fuel) p h = elim (Bool-cases (is_ended p.job.status)) [
    | inl over ↦ ((p, ok tt), rw over refl)
    | inr going ↦
        let (t, found) =
          continued fuel (rounds p.job.status) (handle_status ask p.job.status p)
            (λ q. create_one_group_ends fuel q) h (handle_status-IsNearer p.job.status p going) in
        (t, rw going found)
  ]

  -- The loop of the job ends, with an answer, within four rounds.
  pub handle_create_one_group_ends :
      (p : Progress)
      → (t : Progress × Result (Unit {0})) × (handle_create_one_group ask 4 p ≡ some t)
  handle_create_one_group_ends p = create_one_group_ends 4 p (rounds_bound p.job.status)
