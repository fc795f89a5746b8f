-- ===== src/Root/Watch/Delivery.antt =====
-- What a watcher is told: every event, once and in order.
use sekas.Prelude.{
  ℕ, ◌+◌, ◌≤◌, ◌≡◌, refl, sym, ap, ◌∙◌, inl, inr, Bool, true, false, Bool-cases, Option-cases, not,
  ◌||◌, none, some, List, [], ◌∷◌, ◌++◌, is_empty, any, retain, ◌==◌, if◌then◌else◌, arith, All,
  Map, map_get, map_get-insert, append_assoc, append-nil,
}
use sekas.Root.Watch.{
  WatcherInner, WatchHub, Poll, ready, notify_inner, drop_inner, poll_next, refill, at_watcher,
  change_inner, create_watcher, remove_watcher, notify_watchers, notify, is_dropped, cleanup,
}

-- What happens at the hub, and to the streams of its watchers.
pub data Step (U D : Type 0) : Type 0 where
  create : List U → List D → Step U D
  notified : List U → List D → Step U D
  polled removed stream_dropped : ℕ → Step U D
  cleaned : Step U D

abbrev pub occurrences : ℕ → List ℕ → ℕ
occurrences id [] = 0
occurrences id (i ∷ is) = if i == id then occurrences id is + 1 else occurrences id is

occurrences-retain :
    (id : ℕ) (p : ℕ → Bool) (is : List ℕ)
    → p id ≡ true
    → occurrences id (retain p is) ≡ occurrences id is
occurrences-retain id p [] h = refl
occurrences-retain id p (i ∷ is) h =
    let rest = occurrences-retain id p is h in
    elim (Bool-cases (p i)) [
      | inl kept ↦ rw (kept, rest) refl
      | inr gone ↦
          let away : (i == id) ≡ false = ground (arith, gone, h) in rw (gone, away, rest) refl
    ]

append-chain {ℓ} :
    {A : Type ℓ} (first mid events by rest after all : List A)
    → first ++ mid ≡ events ++ by
    → rest ++ after ≡ mid ++ all
    → (first ++ rest) ++ after ≡ events ++ (by ++ all)
append-chain first mid events by rest after all u v =
    append_assoc first rest after
    ∙ ap (λ t. first ++ t) v
    ∙ sym (append_assoc first mid all)
    ∙ ap (λ t. t ++ all) u
    ∙ append_assoc events by all

module _ {U D : Type 0} where
  -- `poll_next` on the stream of a watcher.
  unfoldable pub poll_stream : ℕ → WatchHub U D → WatchHub U D
  unfolding at_watcher poll_next
  poll_stream id h = at_watcher id (λ w. (poll_next w).1) h

  unfoldable pub step : Step U D → WatchHub U D → WatchHub U D
  unfolding create_watcher notify poll_stream remove_watcher at_watcher drop_inner cleanup
  step (create updates deletes) h = (create_watcher updates deletes h).1
  step (notified updates deletes) h = notify updates deletes none h
  step (polled id) h = poll_stream id h
  step (removed id) h = remove_watcher id h
  step (stream_dropped id) h = at_watcher id drop_inner h
  step cleaned h = cleanup h

  unfoldable pub run : List (Step U D) → WatchHub U D → WatchHub U D
  unfolding step
  run [] h = h
  run (s ∷ ss) h = run ss (step s h)

  abbrev response : Poll U D → List U × List D
  response (ready updates deletes) = (updates, deletes)
  response _ = ([], [])

  -- What the polls of the watcher `id` return.
  unfoldable pub answered : ℕ → Step U D → WatchHub U D → List U × List D
  unfolding poll_next
  answered id (polled i) h =
      if i == id
      then elim (map_get id h.inners) [ none ↦ ([], []) | some w ↦ response (poll_next w).0 ]
      else ([], [])
  answered id _ h = ([], [])

  abbrev joined : List U × List D → List U × List D → List U × List D
  joined a b = (a.0 ++ b.0, a.1 ++ b.1)

  unfoldable pub delivered : ℕ → List (Step U D) → WatchHub U D → List U × List D
  unfolding answered step
  delivered id [] h = ([], [])
  delivered id (s ∷ ss) h = joined (answered id s h) (delivered id ss (step s h))

  -- What is told to all watchers.
  abbrev pub told_by : Step U D → List U × List D
  told_by (notified updates deletes) = (updates, deletes)
  told_by _ = ([], [])

  abbrev pub told : List (Step U D) → List U × List D
  told [] = ([], [])
  told (s ∷ ss) = joined (told_by s) (told ss)

  abbrev pub held : ℕ → WatchHub U D → List U × List D
  held id h = elim (map_get id h.inners) [ none ↦ ([], []) | some w ↦ (w.updates, w.deletes) ]

  -- The step does not remove the watcher nor drop its stream.
  abbrev pub Spares : ℕ → Step U D → Type 0
  Spares id (removed i) = ¬ (i ≡ id)
  Spares id (stream_dropped i) = ¬ (i ≡ id)
  Spares id _ = Unit

  -- The watcher is registered once and live, with these events.
  abbrev pub IsServed : ℕ → WatchHub U D → List U × List D → Type 0
  IsServed id h events =
      (w : WatcherInner U D) × (map_get id h.inners ≡ some w)
      × (w.dropped ≡ false)
      × (w.failure ≡ none)
      × (w.updates ≡ events.0)
      × (w.deletes ≡ events.1)
      × (occurrences id h.watchers ≡ 1)
      × (id ≤ h.next_watcher_id)

  change_inner-get :
      (i id : ℕ) (f : WatcherInner U D → WatcherInner U D) (m : Map (WatcherInner U D))
      (w : WatcherInner U D)
      → map_get id m ≡ some w
      → map_get id (change_inner i f m) ≡ some (if i == id then f w else w)
  unfolding change_inner
  change_inner-get i id f m w e = elim (Option-cases (map_get i m)) [
    | inl missing ↦ ground (arith, missing, e)
    | inr (v, here) ↦ let insert = map_get-insert i id (f v) m in ground (arith, here, insert, e)
  ]

  notify_watchers-absent :
      (id : ℕ) (ids : List ℕ) (updates : List U) (deletes : List D) (h : WatchHub U D)
      (w : WatcherInner U D)
      → occurrences id ids ≡ 0
      → map_get id h.inners ≡ some w
      → map_get id (notify_watchers ids updates deletes none h).inners ≡ some w
  unfolding notify_watchers at_watcher
  notify_watchers-absent id [] updates deletes h w o e = e
  notify_watchers-absent id (i ∷ ids) updates deletes h w o e =
      let get = change_inner-get i id (notify_inner updates deletes none) h.inners w e in
      notify_watchers-absent id ids updates deletes
        (at_watcher i (notify_inner updates deletes none) h) w (ground (arith, o))
        (ground (arith, o, get))

  notify_watchers-once :
      (id : ℕ) (ids : List ℕ) (updates : List U) (deletes : List D) (h : WatchHub U D)
      (w : WatcherInner U D)
      → occurrences id ids ≡ 1
      → map_get id h.inners ≡ some w
      → map_get id (notify_watchers ids updates deletes none h).inners
        ≡ some (notify_inner updates deletes none w)
  unfolding notify_watchers at_watcher
  notify_watchers-once id [] updates deletes h w o e = absurd (ground (arith, o))
  notify_watchers-once id (i ∷ ids) updates deletes h w o e =
      let get = change_inner-get i id (notify_inner updates deletes none) h.inners w e in
      let f = notify_inner updates deletes none in
      elim (Bool-cases (i == id)) [
        | inl here ↦
            notify_watchers-absent id ids updates deletes (at_watcher i f h) (f w)
              (ground (arith, o, here)) (ground (arith, here, get))
        | inr away ↦
            notify_watchers-once id ids updates deletes (at_watcher i f h) w
              (ground (arith, o, away)) (ground (arith, away, get))
      ]

  notify_watchers-rest :
      (ids : List ℕ) (updates : List U) (deletes : List D) (h : WatchHub U D)
      → ((notify_watchers ids updates deletes none h).watchers ≡ h.watchers)
        × ((notify_watchers ids updates deletes none h).next_watcher_id ≡ h.next_watcher_id)
  unfolding notify_watchers at_watcher
  notify_watchers-rest [] updates deletes h = (refl, refl)
  notify_watchers-rest (i ∷ ids) updates deletes h =
      notify_watchers-rest ids updates deletes (at_watcher i (notify_inner updates deletes none) h)

  -- A poll of a live watcher hands over what is held and keeps the rest.
  poll_next-keeps :
      (w : WatcherInner U D)
      → w.dropped ≡ false
      → w.failure ≡ none
      → ((response (poll_next w).0).0 ++ (poll_next w).1.updates ≡ w.updates)
        × ((response (poll_next w).0).1 ++ (poll_next w).1.deletes ≡ w.deletes)
        × ((poll_next w).1.dropped ≡ false)
        × ((poll_next w).1.failure ≡ none)
  unfolding poll_next refill
  poll_next-keeps w d f = elim (Bool-cases (not (is_empty w.updates) || not (is_empty w.deletes))) [
    | inl full ↦ (
      rw (d, f, full) (append-nil w.updates),
      rw (d, f, full) (append-nil w.deletes),
      rw (d, f, full) d,
      rw (d, f, full) refl,
    )
    | inr idle ↦
        (rw (d, f, idle) refl, rw (d, f, idle) refl, rw (d, f, idle) d, rw (d, f, idle) refl)
  ]

  -- One step tells the watcher what it tells all, or hands over what the watcher holds.
  step-IsServed :
      (id : ℕ) (s : Step U D) (h : WatchHub U D) (events : List U × List D)
      → Spares id s
      → IsServed id h events
      → (after : List U × List D) × IsServed id (step s h) after
        × ((answered id s h).0 ++ after.0 ≡ events.0 ++ (told_by s).0)
        × ((answered id s h).1 ++ after.1 ≡ events.1 ++ (told_by s).1)
  unfolding step answered notify poll_stream remove_watcher
  step-IsServed id (create updates deletes) h events p (w, e, d, f, u, l, o, le) =
      let new = h.next_watcher_id + 1 in
      let away : (new == id) ≡ false = ground (arith, le) in
      let insert =
        map_get-insert new id
          record {
            waker = false;
            updates = updates;
            deletes = deletes;
            failure = none;
            dropped = false;
          }
          h.inners in
      (
        events,
        (w, insert ∙ rw away e, d, f, u, l, rw away o, omega (arith, le)),
        sym (append-nil events.0),
        sym (append-nil events.1),
      )
  step-IsServed id (notified updates deletes) h events p (w, e, d, f, u, l, o, le) =
      let rest = notify_watchers-rest h.watchers updates deletes h in
      (
        (events.0 ++ updates, events.1 ++ deletes),
        (
          notify_inner updates deletes none w,
          notify_watchers-once id h.watchers updates deletes h w o e,
          rw (notify_inner, d) refl,
          rw (notify_inner, d) f,
          rw (notify_inner, d) (ap (λ t. t ++ updates) u),
          rw (notify_inner, d) (ap (λ t. t ++ deletes) l),
          ap (occurrences id) rest.0 ∙ o,
          omega (arith, rest.1, le),
        ),
        refl,
        refl,
      )
  step-IsServed id (polled i) h events p (w, e, d, f, u, l, o, le) =
      let get = change_inner-get i id (λ v. (poll_next v).1) h.inners w e in
      let (ku, kl, kd, kf) = poll_next-keeps w d f in
      elim (Bool-cases (i == id)) [
        | inl here ↦ (
          ((poll_next w).1.updates, (poll_next w).1.deletes),
          ((poll_next w).1, get ∙ rw here refl, kd, kf, refl, refl, o, le),
          rw (here, e) (ku ∙ u ∙ sym (append-nil events.0)),
          rw (here, e) (kl ∙ l ∙ sym (append-nil events.1)),
        )
        | inr away ↦ (
          events,
          (w, get ∙ rw away refl, d, f, u, l, o, le),
          rw away (sym (append-nil events.0)),
          rw away (sym (append-nil events.1)),
        )
      ]
  step-IsServed id (removed i) h events p (w, e, d, f, u, l, o, le) =
      let away : (i == id) ≡ false = ground (arith, p) in
      let get : map_get id (change_inner i drop_inner h.inners) ≡ some w =
        change_inner-get i id drop_inner h.inners w e ∙ rw away refl in
      let kept = occurrences-retain id (λ j. not (j == i)) h.watchers (ground (arith, p)) in
      let served : IsServed id (remove_watcher i h) events =
        elim (Bool-cases (any (λ j. j == i) h.watchers)) [
          | inl listed ↦ (w, rw listed get, d, f, u, l, rw listed (kept ∙ o), rw listed le)
          | inr missing ↦ (w, rw missing e, d, f, u, l, rw missing o, rw missing le)
        ] in
      (events, served, sym (append-nil events.0), sym (append-nil events.1))
  step-IsServed id (stream_dropped i) h events p (w, e, d, f, u, l, o, le) =
      let away : (i == id) ≡ false = ground (arith, p) in
      let get : map_get id (change_inner i drop_inner h.inners) ≡ some w =
        change_inner-get i id drop_inner h.inners w e ∙ rw away refl in
      (events, (w, get, d, f, u, l, o, le), sym (append-nil events.0), sym (append-nil events.1))
  step-IsServed id cleaned h events p (w, e, d, f, u, l, o, le) =
      let live : not (is_dropped h id) ≡ true = rw (is_dropped, e, d) refl in
      (
        events,
        (
          w,
          e,
          d,
          f,
          u,
          l,
          occurrences-retain id (λ i. not (is_dropped h i)) h.watchers live ∙ o,
          le,
        ),
        sym (append-nil events.0),
        sym (append-nil events.1),
      )

  -- While a watcher is served, what its polls return and what it then holds is what it held, followed
  -- by all that was told, in order and once. The watcher is registered once, and neither removed nor
  -- is its stream dropped.
  pub run-delivered :
      (id : ℕ) (ss : List (Step U D)) (h : WatchHub U D) (events : List U × List D)
      → All (Spares id) ss
      → IsServed id h events
      → (after : List U × List D) × IsServed id (run ss h) after
        × ((delivered id ss h).0 ++ after.0 ≡ events.0 ++ (told ss).0)
        × ((delivered id ss h).1 ++ after.1 ≡ events.1 ++ (told ss).1)
  unfolding run delivered
  run-delivered id [] h events p v =
      (events, v, sym (append-nil events.0), sym (append-nil events.1))
  run-delivered id (s ∷ ss) h events p v =
      let (mid, v', u, l) = step-IsServed id s h events p.0 v in
      let (after, v'', us, ls) = run-delivered id ss (step s h) mid p.1 v' in
      (
        after,
        v'',
        append-chain (answered id s h).0 mid.0 events.0 (told_by s).0 (delivered id ss (step s h)).0
            after.0 (told ss).0 u us,
        append-chain (answered id s h).1 mid.1 events.1 (told_by s).1 (delivered id ss (step s h)).1
            after.1 (told ss).1 l ls,
      )
