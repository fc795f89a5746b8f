-- ===== src/Root/Watch.antt =====
-- The watchers of the root's metadata (src/server/src/root/watch.rs). The events are a parameter.
-- A watcher in the hub and its stream share one `WatcherInner`: the hub keeps all of them by the
-- watcher's id, and the ids that are registered. The lock makes each function one step.
pub mod Delivery
use sekas.Prelude.{
  ℕ, ◌+◌, Bool, true, false, not, ◌||◌, ◌&&◌, Option, none, some, is_some, is_none, List, [], ◌∷◌,
  ◌++◌, is_empty, any, retain, ◌==◌, if◌then◌else◌, Map, map_get, map_insert,
}
use sekas.Api.{Error}

pub record WatcherInner (U D : Type 0) : Type 0 where
  pub waker : Bool
  pub updates : List U
  pub deletes : List D
  pub failure : Option Error
  pub dropped : Bool

pub record WatchHub (U D : Type 0) : Type 0 where
  pub next_watcher_id : ℕ
  pub watchers : List ℕ
  pub inners : Map (WatcherInner U D)

-- What `poll_next` returns.
pub data Poll (U D : Type 0) : Type 0 where
  pending finished : Poll U D
  failed : Error → Poll U D
  ready : List U → List D → Poll U D

module _ {U D : Type 0} where
  -- `Watcher::notify`; it wakes the stream that waits.
  unfoldable pub notify_inner : List U → List D → Option Error → WatcherInner U D → WatcherInner U D
  notify_inner updates deletes failure w = if w.dropped then w else record {
    waker = false;
    updates = w.updates ++ updates;
    deletes = w.deletes ++ deletes;
    failure = if is_some failure && is_none w.failure then failure else w.failure;
    dropped = w.dropped;
  }

  unfoldable pub drop_inner : WatcherInner U D → WatcherInner U D
  drop_inner w = record {
    waker = w.waker;
    updates = w.updates;
    deletes = w.deletes;
    failure = w.failure;
    dropped = true;
  }

  unfoldable pub refill :
      Bool → Option Error → List U → List D → WatcherInner U D → WatcherInner U D
  refill waker failure updates deletes w = record {
    waker = waker;
    updates = updates;
    deletes = deletes;
    failure = failure;
    dropped = w.dropped;
  }

  -- `Stream::poll_next`.
  unfoldable pub poll_next : WatcherInner U D → Poll U D × WatcherInner U D
  unfolding refill
  poll_next w = if w.dropped then (finished, w) else elim w.failure [
    | some e ↦ (failed e, refill w.waker none w.updates w.deletes w)
    | none ↦
        if not (is_empty w.updates) || not (is_empty w.deletes)
        then (ready w.updates w.deletes, refill w.waker none [] [] w)
        else (pending, refill true none w.updates w.deletes w)
  ]

  -- The inner of one watcher is changed.
  unfoldable pub change_inner :
      ℕ → (WatcherInner U D → WatcherInner U D) → Map (WatcherInner U D) → Map (WatcherInner U D)
  unfolding map_get map_insert
  change_inner id f m = elim (map_get id m) [ none ↦ m | some w ↦ map_insert id (f w) m ]

  unfoldable pub at_watcher :
      ℕ → (WatcherInner U D → WatcherInner U D) → WatchHub U D → WatchHub U D
  unfolding change_inner
  at_watcher id f h = record {
    next_watcher_id = h.next_watcher_id;
    watchers = h.watchers;
    inners = change_inner id f h.inners;
  }

  -- `create_watcher`, and `set_init_resp` under the hub's lock; an id stays below 2 ^ 64.
  unfoldable pub create_watcher : List U → List D → WatchHub U D → ℕ × WatchHub U D
  unfolding map_insert
  create_watcher updates deletes h =
      (let id = h.next_watcher_id + 1 in
        (
          id,
          record {
            next_watcher_id = id;
            watchers = id ∷ h.watchers;
            inners =
                map_insert id
                  record {
                    waker = false;
                    updates = updates;
                    deletes = deletes;
                    failure = none;
                    dropped = false;
                  }
                  h.inners;
          },
        ))

  -- The hub drops its watcher, if it has it.
  unfoldable pub remove_watcher : ℕ → WatchHub U D → WatchHub U D
  unfolding change_inner drop_inner
  remove_watcher id h =
      if any (λ i. i == id) h.watchers
      then record {
        next_watcher_id = h.next_watcher_id;
        watchers = retain (λ i. not (i == id)) h.watchers;
        inners = change_inner id drop_inner h.inners;
      }
      else h

  -- The loop over the watchers.
  unfoldable pub notify_watchers :
      List ℕ → List U → List D → Option Error → WatchHub U D → WatchHub U D
  unfolding at_watcher notify_inner
  notify_watchers [] updates deletes failure h = h
  notify_watchers (id ∷ ids) updates deletes failure h =
      notify_watchers ids updates deletes failure
        (at_watcher id (notify_inner updates deletes failure) h)

  -- An error is not passed on.
  unfoldable pub notify : List U → List D → Option Error → WatchHub U D → WatchHub U D
  unfolding notify_watchers
  notify updates deletes error h = notify_watchers h.watchers updates deletes none h

  unfoldable pub notify_updates : List U → WatchHub U D → WatchHub U D
  unfolding notify
  notify_updates updates h = notify updates [] none h

  unfoldable pub notify_deletes : List D → WatchHub U D → WatchHub U D
  unfolding notify
  notify_deletes deletes h = notify [] deletes none h

  unfoldable pub is_dropped : WatchHub U D → ℕ → Bool
  is_dropped h id = elim (map_get id h.inners) [ none ↦ true | some w ↦ w.dropped ]

  unfoldable pub cleanup : WatchHub U D → WatchHub U D
  unfolding is_dropped
  cleanup h = record {
    next_watcher_id = h.next_watcher_id;
    watchers = retain (λ id. not (is_dropped h id)) h.watchers;
    inners = h.inners;
  }
