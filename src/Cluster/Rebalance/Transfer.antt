-- ===== src/Cluster/Rebalance/Transfer.antt =====
-- What a migration sends, and how its cleanup ends.
use tokmesh_go.Base.{
  ℕ, ◌+◌, ◌≡◌, ◌≢◌, ◌⊎◌, ◌<◌, refl, sym, ◌∙◌, ap, Bool, true, false, not, ◌&&◌, ◌||◌, subst, none,
  some, List, [], ◌∷◌, ◌++◌, length, ltb, ◌==◌, if◌then◌else◌, ℕ_discrete, arith, Option-cases,
  Bool-cases, inl, inr, length-append,
}
use mathlib.Core.List.{append_assoc, append-nil}
use tokmesh_go.Domain.Str.{Str, str_dec}
use tokmesh_go.Domain.Session.{Session, is_expired}
use tokmesh_go.GoMap
use tokmesh_go.GoMap.Laws.{get-set}
use tokmesh_go.Cmap
use tokmesh_go.Cmap.{Map}
use tokmesh_go.Cmap.Entries.{IsPlaced}
use tokmesh_go.Cmap.Iter.{values}
use tokmesh_go.Cluster.Cleanup.{blocked, cleanup_shard_data}
use tokmesh_go.Cluster.Cleanup.Blocked.{IsNamed, cleanup-blocked}
use tokmesh_go.Cluster.Rebalance.{
  Link, Migration, Progress, Visit, continue, stop, visit, stream_sessions, Tasks, TransferTask,
  migrated, completed, completed_task, no_progress, finish, migrate_shard_data,
}

module _ (now min_ttl shard_id : ℕ) where
  -- The sessions that are to move: of the shard, and alive for long enough.
  abbrev pub is_due : Session → Bool
  is_due x =
      x.shard_id == shard_id && not (is_expired now x) && not (ltb x.expires_at (now + min_ttl))

  abbrev pub due : List Session → List Session
  due [] = []
  due (x ∷ l) = if is_due x then x ∷ due l else due l

  -- The sessions of the shard.
  abbrev pub in_shard : List Session → ℕ
  in_shard [] = 0
  in_shard (x ∷ l) = (if x.shard_id == shard_id then 1 else 0) + in_shard l

module _ (link : Link) (now min_ttl shard_id : ℕ) where
  -- Nothing fails on the way.
  pub record IsUp : Type 0 where
    pub marshals : (x : Session) → link.marshal x ≢ none
    pub waits : (x : Session) → link.wait x ≡ true
    pub sends : (x : Session) → link.send x ≡ true

  -- What has been sent and counted after the sessions.
  record Streamed (p q : Progress) (l : List Session) : Type 0 where
    sent : q.sent ≡ p.sent ++ due now min_ttl shard_id l
    count : q.transferred ≡ p.transferred + length (due now min_ttl shard_id l)
    total : q.transferred + q.skipped ≡ p.transferred + p.skipped + in_shard now min_ttl shard_id l

  module _ (up : IsUp) where
    due_sent : (p : Progress) (x : Session) (b : List ℕ) → Progress
    due_sent p x b = record {
      transferred = p.transferred + 1;
      skipped = p.skipped;
      total_bytes = p.total_bytes + length b;
      sent = p.sent ++ x ∷ [];
    }

    visit-Streamed :
        (p : Progress) (x : Session)
        → (q : Progress) × (visit link now min_ttl shard_id p x ≡ continue q)
          × Streamed p q (x ∷ [])
    unfolding visit due_sent
    visit-Streamed p x = elim (Option-cases (link.marshal x)) [
      | inl e ↦ absurd (up.marshals x e)
      | inr (b, e) ↦ elim (Bool-cases (x.shard_id == shard_id)) [
        | inr other ↦ (
          p,
          ground (arith, other),
          record {
            sent = ground (arith, other, append-nil p.sent);
            count = ground (arith, other);
            total = ground (arith, other);
          },
        )
        | inl own ↦ elim (Bool-cases (is_expired now x || ltb x.expires_at (now + min_ttl))) [
          | inl old ↦ (
            record p { skipped = p.skipped + 1 },
            ground (arith, own, old),
            record {
              sent = ground (arith, own, old, append-nil p.sent);
              count = ground (arith, own, old);
              total = ground (arith, own, old);
            },
          )
          | inr young ↦ (
            due_sent p x b,
            ground (arith, own, young, e, up.waits x, up.sends x),
            record {
              sent = ground (arith, own, young);
              count = ground (arith, own, young);
              total = ground (arith, own, young);
            },
          )
        ]
      ]
    ]

    due-append :
        (x : Session) (l : List Session)
        → due now min_ttl shard_id (x ∷ l)
          ≡ due now min_ttl shard_id (x ∷ []) ++ due now min_ttl shard_id l
    due-append x l = ground arith

    stream-Streamed :
        (p : Progress) (l : List Session)
        → Streamed p (stream_sessions link now min_ttl shard_id p l) l
    unfolding stream_sessions
    stream-Streamed p [] = record {
      sent = sym (append-nil p.sent);
      count = omega arith;
      total = omega arith;
    }
    stream-Streamed p (x ∷ l) =
        let (q, e, one) = visit-Streamed p x in
        let rest = stream-Streamed q l in
        let after = λ (v : Visit).
          Streamed p
            (elim v [ stop r ↦ r | continue r ↦ stream_sessions link now min_ttl shard_id r l ])
            (x ∷ l) in
        subst after (sym e) (record {
          sent =
              rest.sent
              ∙ ap (λ s. s ++ due now min_ttl shard_id l) one.sent
              ∙ append_assoc p.sent (due now min_ttl shard_id (x ∷ [])) (due now min_ttl shard_id l)
              ∙ ap (λ s. p.sent ++ s) (sym (due-append x l));
          count = omega (
            arith,
            rest.count,
            one.count,
            ap (length {0}) (due-append x l),
            length-append (due now min_ttl shard_id (x ∷ [])) (due now min_ttl shard_id l),
          );
          total = omega (arith, rest.total, one.total);
        })

-- Each of the sessions has an expiry.
abbrev pub all_expire : List Session → Bool
all_expire [] = true
all_expire (x ∷ l) = not (x.expires_at == 0) && all_expire l

abbrev pub IsIn : Session → List Session → Type 0
IsIn x [] = ⊥
IsIn x (y ∷ l) = (x ≡ y) ⊎ IsIn x l

module _ (now min_ttl shard_id : ℕ) where
  -- The sessions of the shard that will not have expired when the minimal lifetime has passed.
  abbrev pub lasting : List Session → List Session
  lasting [] = []
  lasting (x ∷ l) =
      if x.shard_id == shard_id && not (is_expired (now + min_ttl) x)
      then x ∷ lasting l
      else lasting l

  in-due :
      (x : Session) (l : List Session)
      → IsIn x (due now min_ttl shard_id l)
      → is_due now min_ttl shard_id x ≡ true
  in-due x [] h = absurd h
  in-due x (y ∷ l) h = elim (Bool-cases (is_due now min_ttl shard_id y)) [
    | inr out ↦
        let rest : due now min_ttl shard_id (y ∷ l) ≡ due now min_ttl shard_id l =
          ground (arith, out) in
        in-due x l (subst (IsIn x) rest h)
    | inl is ↦
        let first : due now min_ttl shard_id (y ∷ l) ≡ y ∷ due now min_ttl shard_id l =
          ground (arith, is) in
        let split : IsIn x (y ∷ due now min_ttl shard_id l) = subst (IsIn x) first h in
        elim split [
          | inl same ↦ ap (is_due now min_ttl shard_id) same ∙ is
          | inr later ↦ in-due x l later
        ]
  ]

  unexpiring_out :
      (x : Session)
      → ((t : ℕ) → is_expired t x ≡ false)
      → 0 < now + min_ttl
      → is_due now min_ttl shard_id x ≡ false
  unfolding is_expired
  unexpiring_out x never positive =
      let none_at : x.expires_at ≡ 0 = ground (arith, never (x.expires_at + 1)) in
      ground (arith, none_at, positive)

module _ (link : Link) (accepts : Str → Bool) (now min_ttl shard_id : ℕ)
    (sessions : Map Str Session) (tasks : Tasks) (t : TransferTask)
    (there : GoMap.get ℕ_discrete tasks shard_id ≡ some t)
    (reached : link.connects t.target_addr ≡ true) (taken : link.close ≡ some true) where
  abbrev after : Tasks
  after = (migrate_shard_data link accepts now min_ttl sessions tasks shard_id).0

  abbrev streamed : Progress
  streamed = stream_sessions link now min_ttl shard_id no_progress (values sessions)

  migrate-finish :
      ◌≡◌ {A = Tasks × Migration}
        (migrate_shard_data link accepts now min_ttl sessions tasks shard_id)
        (
          GoMap.set ℕ_discrete tasks shard_id (completed_task t streamed),
          migrated (cleanup_shard_data accepts shard_id sessions),
        )
  unfolding migrate_shard_data finish
  migrate-finish = ground (arith, there, reached, taken)

  task-after : GoMap.get ℕ_discrete after shard_id ≡ some (completed_task t streamed)
  task-after =
      ap (λ (r : Tasks × Migration). GoMap.get ℕ_discrete r.0 shard_id) migrate-finish
      ∙ get-set ℕ_discrete tasks shard_id (completed_task t streamed) shard_id
      ∙ ground arith

  streamed_due :
      IsUp link now min_ttl shard_id
      → (streamed.sent ≡ due now min_ttl shard_id (values sessions))
        × ((done : TransferTask) × (GoMap.get ℕ_discrete after shard_id ≡ some done)
            × (done.status ≡ completed)
            × (done.progress.transferred_items
                ≡ length (due now min_ttl shard_id (values sessions)))
            × (done.progress.total_items ≡ in_shard now min_ttl shard_id (values sessions)))
  streamed_due up =
      let s = stream-Streamed link now min_ttl shard_id up no_progress (values sessions) in
      (
        s.sent,
        (
          completed_task t streamed,
          task-after,
          refl,
          omega (arith, s.count),
          omega (arith, s.total),
        ),
      )

  -- If the task is there, the target is reached and reports success, and no marshalling, wait or
  -- send fails, then at a positive time or with a positive minimal lifetime a session that is not
  -- expired at any time is not sent, and the task is completed all the same.
  pub migrate_skips_unexpiring :
      (x : Session)
      → IsUp link now min_ttl shard_id
      → ((at : ℕ) → is_expired at x ≡ false)
      → 0 < now + min_ttl
      → (¬ IsIn x streamed.sent)
        × ((done : TransferTask) × (GoMap.get ℕ_discrete after shard_id ≡ some done)
            × (done.status ≡ completed))
  migrate_skips_unexpiring x up never positive =
      let (sent, (done, there, status, count, total)) = streamed_due up in
      (
        λ h.
            let is = in-due now min_ttl shard_id x (values sessions) (subst (IsIn x) sent h) in
            let out = unexpiring_out now min_ttl shard_id x never positive in
            absurd (ground (arith, is, out)),
        (done, there, status),
      )

  -- If the task is there, the target is reached and reports success, the sessions are stored under
  -- their IDs in a valid map whose entries are in their shards, and the log takes the deletion of
  -- a stored session of the shard, then `migrateShardData` never ends: the cleanup waits for the
  -- write lock of a shard whose read lock its own scan holds.
  pub migrate_blocks :
      (id : Str) (x : Session)
      → Cmap.IsValid sessions
      → IsPlaced str_dec sessions
      → IsNamed sessions
      → Cmap.get str_dec sessions id ≡ some x
      → x.shard_id ≡ shard_id
      → accepts x.id ≡ true
      → (migrate_shard_data link accepts now min_ttl sessions tasks shard_id).1 ≡ migrated blocked
  migrate_blocks id x valid placed ids e own taken_by =
      ap (λ (r : Tasks × Migration). r.1) migrate-finish
      ∙ ap (λ c. migrated c)
          (cleanup-blocked accepts shard_id sessions id x valid placed ids e
            (ground (arith, own, taken_by)))

  -- If the task is there, the target is reached and reports success, but the stream refuses the
  -- first session of the scan, which is to move and can be marshalled, then nothing is sent and
  -- the task is completed all the same, with no session transferred.
  pub migrate_refused :
      (x : Session) (rest : List Session)
      → values sessions ≡ x ∷ rest
      → is_due now min_ttl shard_id x ≡ true
      → link.marshal x ≢ none
      → link.send x ≡ false
      → (streamed.sent ≡ [])
        × ((done : TransferTask) × (GoMap.get ℕ_discrete after shard_id ≡ some done)
            × (done.status ≡ completed)
            × (done.progress.transferred_items ≡ 0))
  unfolding stream_sessions visit
  migrate_refused x rest e is marshals refused = elim (Option-cases (link.marshal x)) [
    | inl none_e ↦ absurd (marshals none_e)
    | inr (b, be) ↦
        let nothing : streamed ≡ no_progress = ground (arith, e, is, be, refused) in
        (
          ap (λ (p : Progress). p.sent) nothing,
          (
            completed_task t streamed,
            task-after,
            refl,
            ap (λ (p : Progress). p.transferred) nothing,
          ),
        )
  ]
