-- ===== src/Cluster/Fsm/Replay.antt =====
-- Logs that the leader's own methods wrote, and snapshots between two parts of a log.
use tokmesh_go.Base.{
  ℕ, ◌≡◌, refl, sym, ◌∙◌, ap, true, Option, none, some, List, [], ◌∷◌, ◌++◌, ite, ℕ_discrete, arith,
  Bool, false, ◌≢◌, Option-cases, inl, inr,
}
use tokmesh_go.Domain.Str.{Str, str_dec}
use tokmesh_go.GoMap
use tokmesh_go.GoMap.{GoMap}
use tokmesh_go.GoMap.Laws.{get-set, get-delete}
use tokmesh_go.Cluster.ShardMap.{assign_shard, get_shard}
use tokmesh_go.Cluster.Fsm
use tokmesh_go.Cluster.Fsm.{◌>>=◌}

-- What the leader proposes.
pub data Command : Type 0 where
  assign : Fsm.ShardMapUpdatePayload → Command
  join : Fsm.MemberJoinPayload → Command
  leave : Fsm.MemberLeavePayload → Command

-- The owner of a shard that a list of commands leaves: the one of its last assignment.
abbrev pub owner_after : ℕ → Option Str → List Command → Option Str
owner_after s owner [] = owner
owner_after s owner (assign u ∷ l) =
    owner_after s (ite (ℕ_discrete u.shard_id s) (some u.node_id) owner) l
owner_after s owner (join j ∷ l) = owner_after s owner l
owner_after s owner (leave v ∷ l) = owner_after s owner l

-- The member under an ID that a list of commands leaves.
abbrev pub member_after : Str → Option Fsm.Member → List Command → Option Fsm.Member
member_after n m [] = m
member_after n m (assign u ∷ l) = member_after n m l
member_after n m (join j ∷ l) = member_after n (ite (str_dec j.node_id n) (some (Fsm.joined j)) m) l
member_after n m (leave v ∷ l) = member_after n (ite (str_dec v.node_id n) none m) l

-- What was handed to Raft is the next entry.
abbrev pub prepend : Option Fsm.Bytes → List Fsm.Bytes → List Fsm.Bytes
prepend none l = l
prepend (some b) l = b ∷ l

module _ (lib : Fsm.Library) where
  -- The entry of a command, as the leader encodes it.
  abbrev pub entry : Command → Option Fsm.Bytes
  entry (assign u) = Fsm.apply_shard_update lib true u
  entry (join j) = Fsm.apply_join lib true j
  entry (leave l) = Fsm.apply_leave lib true l

  abbrev pub log_of : List Command → List Fsm.Bytes
  log_of [] = []
  log_of (c ∷ l) = prepend (entry c) (log_of l)

  abbrev pub IsText : Command → Type 0
  IsText (assign u) = lib.IsUpdateText u
  IsText (join j) = lib.IsJoinText j
  IsText (leave l) = lib.IsLeaveText l

  abbrev pub AllText : List Command → Type 0
  AllText [] = Unit
  AllText (c ∷ l) = IsText c × AllText l

  -- What a log leaves.
  pub record Agrees (f g : Fsm.Fsm) (l : List Command) : Type 0 where
    pub owners : (s : ℕ) → get_shard g.shard_map s ≡ owner_after s (get_shard f.shard_map s) l
    pub members :
        (n : Str)
        → GoMap.get str_dec (Fsm.get_members g) n
          ≡ member_after n (GoMap.get str_dec (Fsm.get_members f) n) l
    pub ring : g.shard_map.sorted_hashes ≡ f.shard_map.sorted_hashes

  entry-some : (c : Command) → entry c ≢ none
  unfolding Fsm.apply_shard_update Fsm.apply_join Fsm.apply_leave
  entry-some (assign u) e = absurd (ground (arith, e))
  entry-some (join j) e = absurd (ground (arith, e))
  entry-some (leave l) e = absurd (ground (arith, e))

  -- What an entry does to a machine.
  abbrev exec : Fsm.Fsm → Command → Fsm.Fsm
  exec f (assign u) = record f {
    shard_map = assign_shard f.shard_map u.shard_id u.node_id u.replicas;
  }
  exec f (join j) = record f {
    members = some (GoMap.set str_dec (Fsm.or_empty f.members) j.node_id (Fsm.joined j));
  }
  exec f (leave l) = record f { members = Fsm.drop_member f.members l.node_id }

  abbrev exec_all : Fsm.Fsm → List Command → Fsm.Fsm
  exec_all f [] = f
  exec_all f (c ∷ l) = exec_all (exec f c) l

  has_map : Fsm.Fsm → Bool
  has_map f = elim f.members [ none ↦ false | some ms ↦ true ]

  exec-has_map : (f : Fsm.Fsm) (c : Command) → has_map f ≡ true → has_map (exec f c) ≡ true
  unfolding has_map Fsm.drop_member
  exec-has_map f (assign u) h = h
  exec-has_map f (join j) h = refl
  exec-has_map f (leave l) h = elim (Option-cases f.members) [
    | inl e ↦ absurd (ground (arith, e, h))
    | inr (ms, e) ↦ rw e refl
  ]

  apply-entry :
      (f : Fsm.Fsm) (c : Command) (b : Fsm.Bytes)
      → has_map f ≡ true
      → IsText c
      → entry c ≡ some b
      → Fsm.apply lib f b ≡ Fsm.done (exec f c)
  unfolding has_map Fsm.apply Fsm.dispatch Fsm.apply_shard_map_update Fsm.apply_member_join
      Fsm.apply_member_leave Fsm.put_member Fsm.apply_shard_update Fsm.apply_join Fsm.apply_leave
  apply-entry f (assign u) b h t e = ground (
    arith,
    lib.entry_lem (record { entry_type = 1; payload = lib.marshal_update u }) (lib.update-IsJson u),
    lib.update_lem u t,
  )
  apply-entry f (join j) b h t e = ground (
    arith,
    lib.entry_lem (record { entry_type = 2; payload = lib.marshal_join j }) (lib.join-IsJson j),
    lib.join_lem j t,
  )
  apply-entry f (leave l) b h t e = ground (
    arith,
    lib.entry_lem (record { entry_type = 3; payload = lib.marshal_leave l }) (lib.leave-IsJson l),
    lib.leave_lem l t,
  )

  apply_all-log_of :
      (f : Fsm.Fsm) (l : List Command)
      → has_map f ≡ true
      → AllText l
      → Fsm.apply_all lib f (log_of l) ≡ Fsm.done (exec_all f l)
  apply_all-log_of f [] h t = refl
  apply_all-log_of f (c ∷ l) h t = elim (Option-cases (entry c)) [
    | inl e ↦ absurd (entry-some c e)
    | inr (b, e) ↦
        ap (λ o. Fsm.apply_all lib f (prepend o (log_of l))) e
        ∙ ap (λ o. o >>= λ g. Fsm.apply_all lib g (log_of l)) (apply-entry f c b h t.0 e)
        ∙ apply_all-log_of (exec f c) l (exec-has_map f c h) t.1
  ]

  exec-owner :
      (f : Fsm.Fsm) (l : List Command) (s : ℕ)
      → get_shard (exec_all f l).shard_map s ≡ owner_after s (get_shard f.shard_map s) l
  unfolding get_shard assign_shard
  exec-owner f [] s = refl
  exec-owner f (assign u ∷ l) s =
      exec-owner (exec f (assign u)) l s
      ∙ ap (λ o. owner_after s o l) (get-set ℕ_discrete f.shard_map.shards u.shard_id u.node_id s)
  exec-owner f (join j ∷ l) s = exec-owner (exec f (join j)) l s
  exec-owner f (leave v ∷ l) s = exec-owner (exec f (leave v)) l s

  exec-ring :
      (f : Fsm.Fsm) (l : List Command)
      → (exec_all f l).shard_map.sorted_hashes ≡ f.shard_map.sorted_hashes
  unfolding assign_shard
  exec-ring f [] = refl
  exec-ring f (assign u ∷ l) = exec-ring (exec f (assign u)) l
  exec-ring f (join j ∷ l) = exec-ring (exec f (join j)) l
  exec-ring f (leave v ∷ l) = exec-ring (exec f (leave v)) l

  get-drop_member :
      (o : Option (GoMap Str Fsm.Member)) (id n : Str)
      → GoMap.get str_dec (Fsm.or_empty (Fsm.drop_member o id)) n
        ≡ ite (str_dec id n) none (GoMap.get str_dec (Fsm.or_empty o) n)
  unfolding Fsm.drop_member GoMap.get
  get-drop_member none id n = ground arith
  get-drop_member (some ms) id n = get-delete str_dec ms id n

  exec-member :
      (f : Fsm.Fsm) (l : List Command) (n : Str)
      → GoMap.get str_dec (Fsm.get_members (exec_all f l)) n
        ≡ member_after n (GoMap.get str_dec (Fsm.get_members f) n) l
  unfolding Fsm.get_members
  exec-member f [] n = refl
  exec-member f (assign u ∷ l) n = exec-member (exec f (assign u)) l n
  exec-member f (join j ∷ l) n =
      exec-member (exec f (join j)) l n
      ∙ ap (λ o. member_after n o l)
          (get-set str_dec (Fsm.or_empty f.members) j.node_id (Fsm.joined j) n)
  exec-member f (leave v ∷ l) n =
      exec-member (exec f (leave v)) l n
      ∙ ap (λ o. member_after n o l) (get-drop_member f.members v.node_id n)

  -- A machine whose map of members is not nil applies any log of entries that `ApplyShardUpdate`,
  -- `ApplyMemberJoin` and `ApplyMemberLeave` of the leader handed to Raft, with texts that JSON
  -- keeps, without a panic; then each shard has the owner of its last assignment, each ID has the
  -- member of its last join unless it left after it, and the ring of hashes is as it was.
  pub apply_all-Agrees :
      (f : Fsm.Fsm) (l : List Command)
      → f.members ≢ none
      → AllText l
      → (g : Fsm.Fsm) × (Fsm.apply_all lib f (log_of l) ≡ Fsm.done g) × Agrees f g l
  unfolding has_map
  apply_all-Agrees f l has t = elim (Option-cases f.members) [
    | inl e ↦ absurd (has e)
    | inr (ms, e) ↦ (
      exec_all f l,
      apply_all-log_of f l (rw e refl) t,
      record { owners = exec-owner f l; members = exec-member f l; ring = exec-ring f l },
    )
  ]

  apply_all-append :
      (f : Fsm.Fsm) (l k : List Fsm.Bytes)
      → Fsm.apply_all lib f (l ++ k) ≡ (Fsm.apply_all lib f l >>= λ g. Fsm.apply_all lib g k)
  apply_all-append f [] k = refl
  apply_all-append f (b ∷ l) k = next (λ g. apply_all-append g l k) (Fsm.apply lib f b)
    where
      next :
          ((g : Fsm.Fsm)
            → Fsm.apply_all lib g (l ++ k) ≡ (Fsm.apply_all lib g l >>= λ h. Fsm.apply_all lib h k))
          → (o : Fsm.Outcome Fsm.Fsm)
          → (o >>= λ g. Fsm.apply_all lib g (l ++ k))
            ≡ ((o >>= λ g. Fsm.apply_all lib g l) >>= λ g. Fsm.apply_all lib g k)
      next rest (Fsm.done g) = rest g
      next rest Fsm.failed = refl
      next rest Fsm.panicked = refl

  -- No entry makes the map of members nil.
  apply-has_map :
      (f g : Fsm.Fsm) (b : Fsm.Bytes)
      → has_map f ≡ true
      → Fsm.apply lib f b ≡ Fsm.done g
      → has_map g ≡ true
  unfolding has_map Fsm.apply Fsm.dispatch Fsm.apply_shard_map_update Fsm.apply_member_join
      Fsm.apply_member_leave Fsm.put_member Fsm.drop_member
  apply-has_map f g b h e = ground arith

  -- A snapshot and `Restore` keep the whole state.
  restore-snapshot :
      (f : Fsm.Fsm)
      → has_map f ≡ true
      → lib.IsStateText (Fsm.snapshot f)
      → Fsm.restore lib (Fsm.persist lib (Fsm.snapshot f)) ≡ Fsm.done f
  unfolding has_map Fsm.restore Fsm.persist Fsm.snapshot Fsm.restored
  restore-snapshot f h t =
      let doc = lib.encode_state (Fsm.snapshot f) in
      ground (arith, lib.gunzip-gzip doc, lib.state_lem (Fsm.snapshot f) t)

  apply_all-has_map :
      (f g : Fsm.Fsm) (l : List Fsm.Bytes)
      → has_map f ≡ true
      → Fsm.apply_all lib f l ≡ Fsm.done g
      → has_map g ≡ true
  apply_all-has_map f g [] h e = ground (arith, e, h)
  apply_all-has_map f g (b ∷ l) h e =
      next (λ f' k e'. apply_all-has_map f' g l k e') (Fsm.apply lib f b)
        (λ f' e'. apply-has_map f f' b h e') e
    where
      next :
          ((f' : Fsm.Fsm)
            → has_map f' ≡ true
            → Fsm.apply_all lib f' l ≡ Fsm.done g
            → has_map g ≡ true)
          → (o : Fsm.Outcome Fsm.Fsm) → ((f' : Fsm.Fsm) → o ≡ Fsm.done f' → has_map f' ≡ true)
          → (o >>= λ f'. Fsm.apply_all lib f' l) ≡ Fsm.done g
          → has_map g ≡ true
      next ih (Fsm.done f') kept e = ih f' (kept f' refl) e
      next ih Fsm.failed kept e = absurd (ground (arith, e))
      next ih Fsm.panicked kept e = absurd (ground (arith, e))

  -- For any first part and any rest of a log: if a new machine applies the first part and its
  -- state has texts that JSON keeps, then what `Restore` makes of its snapshot, given the rest of
  -- the log, comes to what a new machine makes of the whole log, a panic included.
  pub replay_restored :
      (f : Fsm.Fsm) (first rest : List Fsm.Bytes)
      → Fsm.apply_all lib Fsm.new first ≡ Fsm.done f
      → lib.IsStateText (Fsm.snapshot f)
      → (Fsm.restore lib (Fsm.persist lib (Fsm.snapshot f)) >>= λ g. Fsm.apply_all lib g rest)
        ≡ Fsm.apply_all lib Fsm.new (first ++ rest)
  unfolding has_map Fsm.new
  replay_restored f first rest e t =
      let kept = apply_all-has_map Fsm.new f first refl e in
      ap (λ o. o >>= λ g. Fsm.apply_all lib g rest) (restore-snapshot f kept t ∙ sym e)
      ∙ sym (apply_all-append Fsm.new first rest)
