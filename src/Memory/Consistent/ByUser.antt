-- ===== src/Memory/Consistent/ByUser.antt =====
-- `DeleteByUserID`. While its loop runs the user index still lists the user's sessions, and is cleared
-- at the end.
use tokmesh_go.Base.{
  ℕ, ◌+◌, ◌≡◌, ◌≢◌, ◌∙◌, refl, true, false, none, List, [], ◌∷◌, ite, arith, Option-cases, inl, inr,
  length, if◌then◌else◌,
}
use tokmesh_go.Domain.Str.{Str, str_dec}
use tokmesh_go.Cmap
use tokmesh_go.Cmap.Laws as CmapLaws
use tokmesh_go.Memory.UserIndex
use tokmesh_go.Memory.UserIndex.Laws as IndexLaws
use tokmesh_go.Memory.SessionSet.{elem}
use tokmesh_go.Memory.Store.{Store}
use tokmesh_go.Memory.Store.Invariant.{IsConsistent, points, holds, owned, named}
use tokmesh_go.Memory.Change.{pop_one, pop_ids, delete_by_user_id}
use tokmesh_go.Memory.Consistent.Tokens.{get-drop_token, drop_token-IsValid}

-- The invariant of the loop: what is left of the user's sessions is on the list, and the list has no
-- other user's session.
record IsDraining (user : Str) (l : List Str) (s : Store) : Type 0 where
  sessions_valid : Cmap.IsValid s.sessions
  tokens_valid : Cmap.IsValid s.tokens
  users_valid : UserIndex.IsValid s.user_index
  ids : (id : Str) → named (Cmap.get str_dec s.sessions id) id ≡ true
  by_token :
      (hash id : Str)
      → points (Cmap.get str_dec s.tokens hash) id ≡ holds (Cmap.get str_dec s.sessions id) hash
  others :
      (v id : Str)
      → user ≢ v
      → UserIndex.member s.user_index v id ≡ owned (Cmap.get str_dec s.sessions id) v
  listed : (id : Str) → owned (Cmap.get str_dec s.sessions id) user ≡ true → elem id l ≡ true
  own :
      (v id : Str) → user ≢ v → elem id l ≡ true → owned (Cmap.get str_dec s.sessions id) v ≡ false

module _ (user id : Str) (l : List Str) (s : Store) (d : IsDraining user (id ∷ l) s) where
  popped :
      (j : Str)
      → Cmap.get str_dec (pop_one s id).0.sessions j
        ≡ ite (str_dec id j) none (Cmap.get str_dec s.sessions j)
  unfolding pop_one
  popped j = ground (arith, CmapLaws.get-pop str_dec s.sessions d.sessions_valid id j)

  popped-IsValid : Cmap.IsValid (pop_one s id).0.sessions × Cmap.IsValid (pop_one s id).0.tokens
  unfolding pop_one
  popped-IsValid = elim (Option-cases (Cmap.pop str_dec s.sessions id).1) [
    | inl e ↦ ground (arith, CmapLaws.pop-IsValid str_dec s.sessions d.sessions_valid id)
    | inr (x, e) ↦ ground (
      arith,
      CmapLaws.pop-IsValid str_dec s.sessions d.sessions_valid id,
      drop_token-IsValid s.tokens d.tokens_valid x.token_hash,
    )
  ]

  popped-index : (pop_one s id).0.user_index ≡ s.user_index
  unfolding pop_one
  popped-index = ground arith

  popped-by_token :
      (hash j : Str)
      → points (Cmap.get str_dec (pop_one s id).0.tokens hash) j
        ≡ holds (Cmap.get str_dec (pop_one s id).0.sessions j) hash
  popped-by_token hash j = elim (Option-cases (Cmap.get str_dec s.sessions id)) [
    | inl e ↦
        unfold pop_one points holds in
        ground (
          arith,
          CmapLaws.pop_lem str_dec s.sessions d.sessions_valid id,
          CmapLaws.get-pop str_dec s.sessions d.sessions_valid id j,
          d.by_token hash j,
        )
    | inr (x, e) ↦
        unfold pop_one points holds in
        ground (
          arith,
          CmapLaws.pop_lem str_dec s.sessions d.sessions_valid id,
          CmapLaws.get-pop str_dec s.sessions d.sessions_valid id j,
          get-drop_token s.tokens d.tokens_valid x.token_hash hash,
          d.by_token hash j,
          d.by_token hash id,
        )
  ]

  pop_one-IsDraining : IsDraining user l (pop_one s id).0
  unfolding elem
  pop_one-IsDraining = record {
    sessions_valid = popped-IsValid.0;
    tokens_valid = popped-IsValid.1;
    users_valid = rw popped-index d.users_valid;
    ids = λ j. unfold named in ground (arith, popped j, d.ids j);
    by_token = popped-by_token;
    others = λ v j ne.
        unfold owned in ground (arith, popped j, popped-index, d.others v j ne, d.own v j ne);
    listed = λ j e. unfold owned in ground (arith, popped j, d.listed j);
    own = λ v j ne e. unfold owned in ground (arith, popped j, d.own v j ne);
  }

pop_ids-IsDraining :
    (user : Str) (l : List Str) (s : Store) (n : ℕ)
    → IsDraining user l s
    → IsDraining user [] (pop_ids s l n).0
unfolding pop_ids
pop_ids-IsDraining user [] s n d = d
pop_ids-IsDraining user (id ∷ l) s n d =
    pop_ids-IsDraining user l (pop_one s id).0 (n + (pop_one s id).1)
      (pop_one-IsDraining user id l s d)

-- What the loop leaves under each ID.
get-pop_ids :
    (user : Str) (l : List Str) (s : Store) (n : ℕ)
    → IsDraining user l s
    → (j : Str)
    → Cmap.get str_dec (pop_ids s l n).0.sessions j
      ≡ (if elem j l then none else Cmap.get str_dec s.sessions j)
unfolding pop_ids elem
get-pop_ids user [] s n d j = refl
get-pop_ids user (id ∷ l) s n d j =
    get-pop_ids user l (pop_one s id).0 (n + (pop_one s id).1) (pop_one-IsDraining user id l s d) j
    ∙ ground (arith, popped user id l s d j)

elem-nil : (l : List Str) (id : Str) → length l ≡ 0 → elem id l ≡ false
unfolding elem
elem-nil [] id h = refl
elem-nil (x ∷ l) id h = absurd (omega arith)

module _ (s : Store) (c : IsConsistent s) (user : Str) where
  start-IsDraining : IsDraining user (UserIndex.get s.user_index user) s
  start-IsDraining = record {
    sessions_valid = c.sessions_valid;
    tokens_valid = c.tokens_valid;
    users_valid = c.users_valid;
    ids = c.ids;
    by_token = c.by_token;
    others = λ v id ne. c.by_user v id;
    listed = λ id e. ground (arith, IndexLaws.elem-get s.user_index user id, c.by_user user id);
    own = λ v id ne e.
        unfold owned in
        ground (arith, IndexLaws.elem-get s.user_index user id, c.by_user user id, c.by_user v id);
  }

  cleared-IsConsistent :
      (t : Store)
      → IsDraining user [] t
      → IsConsistent (record t { user_index = UserIndex.clear t.user_index user })
  unfolding elem
  cleared-IsConsistent t d = record {
    sessions_valid = d.sessions_valid;
    tokens_valid = d.tokens_valid;
    users_valid = IndexLaws.clear-IsValid t.user_index d.users_valid user [];
    ids = d.ids;
    by_token = d.by_token;
    by_user = λ v id. ground (
      arith,
      IndexLaws.member-clear t.user_index d.users_valid user [] v id,
      d.others v id,
      d.listed id,
    );
  }

  -- `DeleteByUserID` keeps a store consistent.
  pub delete_by_user_id-IsConsistent : IsConsistent (delete_by_user_id s user).0
  unfolding delete_by_user_id
  delete_by_user_id-IsConsistent = ground (
    arith,
    cleared-IsConsistent _
        (pop_ids-IsDraining user (UserIndex.get s.user_index user) s 0 start-IsDraining),
  )

  -- On a consistent store, `DeleteByUserID` removes exactly the sessions of the user.
  pub get-delete_by_user_id :
      (id : Str)
      → Cmap.get str_dec (delete_by_user_id s user).0.sessions id ≡ (
          if owned (Cmap.get str_dec s.sessions id) user
          then none
          else Cmap.get str_dec s.sessions id)
  unfolding delete_by_user_id
  get-delete_by_user_id id = ground (
    arith,
    get-pop_ids user (UserIndex.get s.user_index user) s 0 start-IsDraining id,
    IndexLaws.elem-get s.user_index user id,
    c.by_user user id,
    elem-nil (UserIndex.get s.user_index user) id,
  )
