-- ===== src/Storage/Snapshot/Retention.antt =====
-- What `Prune` leaves: the file that `Load` would take, and no more files than it should.
use tokmesh_go.Base.{
  ℕ, zero, suc, ◌+◌, ◌-◌, ◌*◌, ◌≡◌, ◌≢◌, ◌<◌, ◌≤◌, refl, ap, sym, ◌∙◌, subst, List, [], ◌∷◌, length,
  drop, leb, arith, if◌then◌else◌, Bool-cases, inl, inr, dec_lt,
}
use tokmesh_go.Storage.Snapshot.{Library, Config, load_file}
use tokmesh_go.Storage.Snapshot.Directory.{
  File, list, LoadResult, no_snapshots, load_failed, found, tried, load_newest, load, day, keeps,
  remove_old, prune,
}

module _ (cfg : Config) (now : ℕ) where
  -- What the removals leave of the snapshots.
  kept : List File → List File
  kept [] = []
  kept (f ∷ l) = let rest = kept l in if keeps cfg now (length l) f then f ∷ rest else rest

  list-remove_old : (dir : List File) → list (remove_old cfg now dir) ≡ kept (list dir)
  unfolding list remove_old kept
  list-remove_old [] = refl
  list-remove_old (f ∷ dir) = ground (arith, list-remove_old dir)

  -- The last ones, as many as are retained, all stay.
  kept-all : (l : List File) → length l ≤ cfg.retention_count → kept l ≡ l
  unfolding kept keeps
  kept-all [] p = refl
  kept-all (f ∷ l) p = ground (arith, kept-all l)

  module _ (lib : Library) where
    load_newest-cons :
        (f : File) (l : List File)
        → load_newest lib cfg l ≢ no_snapshots
        → load_newest lib cfg (f ∷ l) ≡ load_newest lib cfg l
    unfolding load_newest
    load_newest-cons f l some_file = by_result (load_newest lib cfg l) some_file
      where
        by_result :
            (r : LoadResult)
            → r ≢ no_snapshots
            → (elim r [
              | no_snapshots ↦ tried (load_file lib cfg f.contents)
              | load_failed ↦ load_failed
              | found sessions info ↦ found sessions info
            ])
              ≡ r
        by_result no_snapshots h = absurd (h refl)
        by_result load_failed h = refl
        by_result (found s i) h = refl

    load_nil : (n : ℕ) → load_newest lib cfg (drop n []) ≡ no_snapshots
    unfolding load_newest
    load_nil zero = refl
    load_nil (suc n) = refl

    -- The files that `drop` leaves are among those that the removals keep.
    load_newest-kept :
        (l : List File)
        → load_newest lib cfg (drop (length l - cfg.retention_count) l) ≢ no_snapshots
        → (load_newest lib cfg (kept l) ≡ load_newest lib cfg l)
          × (load_newest lib cfg l ≢ no_snapshots)
    unfolding kept
    load_newest-kept [] h = absurd (h (load_nil (0 - cfg.retention_count)))
    load_newest-kept (f ∷ l) h = elim (dec_lt (length l) cfg.retention_count) [
      | yes p ↦
          let all : drop (length (f ∷ l) - cfg.retention_count) (f ∷ l) ≡ f ∷ l =
            let e : length (f ∷ l) - cfg.retention_count ≡ 0 = omega arith in
            ap (λ n. drop n (f ∷ l)) e in
          (
            ap (load_newest lib cfg) (kept-all (f ∷ l) (omega arith)),
            subst (λ k. load_newest lib cfg k ≢ no_snapshots) all h,
          )
      | no p ↦
          let fewer : drop (length (f ∷ l) - cfg.retention_count) (f ∷ l)
              ≡ drop (length l - cfg.retention_count) l =
            ap (λ n. drop n (f ∷ l))
              (let e : length (f ∷ l) - cfg.retention_count ≡ suc (length l - cfg.retention_count) =
                  omega arith in
                e) in
          let (same, there) =
            load_newest-kept l (subst (λ k. load_newest lib cfg k ≢ no_snapshots) fewer h) in
          let over = load_newest-cons f l there in
          let there_kept =
            λ (e : load_newest lib cfg (kept l) ≡ no_snapshots). there (sym same ∙ e) in
          let whole = subst (λ r. r ≢ no_snapshots) (sym over) there in
          elim (Bool-cases (keeps cfg now (length l) f)) [
            | inl k ↦ (
              ap (λ b. load_newest lib cfg (if b then f ∷ kept l else kept l)) k
                  ∙ load_newest-cons f (kept l) there_kept
                  ∙ same
                  ∙ sym over,
              whole,
            )
            | inr k ↦ (
              ap (λ b. load_newest lib cfg (if b then f ∷ kept l else kept l)) k ∙ same ∙ sym over,
              whole,
            )
          ]
    ]

    -- If one of the last snapshots, as many as the retention count, is not damaged, then `Prune`
    -- does not change what `Load` gives.
    pub load-prune :
        (dir : List File)
        → load_newest lib cfg (drop (length (list dir) - cfg.retention_count) (list dir))
          ≢ no_snapshots
        → load lib cfg (prune cfg now dir) ≡ load lib cfg dir
    unfolding load prune
    load-prune dir good =
        let pruned =
          ap (load_newest lib cfg) (list-remove_old dir) ∙ (load_newest-kept (list dir) good).0 in
        elim (Bool-cases (leb (length (list dir)) 1)) [
          | inl few ↦
              ap (λ b. load_newest lib cfg (list (if b then dir else remove_old cfg now dir))) few
          | inr many ↦
              ap (λ b. load_newest lib cfg (list (if b then dir else remove_old cfg now dir))) many
              ∙ pruned
        ]

  -- No snapshot is recent.
  abbrev pub AllOld : List File → Type 0
  AllOld [] = Unit
  AllOld (f ∷ l) = (f.mod_time + cfg.retention_days * day ≤ now) × AllOld l

  length-kept-le :
      (l : List File)
      → 0 < cfg.retention_count
      → AllOld l
      → (length (kept l) ≤ length l) × (length (kept l) ≤ cfg.retention_count)
  unfolding kept keeps
  length-kept-le [] p old = (omega arith, omega arith)
  length-kept-le (f ∷ l) p old = ground (arith, length-kept-le l p old.1)

  -- If all snapshots are older than the retention, `Prune` leaves at most as many as are retained.
  pub length-prune-le :
      (dir : List File)
      → 0 < cfg.retention_count
      → AllOld (list dir)
      → length (list (prune cfg now dir)) ≤ cfg.retention_count
  unfolding prune
  length-prune-le dir p old =
      let bound = length-kept-le (list dir) p old in
      elim (Bool-cases (leb (length (list dir)) 1)) [
        | inl few ↦ ground (arith, few)
        | inr many ↦ ground (arith, many, ap (length {0}) (list-remove_old dir), bound)
      ]
