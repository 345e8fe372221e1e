-- ===== src/Compose/Committed.antt =====
-- What `generate_commit_from_rootfs` and `compose_image` of src/compose.rs have done when they
-- succeed.
use pacman_ostree.Base.{
  ℕ, String, ◌≡◌, refl, ap, ◌∙◌, Option, none, some, List, [], ◌∷◌, ◌++◌, ok, arith,
}
use pacman_ostree.System.Calls.{
  Call, RepoCall, begin_transaction, commit_transaction, write_root_metadata, write_dfd_to_mtree,
  write_mtree, ensure_dir, remove, set_contents_checksum, set_metadata_checksum, write_commit, repo,
  History,
}
use pacman_ostree.System.Ending.{
  Does, after, Does-pure, Does-lift, Does-asks, Does-try_asks, Does-with_context, Does-bind,
  Does-then, Does-fs,
}
use pacman_ostree.Transaction.Prepare.{Sources}
use pacman_ostree.Compose.Image.{
  Lookup, leaf, subdir, not_found, failed, MtreeEntry, Ostree, ask, mtree_lookup, lookup_dir,
  move_etc, place_etc, postprocess_mtree, found_entry, require_dir, as_dir, label_to_xattrs, usr_of,
  generate_commit_from_rootfs,
}

-- The attribute of the root directory.
abbrev selinux : Option String → Option (String × String)
selinux none = none
selinux (some label) = some ("security.selinux", label)

module _ (src : Sources) (ostree : Ostree) where
  abbrev root : ℕ
  root = ostree.root_mtree

  -- The calls that move the tree `etc_dir` below /usr.
  abbrev moving : History → ℕ → ℕ → ℕ → List Call
  moving h etc_dir usr usretc =
      let ensured = repo (write_mtree etc_dir) ∷ repo (ensure_dir usr "etc") ∷ [] in
      let contents =
        repo (set_contents_checksum usretc (ostree.contents_checksum (after h ensured) etc_dir)) in
      ensured
      ++ (contents
          ∷ repo (
              set_metadata_checksum usretc
                (ostree.metadata_checksum (after h (ensured ++ contents ∷ [])) etc_dir))
          ∷ repo (remove root "etc")
          ∷ [])

  -- What becomes of /etc: nothing where there is none, and else it is moved, where there is no
  -- /usr/etc.
  pub data IsMoved (h : History) : List Call → Type 0 where
    no_etc : ostree.lookup h root "etc" ≡ not_found → IsMoved h []
    moved :
        (etc_dir usr usretc : ℕ)
        → ostree.lookup h root "etc" ≡ subdir etc_dir
        → ostree.lookup h root "usr/etc" ≡ not_found
        → ostree.lookup (after h (repo (write_mtree etc_dir) ∷ [])) root "usr" ≡ subdir usr
        → ostree.ensured
            (after h (repo (write_mtree etc_dir) ∷ repo (ensure_dir usr "etc") ∷ []))
            usr
            "etc"
          ≡ ok usretc
        → IsMoved h (moving h etc_dir usr usretc)

  -- The transaction is begun, and the tree filled from the directory.
  abbrev filling : History → Option String → List Call
  filling h label =
      let made = repo begin_transaction ∷ repo (write_root_metadata (selinux label)) ∷ [] in
      made
      ++ (repo (set_metadata_checksum root (ostree.metadata_checksum (after h made) root))
          ∷ repo (write_dfd_to_mtree root)
          ∷ [])

  -- One transaction, and the commit that was written in it.
  pub record IsCommitted (h : History) (commit : String) (h' : History) : Type 0 where
    pub label : Option String
    pub moves : List Call
    pub time : ℕ
    pub labelled : ostree.root_label (after h (repo begin_transaction ∷ [])) ≡ ok label
    pub etc_moved : IsMoved (after h (filling h label)) moves
    pub timed :
        ostree.creation_time
          (after (after (after h (filling h label)) moves) (repo (write_mtree root) ∷ []))
        ≡ ok time
    pub written :
        ostree.commit_checksum (
          after
            (after (after h (filling h label)) moves)
            (repo (write_mtree root) ∷ repo (write_commit time) ∷ []))
        ≡ ok commit
    pub calls :
        h'
        ≡ after
            (after (after h (filling h label)) moves)
            (repo (write_mtree root) ∷ repo (write_commit time) ∷ repo commit_transaction ∷ [])

  found : {A : Type 0} {a b : A} → ok a ≡ ok b → a ≡ b
  found e = ground (arith, e)

  module _ (P : Unit {0} → History → Type 0) where
    pub asked :
        (c : RepoCall) (h : History) → P tt (after h (repo c ∷ [])) → Does (ask src ostree c) h P
    asked c h p = Does-fs src.site.host (repo c) h P p

  usr_found : (l : Lookup) {u : ℕ} → usr_of src ostree l ≡ ok u → l ≡ subdir u
  usr_found (leaf checksum) e = cc
  usr_found (subdir t) e = ap subdir (found e)
  usr_found not_found e = cc
  usr_found (failed t) e = cc

  -- The tree at a path, if there is one.
  abbrev IsDir : Lookup → Option ℕ → Type 0
  IsDir l none = l ≡ not_found
  IsDir l (some d) = l ≡ subdir d

  IsDir-found :
      (name : String) (l : Lookup) {entry : Option MtreeEntry} (o : Option ℕ)
      → found_entry l ≡ ok entry
      → as_dir name entry ≡ ok o
      → IsDir l o
  unfolding found_entry require_dir
  IsDir-found name (leaf checksum) {entry} o e f =
      let g : as_dir name (some (MtreeEntry.leaf checksum)) ≡ ok o =
        ap (as_dir name) (found e) ∙ f in
      absurd (ground (arith, g))
  IsDir-found name (subdir t) {entry} none e f =
      let g : ok (some t) ≡ ok none = ap (as_dir name) (found e) ∙ f in
      absurd (ground (arith, found g))
  IsDir-found name (subdir t) {entry} (some d) e f =
      let g : ok (some t) ≡ ok (some d) = ap (as_dir name) (found e) ∙ f in
      ap subdir (ground (arith, found g))
  IsDir-found name not_found {entry} none e f = refl
  IsDir-found name not_found {entry} (some d) e f =
      let g : ok none ≡ ok (some d) = ap (as_dir name) (found e) ∙ f in
      absurd (ground (arith, found g))
  IsDir-found name (failed t) {entry} o e f = cc

  move_etc_does :
      (etc_dir : ℕ) (h : History) (P : Unit {0} → History → Type 0)
      → ostree.lookup h root "etc" ≡ subdir etc_dir
      → ostree.lookup h root "usr/etc" ≡ not_found
      → ((moves : List Call) → IsMoved h moves → P tt (after h moves))
      → Does (move_etc src ostree root etc_dir) h P
  unfolding move_etc
  move_etc_does etc_dir h P there free p = Does-then _ _ _ _ (
      asked _ _ _ (
        Does-bind _ _ _ _ (
          Does-try_asks _ _ _ λ usr at. Does-then _ _ _ _ (
            asked _ _ _ (
              Does-bind _ _ _ _ (
                Does-try_asks _ _ _ λ usretc made. Does-bind _ _ _ _ (
                  Does-asks _ _ _ (
                    Does-then _ _ _ _ (
                      asked _ _ _ (
                        Does-bind _ _ _ _ (
                          Does-asks _ _ _ (
                            Does-then _ _ _ _ (
                              asked _ _ _ (
                                asked _ _ _ (
                                  p (moving h etc_dir usr usretc) (
                                    moved etc_dir usr usretc there free (usr_found _ at)
                                      made))))))))))))))))

  place_etc_does :
      (etc_dir usr_etc_dir : Option ℕ) (h : History) (P : Unit {0} → History → Type 0)
      → IsDir (ostree.lookup h root "etc") etc_dir
      → IsDir (ostree.lookup h root "usr/etc") usr_etc_dir
      → ((moves : List Call) → IsMoved h moves → P tt (after h moves))
      → Does (place_etc src ostree root etc_dir usr_etc_dir) h P
  unfolding place_etc
  place_etc_does none usr_etc_dir h P there free p = Does-pure tt h P (p [] (no_etc there))
  place_etc_does (some d) none h P there free p = move_etc_does d h P there free p
  place_etc_does (some d) (some u) h P there free p = Does-lift _ h P λ a e. cc

  lookup_dir_does :
      (path name : String) (h : History) (P : Option ℕ → History → Type 0)
      → ((o : Option ℕ) → IsDir (ostree.lookup h root path) o → P o h)
      → Does (lookup_dir src ostree root path name) h P
  unfolding lookup_dir mtree_lookup
  lookup_dir_does path name h P p = Does-bind _ _ _ _ (
      Does-try_asks _ _ _
        λ entry e. Does-lift _ _ _ λ o f. p o (IsDir-found name (ostree.lookup h root path) o e f))

  postprocess_does :
      (h : History) (P : Unit {0} → History → Type 0)
      → ((moves : List Call) → IsMoved h moves → P tt (after h moves))
      → Does (postprocess_mtree src ostree root) h P
  unfolding postprocess_mtree
  postprocess_does h P p = Does-bind _ _ _ _ (
      lookup_dir_does _ "/etc" _ _ λ etc_dir there. Does-bind _ _ _ _ (
        lookup_dir_does _ "/usr/etc" _ _
          λ usr_etc_dir free. place_etc_does etc_dir usr_etc_dir h P there free p))

  pub committed : (h : History) → Does (generate_commit_from_rootfs src ostree) h (IsCommitted h)
  unfolding generate_commit_from_rootfs label_to_xattrs
  committed h = Does-then _ _ _ _ (
      asked _ _ _ (
        Does-bind _ _ _ _ (
          Does-try_asks _ _ _ λ label labelled. Does-then _ _ _ _ (
            Does-with_context _ _ _ _ (
              asked _ _ _ (
                Does-bind _ _ _ _ (
                  Does-asks _ _ _ (
                    Does-then _ _ _ _ (
                      asked _ _ _ (
                        Does-then _ _ _ _ (
                          asked _ _ _ (
                            Does-then _ _ _ _ (
                              postprocess_does _ _ λ moves etc_moved. Does-then _ _ _ _ (
                                asked _ _ _ (
                                  Does-bind _ _ _ _ (
                                    Does-with_context _ _ _ _ (
                                      Does-try_asks _ _ _ λ time timed. Does-then _ _ _ _ (
                                        asked _ _ _ (
                                          Does-bind _ _ _ _ (
                                            Does-try_asks _ _ _ λ commit written.
                                              Does-then _ _ _ _ (
                                                asked _ _ _ (
                                                  Does-pure commit _ _ (record {
                                                    label = label;
                                                    moves = moves;
                                                    time = time;
                                                    labelled = labelled;
                                                    etc_moved = etc_moved;
                                                    timed = timed;
                                                    written = written;
                                                    calls = refl;
                                                  })))))))))))))))))))))))

  -- A commit that succeeds is one transaction: it is begun, the tree filled from the directory with
  -- the root's label, /etc moved below /usr where there is one, the whole tree written and the
  -- commit of it, and the transaction closed; nothing else is called, and every call has succeeded.
  -- The commit that is returned is the one that was written.
  pub generate_commit_from_rootfs-IsCommitted :
      (h : History) {commit : String}
      → (generate_commit_from_rootfs src ostree h).0 ≡ ok commit
      → IsCommitted h commit (generate_commit_from_rootfs src ostree h).1
  generate_commit_from_rootfs-IsCommitted h {commit} e = let d = committed h in d.holds commit e
