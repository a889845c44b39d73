-- ===== src/Process/Table/Snapshot.antt =====
-- `get_child_processes` returns exactly the descendants in a snapshot of /proc, where the kernel
-- behaves as documented.
use runwhenidle.Prelude.{
  ℕ, ◌*◌, ◌≤◌, ◌<◌, ◌≡◌, ◌↔◌, refl, ◌∙◌, true, Option, none, some, List, [], ◌∷◌, ◌++◌, arith,
  length, length-append, ◌≢◌, subst, sym,
}
use runwhenidle.Prelude.Int.{ℤ, pos}
use runwhenidle.System.{
  Os, Event, State, Dirent, value, Wp, Wp-bind, Wp-mono, Wp-pure, Wp-ask, Wp-lift, Wp-branch,
  Wp-result, Framed, Wp-bind-Framed, Wp-Silent, Silent, Silent-bind_ask, Silent-bind, Silent-gets,
  Silent-when, Silent-stderr, silent_rules, signals,
}
use runwhenidle.Process.Stat.Silence.{StatParses, read_parent-Silent}
use runwhenidle.Process.Descendants.{ProcessInfo}
use runwhenidle.Process.Descendants.Forest.{Descendant, IsForest}
use runwhenidle.Process.Descendants.Correct.{descendants_correct}
use runwhenidle.Process.Table.{
  number_of_processes_initially_allocated, grow, entry_of, read_numbered, read_entry, store,
  read_entries, abort_without_proc, read_directory, read_all_processes, find_descendants,
  get_child_processes,
}
use mathlib.Core.List.{Memᴰ}

-- The first stage can return this table.
abbrev pub IsSnapshot : Os → List ProcessInfo → Type 0
IsSnapshot os table = (s : State) × ((read_all_processes os s).0 ≡ value table)

-- What the program relies on: memory is there, the lines of stat files have the documented form,
-- and what it reads of /proc is a forest of processes with numbers other than 0.
pub record ProcWorks (os : Os) (root : ℤ) : Type 0 where
  pub allocates : (h : List Event) (n : ℕ) → os.allocates h n ≡ true
  pub stat_parses : StatParses os
  pub forest : (table : List ProcessInfo) → IsSnapshot os table → IsForest table root
  pub numbered :
      (table : List ProcessInfo)
      → IsSnapshot os table
      → (p : ProcessInfo) → Memᴰ p table
      → p.process_id ≢ pos 0

module _ (os : Os) (root : ℤ) (works : ProcWorks os root) where
  entry_of-Silent : (p parent : ℤ) → Silent (entry_of os p parent)
  unfolding entry_of
  entry_of-Silent p parent = search silent_rules

  read_numbered-Silent : (p : Option ℤ) → Silent (read_numbered os p)
  unfolding read_numbered
  read_numbered-Silent none = search silent_rules
  read_numbered-Silent (some p) =
      search (silent_rules, entry_of-Silent, read_parent-Silent os works.stat_parses p)

  read_entry-Silent : (entry : Dirent) → Silent (read_entry os entry)
  unfolding read_entry
  read_entry-Silent entry = search (silent_rules, read_numbered-Silent)

  -- After it there is room for one more entry.
  grow-Wp :
      (total allocated : ℕ) (s : State)
      → total ≤ allocated
      → 0 < allocated
      → Wp
          (grow os total allocated)
          (Framed s (λ a tr. (total < a) × (signals tr ≡ signals s.trace)))
          (Framed s (λ c tr. (c ≡ 1) × (signals tr ≡ signals s.trace)))
          s
  unfolding grow
  grow-Wp total allocated s h p =
      Wp-branch _ _ _
        (λ full.
          Wp-bind-Framed (λ a tr. (a ≡ true) × (signals tr ≡ signals s.trace)) (λ c tr. ⊥)
            (Wp-ask _ _ (refl, (works.allocates s.trace (allocated * 2), refl)))
            (λ a tr g.
              Wp-branch _ _ _ (λ _. Wp-pure (allocated * 2) (refl, (ground arith, g.1)))
                (λ refused. cc))
            (λ c tr g. absurd g))
        (λ spare. Wp-pure allocated (refl, (ground arith, refl)))

  store-Wp :
      (allocated : ℕ) (all : List ProcessInfo) (found : Option ProcessInfo) (s : State)
      → length all < allocated
      → Wp
          (store os true allocated all found)
          (Framed s (λ all' tr. (length all' ≤ allocated) × (signals tr ≡ signals s.trace)))
          (Framed s (λ c tr. (c ≡ 1) × (signals tr ≡ signals s.trace)))
          s
  unfolding store
  store-Wp allocated all none s h = Wp-pure all (refl, (omega arith, refl))
  store-Wp allocated all (some p) s h =
      Wp-branch _ _ _
        (λ _. Wp-pure (all ++ p ∷ []) (refl, (omega (arith, length-append all (p ∷ [])), refl)))
        (λ full. absurd (ground arith))

  read_entries-Wp :
      (entries : List Dirent) (allocated : ℕ) (all : List ProcessInfo) (s : State)
      → length all ≤ allocated
      → 0 < allocated
      → Wp
          (read_entries os true entries allocated all)
          (Framed s (λ _ tr. signals tr ≡ signals s.trace))
          (Framed s (λ c tr. (c ≡ 1) × (signals tr ≡ signals s.trace)))
          s
  unfolding read_entries
  read_entries-Wp [] allocated all s h p = Wp-pure all (refl, refl)
  read_entries-Wp (entry ∷ entries) allocated all s h p =
      Wp-bind-Framed _ _ (grow-Wp (length all) allocated s h p)
        (λ a tr g.
          Wp-Silent (read_entry-Silent entry)
            (λ found tr' e.
              Wp-bind-Framed _ _ (store-Wp a all found (record s { trace = tr' }) g.0)
                (λ all' tr'' k.
                  let w =
                    read_entries-Wp entries a all' (record s { trace = tr'' }) k.0 (omega arith) in
                  let back = k.1 ∙ e ∙ g.1 in
                  Wp-mono w (λ _ t q. (q.0, q.1 ∙ back)) (λ c t q. (q.0, (q.1.0, q.1.1 ∙ back))))
                (λ c tr'' k. (refl, (k.0, k.1 ∙ e ∙ g.1))))
            (λ tr' e. (refl, (refl, e ∙ g.1))))
        (λ c tr g. (refl, g))

  read_entries-Silent :
      (entries : List Dirent)
      → Silent (read_entries os true entries number_of_processes_initially_allocated [])
  read_entries-Silent entries = record {
    at = λ s. read_entries-Wp entries 4096 [] s (omega arith) (omega arith);
  }

  abort-Silent : {A : Type 0} → Silent (abort_without_proc os {A = A})
  unfolding abort_without_proc
  abort-Silent = search silent_rules

  read_directory-Silent : (entries : Option (List Dirent)) → Silent (read_directory os entries)
  unfolding read_directory
  read_directory-Silent none = abort-Silent
  read_directory-Silent (some entries) =
      Silent-bind_ask _ _ _ (λ a tr. refl)
        λ h.
          rw (works.allocates h number_of_processes_initially_allocated)
            (Silent-bind _ _ (read_entries-Silent entries) (λ all. search silent_rules))

  read_all-Silent : Silent (read_all_processes os)
  unfolding read_all_processes
  read_all-Silent =
      Silent-bind_ask _ _ _ (λ a tr. refl) (λ h. read_directory-Silent (os.read_proc h))

  -- What a call returns: the descendants of `root` in a table that the first stage can return.
  pub record IsAnswer (found : List ProcessInfo) : Type 0 where
    pub table : List ProcessInfo
    pub snapshot : IsSnapshot os table
    pub exact : (p : ProcessInfo) → Memᴰ p found ↔ Descendant table root p

  find_descendants-Wp :
      (table : List ProcessInfo) (s : State)
      → IsSnapshot os table
      → Wp
          (find_descendants os root table)
          (Framed s (λ found tr. IsAnswer found × (signals tr ≡ signals s.trace)))
          (Framed s (λ c tr. (c ≡ 1) × (signals tr ≡ signals s.trace)))
          s
  unfolding find_descendants
  find_descendants-Wp table s snap =
      Wp-bind-Framed (λ a tr. (a ≡ true) × (signals tr ≡ signals s.trace)) (λ c tr. ⊥)
        (Wp-ask _ _ (refl, (works.allocates s.trace (length table), refl)))
        (λ a tr g.
          Wp-bind-Framed (λ _ tr'. signals tr' ≡ signals s.trace) (λ c tr'. ⊥)
            (Wp-branch _ _ _ (λ _. Wp-pure tt (refl, g.1)) (λ refused. cc))
            (λ _ tr' e.
              Wp-Silent (Silent-gets _)
                (λ garbage tr'' e'.
                  let (found, ends, exact, _, _) =
                    descendants_correct garbage table root (works.forest table snap) in
                  Wp-bind-Framed (λ a tr. (a ≡ found) × (signals tr ≡ signals s.trace)) (λ c tr. ⊥)
                    (Wp-lift _ found ends (refl, (refl, e' ∙ e)))
                    (λ f tr3 q.
                      Wp-Silent (Silent-when _ _ (Silent-stderr _ _))
                        (λ _ tr4 e4. Wp-pure f (
                          refl,
                          (
                            record {
                              table = table;
                              snapshot = snap;
                              exact =
                                  subst
                                    (λ l. (p : ProcessInfo) → Memᴰ p l ↔ Descendant table root p)
                                    (sym q.0) exact;
                            },
                            e4 ∙ q.1,
                          ),
                        ))
                        (λ tr4 e4. (refl, (refl, e4 ∙ q.1))))
                    (λ c tr h. absurd h))
                (λ tr'' e'. (refl, (refl, e' ∙ e))))
            (λ c tr h. absurd h))
        (λ c tr h. absurd h)

  pub get_child_processes-Wp :
      (s : State)
      → Wp
          (get_child_processes os root)
          (Framed s (λ found tr. IsAnswer found × (signals tr ≡ signals s.trace)))
          (Framed s (λ c tr. (c ≡ 1) × (signals tr ≡ signals s.trace)))
          s
  unfolding get_child_processes
  get_child_processes-Wp s =
      Wp-bind (Wp-result (read_all-Silent.at s))
        (λ table t h.
          Wp-mono (find_descendants-Wp table t (s, h.0))
            (λ found u q. (q.0 ∙ h.1.0, (q.1.0, q.1.1 ∙ h.1.1)))
            (λ c u q. (q.0 ∙ h.1.0, (q.1.0, q.1.1 ∙ h.1.1))))
        (λ c t h. h)
