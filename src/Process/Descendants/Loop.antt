-- ===== src/Process/Descendants/Loop.antt =====
-- What holds at the head of the loop that searches the table.
use runwhenidle.Prelude.{
  ℕ, suc, ◌+◌, ◌<◌, ◌≡◌, refl, sym, ◌∙◌, ap, subst, ◌⊎◌, inl, inr, List, [], ◌∷◌, ◌++◌, arith,
  length, get_or, length-append, length-map,
}
use runwhenidle.Prelude.Int.{ℤ}
use runwhenidle.Prelude.Distinct.{
  Distinct, Distinct-append, not-mem_of_Distinct, length-le_of_Distinct, eq_of_Distinct-map,
}
use runwhenidle.Process.Descendants.{ProcessInfo, ids}
use runwhenidle.Process.Descendants.Forest.{Descendant, child, below, IsForest, Descendant-mem}
use runwhenidle.Process.Descendants.Search.{children, mem-children, children-mem, Distinct-children}
use mathlib.Core.List.{Memᴰ, map-append, append_assoc}
use mathlib.Core.List.Memᴰ

abbrev pub pid_of : ProcessInfo → ℤ
pid_of p = p.process_id

ids-append : (xs ys : List ProcessInfo) → ids (xs ++ ys) ≡ ids xs ++ ids ys
ids-append xs ys = map-append pid_of xs ys

get_or-append : (xs ys : List ℤ) (y d : ℤ) → get_or (xs ++ y ∷ ys) (length xs) d ≡ y
get_or-append [] ys y d = refl
get_or-append (x ∷ xs) ys y d = get_or-append xs ys y d

module _ (table : List ProcessInfo) (root : ℤ) (forest : IsForest table root) where
  older : {p : ProcessInfo} → Descendant table root p → forest.age root < forest.age p.process_id
  older (child {p} m e) =
      subst (λ r. forest.age r < forest.age p.process_id) e (forest.age_grows p m)
  older (below {p} {q} d m e) =
      let h = subst (λ r. forest.age r < forest.age p.process_id) e (forest.age_grows p m) in
      omega (arith, older d)

  -- descendants with distinct ids leave room for one more entry
  pub room :
      (found : List ProcessInfo)
      → Distinct (ids found)
      → ((p : ProcessInfo) → Memᴰ p found → Descendant table root p)
      → length found < length table
  room found d sound =
      let le =
        length-le_of_Distinct (forest.outside.process_id ∷ ids found) (ids table) (not_found, d)
          listed in
      omega (arith, length-map pid_of found, length-map pid_of table)
    where
      not_found : ¬ Memᴰ forest.outside.process_id (ids found)
      not_found m =
          let (p, m', e) = Memᴰ.of_map pid_of found m in
          let same =
            eq_of_Distinct-map pid_of p forest.outside table forest.distinct_ids
              (Descendant-mem (sound p m')) forest.outside_listed e in
          forest.outside_free (subst (Descendant table root) same (sound p m'))

      listed : (a : ℤ) → Memᴰ a (forest.outside.process_id ∷ ids found) → Memᴰ a (ids table)
      listed a (Memᴰ.head e) = Memᴰ.cast e (Memᴰ.map pid_of forest.outside_listed)
      listed a (Memᴰ.tail m) =
          let (p, m', e) = Memᴰ.of_map pid_of found m in
          Memᴰ.cast (sym e) (Memᴰ.map pid_of (Descendant-mem (sound p m')))

  -- What holds at the head of the outer loop: the ids in `done` have had their children added.
  pub record Inv (index : ℕ) (checked : ℤ) (found : List ProcessInfo) : Type 0 where
    pub done : List ℤ
    pub pending : List ℤ
    pub split : root ∷ ids found ≡ done ++ pending
    pub index_eq : length done ≡ index
    pub current : (pending ≡ []) ⊎ ((rest : List ℤ) × (pending ≡ checked ∷ rest))
    pub distinct : Distinct (root ∷ ids found)
    pub sound : (p : ProcessInfo) → Memᴰ p found → Descendant table root p
    pub parents : (p : ProcessInfo) → Memᴰ p found → Memᴰ p.parent_process_id done
    pub closed : (p : ProcessInfo) → Memᴰ p table → Memᴰ p.parent_process_id done → Memᴰ p found

  pub Inv-start : Inv 0 root []
  Inv-start = record {
    done = [];
    pending = root ∷ [];
    split = refl;
    index_eq = refl;
    current = inr ([], refl);
    distinct = (Memᴰ.not-nil, tt);
    sound = λ p m. absurd (Memᴰ.not-nil m);
    parents = λ p m. absurd (Memᴰ.not-nil m);
    closed = λ p m n. absurd (Memᴰ.not-nil n);
  }

  module _ (garbage : ℕ → ℤ) (index : ℕ) (checked : ℤ) (found : List ProcessInfo)
      (inv : Inv index checked found) (rest : List ℤ) (now : inv.pending ≡ checked ∷ rest) where
    abbrev new : List ProcessInfo
    new = children checked table

    split_now : root ∷ ids found ≡ inv.done ++ checked ∷ rest
    split_now = subst (λ l. root ∷ ids found ≡ inv.done ++ l) now inv.split

    fresh : ¬ Memᴰ checked inv.done
    fresh m =
        not-mem_of_Distinct inv.done (checked ∷ rest) checked
          (subst Distinct split_now inv.distinct) m (Memᴰ.head refl)

    checked_known : Memᴰ checked (root ∷ ids found)
    checked_known =
        subst (Memᴰ checked) (sym split_now) (Memᴰ.append_right inv.done (Memᴰ.head refl))

    sound_new : (p : ProcessInfo) → Memᴰ p new → Descendant table root p
    sound_new p m = from_parent (mem-children checked p table m) (Memᴰ.cases_cons checked_known)
      where
        from_parent :
            Memᴰ p table × (p.parent_process_id ≡ checked)
            → (checked ≡ root) ⊎ Memᴰ checked (ids found)
            → Descendant table root p
        from_parent (listed, e) (inl is_root) = child listed (e ∙ is_root)
        from_parent (listed, e) (inr is_found) =
            let (q, m', e') = Memᴰ.of_map pid_of found is_found in
            below (inv.sound q m') listed (e ∙ sym e')

    sound_all : (p : ProcessInfo) → Memᴰ p (found ++ new) → Descendant table root p
    sound_all p m = elim (Memᴰ.append_cases found m) [
      | inl old ↦ inv.sound p old
      | inr added ↦ sound_new p added
    ]

    apart : (i : ℤ) → Memᴰ i (ids found) → ¬ Memᴰ i (ids new)
    apart i m n =
        let (p, m', e) = Memᴰ.of_map pid_of found m in
        let (q, n', e') = Memᴰ.of_map pid_of new n in
        let (listed, parent) = mem-children checked q table n' in
        let same =
          eq_of_Distinct-map pid_of p q table forest.distinct_ids (Descendant-mem (inv.sound p m'))
            listed (e ∙ sym e') in
        fresh (Memᴰ.cast (sym parent ∙ sym (ap (λ r. r.parent_process_id) same)) (inv.parents p m'))

    not_root : ¬ Memᴰ root (ids (found ++ new))
    not_root m =
        let (p, m', e) = Memᴰ.of_map pid_of (found ++ new) m in
        let h = older (sound_all p m') in
        let h' = subst (λ r. forest.age root < forest.age r) e h in omega arith

    Distinct-all : Distinct (root ∷ ids (found ++ new))
    Distinct-all = (
      not_root,
      subst Distinct (sym (ids-append found new)) (
          Distinct-append (ids found) (ids new) inv.distinct.1
            (Distinct-children checked table forest.distinct_ids) apart),
    )

    pub fits : length (found ++ new) < length table
    fits = room (found ++ new) Distinct-all.1 sound_all

    pub index_fits : index < length found + 1
    index_fits = omega (
      arith,
      ap length split_now,
      length-append inv.done (checked ∷ rest),
      length-map pid_of found,
      inv.index_eq,
    )

    abbrev pub next : ℤ
    next = get_or (ids (found ++ new)) index (garbage index)

    split_next : root ∷ ids (found ++ new) ≡ (inv.done ++ checked ∷ []) ++ (rest ++ ids new)
    split_next =
        ap (λ l. root ∷ l) (ids-append found new)
        ∙ ap (λ l. l ++ ids new) split_now
        ∙ append_assoc inv.done (checked ∷ rest) (ids new)
        ∙ sym (append_assoc inv.done (checked ∷ []) (rest ++ ids new))

    length_next : length (inv.done ++ checked ∷ []) ≡ index + 1
    length_next = omega (arith, length-append inv.done (checked ∷ []), inv.index_eq)

    current_next : (l : List ℤ) → rest ++ ids new ≡ l → (l ≡ []) ⊎ ((r : List ℤ) × (l ≡ next ∷ r))
    current_next [] e = inl refl
    current_next (y ∷ ys) e = inr (
      ys,
      ap (λ x. x ∷ ys)
          (sym (get_or-append before ys y (garbage index))
            ∙ ap (λ l. get_or l (length before) (garbage index)) (sym whole)
            ∙ ap (λ n. get_or (root ∷ ids (found ++ new)) n (garbage index)) reached),
    )
      where
        before : List ℤ
        before = inv.done ++ checked ∷ []

        whole : root ∷ ids (found ++ new) ≡ before ++ y ∷ ys
        whole = subst (λ l. root ∷ ids (found ++ new) ≡ before ++ l) e split_next

        reached : length before ≡ suc index
        reached = omega (arith, length_next)

    pub Inv-next : Inv (index + 1) next (found ++ new)
    Inv-next = record {
      done = inv.done ++ checked ∷ [];
      pending = rest ++ ids new;
      split = split_next;
      index_eq = length_next;
      current = current_next (rest ++ ids new) refl;
      distinct = Distinct-all;
      sound = sound_all;
      parents = λ p m. elim (Memᴰ.append_cases found m) [
        | inl old ↦ Memᴰ.append_left (checked ∷ []) (inv.parents p old)
        | inr added ↦ Memᴰ.append_right inv.done (Memᴰ.head (mem-children checked p table added).1)
      ];
      closed = λ p m n. elim (Memᴰ.append_cases inv.done n) [
        | inl old ↦ Memᴰ.append_left new (inv.closed p m old)
        | inr last ↦
            Memᴰ.append_right found (children-mem checked p table m (Memᴰ.eq_of_singleton last))
      ];
    }
