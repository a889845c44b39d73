-- ===== src/Wayland/Registry.antt =====
-- What the announcements of a registry lead to.
use runwhenidle.Prelude.{
  ℕ, ◌≡◌, refl, sym, ap, subst, ◌∙◌, Bool, true, false, not, ◌&&◌, Option, none, some, ◌++◌, List,
  [], ◌∷◌, ltb, if◌then◌else◌, arith,
}
use mathlib.Core.Bool.{false≢true}
use runwhenidle.System.{
  Os, Event, Kind, notifier, Global, RegistryCallback, global, global_remove, State, Claim, Wp,
  Wp-mono, Wp-and, Triple, Triple-pre, Triple-post, Triple-pure, Triple-modify, Triple-bind,
  Triple-bind_modify, Triple-branch, Triple-when, Triple-ask, Triple-emit, Triple-fact,
}
use runwhenidle.Arguments.Options.{strcmp_equal}
use runwhenidle.Wayland.{
  wl_seat, ext_idle_notifier_v1, is_null, pass, set_wayland, bind, wayland_registry_global,
  registry_callback, registry_callbacks,
}
use runwhenidle.Wayland.Binding.{
  first_of, seat_request, notifier_request, seat_requests, notifier_requests, if_null, seat_only,
  callbacks-Asks,
}
use runwhenidle.Wayland.Notification.{created_or_not-signals}

-- Memory can be had, so that binding gives an object.
abbrev pub Binds : Os → Type 0
Binds os =
    (h : List Event) (kind : Kind) (name version : ℕ)
    → is_null (os.wayland.bind h kind name version) ≡ false

-- Whether an interface is announced.
abbrev pub announces : List ℕ → List RegistryCallback → Bool
announces interface [] = false
announces interface (global g ∷ rest) =
    if strcmp_equal g.interface interface then true else announces interface rest
announces interface (global_remove name ∷ rest) = announces interface rest

-- The version of the first announcement of a notifier, which is bound at version 2 at most.
abbrev pub first_version : ℕ → List RegistryCallback → ℕ
first_version unset [] = unset
first_version unset (global g ∷ rest) =
    if strcmp_equal g.interface ext_idle_notifier_v1
    then (if ltb g.version 2 then g.version else 2)
    else first_version unset rest
first_version unset (global_remove name ∷ rest) = first_version unset rest

-- Which of the two are still NULL, and the version.
abbrev pub Bound : Bool → Bool → ℕ → Claim
Bound no_seat no_notifier version g l =
    (is_null g.wayland.wayland_seat ≡ no_seat)
    × (is_null g.wayland.wayland_idle_notifier ≡ no_notifier)
    × (g.wayland.wayland_idle_notifier_version ≡ version)

-- What an announcement that is looked at makes of the version.
abbrev next_version : Bool → ℕ → Global → ℕ
next_version no_notifier version g =
    if strcmp_equal g.interface ext_idle_notifier_v1 && no_notifier
    then (if ltb g.version 2 then g.version else 2)
    else version

abbrev left_null : List ℕ → Global → Bool → Bool
left_null interface g before = if strcmp_equal g.interface interface then false else before

module _ (os : Os) (registry : ℕ) (binds : Binds os) where
  abbrev Silently : ℕ → Type 0
  Silently c = ⊥

  bind-Triple :
      (I : Claim) (kind : Kind) (name version : ℕ)
      → Triple Silently I
          (bind os registry kind name version)
          (λ p g l. I g l × (is_null p ≡ false))
  unfolding pass
  bind-Triple I kind name version = Triple-bind (Triple-emit _ (λ tr. refl)) λ _.
      Triple-bind (Triple-emit _ (λ tr. refl)) λ _.
        Triple-post
          (Triple-ask (λ h. os.wayland.bind h kind name version) _ (created_or_not-signals kind))
          (λ p g l h. (h.0, ap is_null h.1.1 ∙ binds h.1.0 kind name version))

  global-Triple :
      (a b : Bool) (v : ℕ) (g : Global)
      → Triple Silently (Bound a b v) (wayland_registry_global os registry g) (λ _.
        Bound (left_null wl_seat g a) (left_null ext_idle_notifier_v1 g b) (next_version b v g))
  unfolding wayland_registry_global set_wayland
  global-Triple a b v m =
      Triple-branch (λ g. strcmp_equal m.interface wl_seat && is_null g.wayland.wayland_seat)
        (Triple-fact (λ g l h. and_left _ _ h.1)
          λ seat. Triple-bind (bind-Triple _ Kind.seat m.name 1) λ p. Triple-modify _ (λ g l h. (
            h.1 ∙ sym (given _ a seat),
            h.0.0.1 ∙ kept _ b (seat_only m.interface seat),
            h.0.0.2 ∙ unchosen _ (no_conjunction _ b (seat_only m.interface seat)),
          )))
        (Triple-when
          (λ g.
            strcmp_equal m.interface ext_idle_notifier_v1
            && is_null g.wayland.wayland_idle_notifier)
          (Triple-fact {X = (strcmp_equal m.interface ext_idle_notifier_v1 ≡ true) × (b ≡ true)}
            (λ g l h. (and_left _ _ h.1, sym h.0.0.1 ∙ and_right _ _ h.1))
            λ noted.
              Triple-pre (λ g l h. h.0)
                (Triple-bind_modify
                  (λ g l.
                    (is_null g.wayland.wayland_seat ≡ a)
                    × (strcmp_equal m.interface wl_seat && a ≡ false)
                    × (g.wayland.wayland_idle_notifier_version
                        ≡ (if ltb m.version 2 then m.version else 2)))
                  _ _
                  (λ g l h. (
                    h.0.0,
                    subst (λ x. strcmp_equal m.interface wl_seat && x ≡ false) h.0.0 h.1,
                    refl,
                  ))
                  (Triple-bind (bind-Triple _ notifier m.name _) λ p. Triple-modify _ (λ g l h. (
                    h.0.0 ∙ not_first _ a h.0.1,
                    h.1 ∙ sym (given _ b noted.0),
                    h.0.2 ∙ sym (chosen _ _ noted.0 noted.1),
                  )))))
          (λ g l h e. (
            h.0.0
                ∙ not_first _ a
                    (subst (λ x. strcmp_equal m.interface wl_seat && x ≡ false) h.0.0 h.1),
            h.0.1
                ∙ not_first _ b (
                    subst (λ x. strcmp_equal m.interface ext_idle_notifier_v1 && x ≡ false) h.0.1
                      e),
            h.0.2
                ∙ unchosen _ (
                    subst (λ x. strcmp_equal m.interface ext_idle_notifier_v1 && x ≡ false) h.0.1
                      e),
          )))
    where
      and_left : (x y : Bool) → x && y ≡ true → x ≡ true
      and_left x y e = ground arith

      and_right : (x y : Bool) → x && y ≡ true → y ≡ true
      and_right x y e = ground arith

      not_first : (x y : Bool) → x && y ≡ false → y ≡ (if x then false else y)
      not_first true true e = absurd (false≢true (sym e))
      not_first true false e = refl
      not_first false y e = refl

      given : (x y : Bool) → x ≡ true → (if x then false else y) ≡ false
      given true y e = refl
      given false y e = absurd (false≢true e)

      kept : (x y : Bool) → x ≡ false → y ≡ (if x then false else y)
      kept true y e = absurd (false≢true (sym e))
      kept false y e = refl

      no_conjunction : (x y : Bool) → x ≡ false → x && y ≡ false
      no_conjunction true y e = absurd (false≢true (sym e))
      no_conjunction false y e = refl

      chosen :
          (x y : Bool)
          → x ≡ true
          → y ≡ true
          → (if x && y then (if ltb m.version 2 then m.version else 2) else v)
            ≡ (if ltb m.version 2 then m.version else 2)
      chosen true true e f = refl
      chosen true false e f = absurd (false≢true f)
      chosen false y e f = absurd (false≢true e)

      unchosen :
          (x : Bool) → x ≡ false → v ≡ (if x then (if ltb m.version 2 then m.version else 2) else v)
      unchosen true e = absurd (false≢true (sym e))
      unchosen false e = refl

  -- The three after a list of announcements.
  abbrev version_after : Bool → ℕ → List RegistryCallback → ℕ
  version_after no_notifier version cs = if no_notifier then first_version version cs else version

  abbrev still_null : List ℕ → List RegistryCallback → Bool → Bool
  still_null interface cs before = if announces interface cs then false else before

  pub callbacks-Triple :
      (cs : List RegistryCallback) (a b : Bool) (v : ℕ)
      → Triple Silently (Bound a b v) (registry_callbacks os registry cs) (λ _.
        Bound
          (still_null wl_seat cs a)
          (still_null ext_idle_notifier_v1 cs b)
          (version_after b v cs))
  unfolding registry_callbacks registry_callback
  callbacks-Triple [] a b v = Triple-pure _ (λ g l h. (h.0, h.1, h.2 ∙ unset b))
    where
      unset : (b : Bool) → v ≡ (if b then v else v)
      unset true = refl
      unset false = refl
  callbacks-Triple (global_remove name ∷ rest) a b v =
      Triple-bind {J = λ _. Bound a b v} (Triple-pure _ (λ g l h. h))
        (λ _. callbacks-Triple rest a b v)
  callbacks-Triple (global m ∷ rest) a b v = Triple-bind (global-Triple a b v m) λ _.
      Triple-post (callbacks-Triple rest _ _ _) (λ _ g l h. (
        h.0 ∙ joined _ _ a,
        h.1 ∙ joined _ _ b,
        h.2 ∙ version_joined (strcmp_equal m.interface ext_idle_notifier_v1) b,
      ))
    where
      joined :
          (x y c : Bool)
          → (if y then false else if x then false else c)
            ≡ (if (if x then true else y) then false else c)
      joined true true c = refl
      joined true false c = refl
      joined false y c = refl

      version_joined :
          (x c : Bool)
          → (if (if x then false else c)
              then first_version
                  (if x && c then (if ltb m.version 2 then m.version else 2) else v)
                  rest
              else if x && c
              then (if ltb m.version 2 then m.version else 2)
              else v)
            ≡ (if c
                then (if x
                    then (if ltb m.version 2 then m.version else 2)
                    else first_version v rest)
                else v)
      version_joined true true = refl
      version_joined true false = refl
      version_joined false true = refl
      version_joined false false = refl

-- Where binding gives an object, and with neither pointer set before: after the announcements of a
-- registry the seat is set exactly if one is announced, and the notifier exactly if one is.
-- wl_registry_bind has been called for the first seat that is announced, with its name and version
-- 1, and for the first notifier, with its name and with its version or 2, whichever is less, and
-- for no other of them; the variable for the version says the same, and what it said before if
-- no notifier is announced. The program goes on.
pub announcements_are_bound :
    (os : Os) (registry : ℕ) (cs : List RegistryCallback) (s : State)
    → Binds os
    → is_null s.wayland.wayland_seat ≡ true
    → is_null s.wayland.wayland_idle_notifier ≡ true
    → Wp
        (registry_callbacks os registry cs)
        (λ _ t.
          (is_null t.wayland.wayland_seat ≡ not (announces wl_seat cs))
          × (is_null t.wayland.wayland_idle_notifier ≡ not (announces ext_idle_notifier_v1 cs))
          × (t.wayland.wayland_idle_notifier_version
              ≡ first_version s.wayland.wayland_idle_notifier_version cs)
          × (seat_requests t.trace ≡ seat_request (first_of wl_seat cs) ++ seat_requests s.trace)
          × (notifier_requests t.trace
              ≡ notifier_request (first_of ext_idle_notifier_v1 cs) ++ notifier_requests s.trace))
        (λ c t. ⊥)
        s
announcements_are_bound os registry cs s binds no_seat no_notifier =
    Wp-mono
      (Wp-and _ _ _ _
        ((callbacks-Triple os registry binds cs true true
            s.wayland.wayland_idle_notifier_version).run
          s (no_seat, no_notifier, refl))
        (callbacks-Asks os registry binds cs s))
      (λ _ t h. (
        h.0.0 ∙ negated _,
        h.0.1 ∙ negated _,
        h.0.2,
        sym (nothing_more t.wayland.wayland_seat _)
            ∙ h.1.0
            ∙ ap
                (λ b.
                  (if b then seat_request (first_of wl_seat cs) else []) ++ seat_requests s.trace)
                no_seat,
        sym (nothing_more t.wayland.wayland_idle_notifier _)
            ∙ h.1.1
            ∙ ap
                (λ b.
                  (if b then notifier_request (first_of ext_idle_notifier_v1 cs) else [])
                  ++ notifier_requests s.trace)
                no_notifier,
      ))
      (λ c t h. h)
  where
    negated : (x : Bool) → (if x then false else true) ≡ not x
    negated true = refl
    negated false = refl

    nothing_more : (p : Option ℕ) (l : List (ℕ × ℕ)) → if_null p [] ++ l ≡ l
    nothing_more none l = refl
    nothing_more (some a) l = refl
