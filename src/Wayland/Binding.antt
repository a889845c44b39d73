-- ===== src/Wayland/Binding.antt =====
-- Which objects are asked for when a registry announces its interfaces.
use runwhenidle.Prelude.{
  ℕ, ◌≡◌, refl, sym, ap, subst, ◌∙◌, Bool, true, false, ◌&&◌, Option, none, some, List, [], ◌∷◌,
  ◌++◌, ltb, ◌==◌, ==_iff, Bool-cases, inl, inr, if◌then◌else◌,
}
use mathlib.Core.Bool.{false≢true}
use runwhenidle.System.{
  Os, Event, Kind, notifier, bind_interface, wayland_call, used, Global, RegistryCallback, global,
  global_remove, State, ◌>>=◌, ◌>>◌, ask, emit, modify, Wp, Wp-mono, Wp-bind, Wp-branch, Wp-when,
  Wp-pure,
}
use runwhenidle.Arguments.Options.{strcmp_equal}
use runwhenidle.Wayland.{
  wl_seat, ext_idle_notifier_v1, is_null, created_or_not, pass, set_wayland, bind,
  wayland_registry_global, registry_callback, registry_callbacks,
}

strcmp_equal-eq : (a b : List ℕ) → strcmp_equal a b ≡ true → a ≡ b
unfolding strcmp_equal
strcmp_equal-eq [] [] e = refl
strcmp_equal-eq [] (d ∷ ds) e = absurd (false≢true e)
strcmp_equal-eq (c ∷ cs) [] e = absurd (false≢true e)
strcmp_equal-eq (c ∷ cs) (d ∷ ds) e = elim (Bool-cases (c == d)) [
  | inl same ↦
      let tails : strcmp_equal cs ds ≡ true = subst (λ b. b && strcmp_equal cs ds ≡ true) same e in
      ap (λ x. x ∷ cs) ((==_iff c d).0 same) ∙ ap (λ xs. d ∷ xs) (strcmp_equal-eq cs ds tails)
  | inr differ ↦ absurd (false≢true (subst (λ b. b && strcmp_equal cs ds ≡ true) differ e))
]

-- A seat is no notifier.
pub seat_only :
    (interface : List ℕ)
    → strcmp_equal interface wl_seat ≡ true
    → strcmp_equal interface ext_idle_notifier_v1 ≡ false
unfolding strcmp_equal
seat_only interface e =
    subst (λ i. strcmp_equal i ext_idle_notifier_v1 ≡ false)
      (sym (strcmp_equal-eq interface wl_seat e)) refl

-- The first announcement of an interface.
abbrev pub first_of : List ℕ → List RegistryCallback → Option Global
first_of interface [] = none
first_of interface (global g ∷ rest) =
    if strcmp_equal g.interface interface then some g else first_of interface rest
first_of interface (global_remove name ∷ rest) = first_of interface rest

-- A seat is asked for by its name and with version 1, a notifier with its version or 2, whichever is
-- less.
abbrev pub seat_request : Option Global → List (ℕ × ℕ)
seat_request none = []
seat_request (some g) = (g.name, 1) ∷ []

abbrev pub notifier_request : Option Global → List (ℕ × ℕ)
notifier_request none = []
notifier_request (some g) = (g.name, (if ltb g.version 2 then g.version else 2)) ∷ []

-- The names and versions that wl_registry_bind has been given, newest first.
abbrev pub seat_requests : List Event → List (ℕ × ℕ)
seat_requests [] = []
seat_requests (bind_interface Kind.seat name version ∷ es) = (name, version) ∷ seat_requests es
seat_requests (e ∷ es) = seat_requests es

abbrev pub notifier_requests : List Event → List (ℕ × ℕ)
notifier_requests [] = []
notifier_requests (bind_interface Kind.notifier name version ∷ es) =
    (name, version) ∷ notifier_requests es
notifier_requests (e ∷ es) = notifier_requests es

created-requests :
    (kind : Kind) (p : Option ℕ) (tr : List Event)
    → (seat_requests (created_or_not kind p ∷ tr) ≡ seat_requests tr)
      × (notifier_requests (created_or_not kind p ∷ tr) ≡ notifier_requests tr)
created-requests kind none tr = (refl, refl)
created-requests kind (some a) tr = (refl, refl)

-- What may still be asked for.
abbrev pub if_null : Option ℕ → List (ℕ × ℕ) → List (ℕ × ℕ)
if_null p requests = if is_null p then requests else []

module _ (f : Option Global → List (ℕ × ℕ)) (m : Global) (q : Option Global) where
  -- The announcement `m` is the first, and is asked for.
  asked_now :
      (x before after : Bool) (l l' : List (ℕ × ℕ))
      → x && before ≡ true
      → after ≡ false
      → l' ≡ f (some m) ++ l
      → (if after then f q else []) ++ l'
        ≡ (if before then f (if x then some m else q) else []) ++ l
  asked_now true true true l l' e g h = absurd (false≢true (sym g))
  asked_now true true false l l' e g h = h
  asked_now true false after l l' e g h = absurd (false≢true e)
  asked_now false before after l l' e g h = absurd (false≢true e)

  -- Another one, or one of which there is an object already.
  passed_over :
      (x before after : Bool) (l l' : List (ℕ × ℕ))
      → x && before ≡ false
      → after ≡ before
      → l' ≡ l
      → (if after then f q else []) ++ l'
        ≡ (if before then f (if x then some m else q) else []) ++ l
  passed_over x before after l l' e g h =
      subst
        (λ b.
          (if b then f q else []) ++ l' ≡ (if before then f (if x then some m else q) else []) ++ l)
        (sym g) (ap (λ k. (if before then f q else []) ++ k) h ∙ same x before e)
    where
      same :
          (x before : Bool)
          → x && before ≡ false
          → (if before then f q else []) ++ l
            ≡ (if before then f (if x then some m else q) else []) ++ l
      same true true e = absurd (false≢true (sym e))
      same true false e = refl
      same false before e = refl

no_conjunction :
    (x y : Bool) → x && y ≡ true → (z : Bool) → (x ≡ true → z ≡ false) → (b : Bool) → z && b ≡ false
no_conjunction true y e z f b = ap (λ c. c && b) (f refl)
no_conjunction false y e z f b = absurd (false≢true e)

module _ (os : Os) (registry : ℕ)
    (binds : (h : List Event) (kind : Kind) (name version : ℕ)
      → is_null (os.wayland.bind h kind name version) ≡ false) where
  -- The calls before the answer.
  abbrev bound_at : Kind → ℕ → ℕ → State → List Event
  bound_at kind name version s =
      bind_interface kind name version ∷ wayland_call (used Kind.registry registry) ∷ s.trace

  answered-requests :
      (kind : Kind) (name version : ℕ) (s : State)
      → (seat_requests (
            created_or_not kind (os.wayland.bind (bound_at kind name version s) kind name version)
            ∷ bound_at kind name version s)
          ≡ seat_requests (bound_at kind name version s))
        × (notifier_requests (
              created_or_not kind (os.wayland.bind (bound_at kind name version s) kind name version)
              ∷ bound_at kind name version s)
            ≡ notifier_requests (bound_at kind name version s))
  answered-requests kind name version s =
      created-requests kind (os.wayland.bind (bound_at kind name version s) kind name version)
        (bound_at kind name version s)

  -- One announcement, followed by others, asks for the same as all of them do.
  abbrev pub Asks : List RegistryCallback → List RegistryCallback → State → State → Type 0
  Asks cs rest s t =
      (if_null t.wayland.wayland_seat (seat_request (first_of wl_seat rest))
          ++ seat_requests t.trace
        ≡ if_null s.wayland.wayland_seat (seat_request (first_of wl_seat cs))
          ++ seat_requests s.trace)
      × (if_null t.wayland.wayland_idle_notifier
              (notifier_request (first_of ext_idle_notifier_v1 rest))
            ++ notifier_requests t.trace
          ≡ if_null s.wayland.wayland_idle_notifier
              (notifier_request (first_of ext_idle_notifier_v1 cs))
            ++ notifier_requests s.trace)

  seat_bound :
      (m : Global) (rest : List RegistryCallback) (s : State)
      → strcmp_equal m.interface wl_seat && is_null s.wayland.wayland_seat ≡ true
      → Wp
          (bind os registry Kind.seat m.name 1 >>= λ seat.
            set_wayland (λ w. record w { wayland_seat = seat }))
          (λ _ t. Asks (global m ∷ rest) rest s t)
          (λ c t. ⊥)
          s
  unfolding pass emit ask ◌>>=◌ set_wayland modify
  seat_bound m rest s e = record {
    holds = (
      asked_now seat_request m (first_of wl_seat rest) (strcmp_equal m.interface wl_seat)
          (is_null s.wayland.wayland_seat) _ (seat_requests s.trace) _ e
          (binds (bound_at Kind.seat m.name 1 s) Kind.seat m.name 1)
          (answered-requests Kind.seat m.name 1 s).0,
      passed_over notifier_request m (first_of ext_idle_notifier_v1 rest)
          (strcmp_equal m.interface ext_idle_notifier_v1) (is_null s.wayland.wayland_idle_notifier)
          _ (notifier_requests s.trace) _
          (no_conjunction (strcmp_equal m.interface wl_seat) (is_null s.wayland.wayland_seat) e
            (strcmp_equal m.interface ext_idle_notifier_v1) (seat_only m.interface)
            (is_null s.wayland.wayland_idle_notifier))
          refl (answered-requests Kind.seat m.name 1 s).1,
    );
  }

  notifier_bound :
      (m : Global) (rest : List RegistryCallback) (s : State)
      → strcmp_equal m.interface wl_seat && is_null s.wayland.wayland_seat ≡ false
      → strcmp_equal m.interface ext_idle_notifier_v1 && is_null s.wayland.wayland_idle_notifier
        ≡ true
      → Wp
          (do
            set_wayland (λ w. record w {
              wayland_idle_notifier_version = if ltb m.version 2 then m.version else 2;
            })
            object ← bind os registry notifier m.name (if ltb m.version 2 then m.version else 2)
            set_wayland (λ w. record w { wayland_idle_notifier = object }))
          (λ _ t. Asks (global m ∷ rest) rest s t)
          (λ c t. ⊥)
          s
  unfolding pass emit ask ◌>>=◌ set_wayland modify
  notifier_bound m rest s none_ e = record {
    holds = (
      passed_over seat_request m (first_of wl_seat rest) (strcmp_equal m.interface wl_seat)
          (is_null s.wayland.wayland_seat) _ (seat_requests s.trace) _ none_ refl
          (answered-requests notifier m.name (if ltb m.version 2 then m.version else 2) s).0,
      asked_now notifier_request m (first_of ext_idle_notifier_v1 rest)
          (strcmp_equal m.interface ext_idle_notifier_v1) (is_null s.wayland.wayland_idle_notifier)
          _ (notifier_requests s.trace) _ e
          (binds (bound_at notifier m.name (if ltb m.version 2 then m.version else 2) s) notifier
            m.name (if ltb m.version 2 then m.version else 2))
          (answered-requests notifier m.name (if ltb m.version 2 then m.version else 2) s).1,
    );
  }

  global-Asks :
      (m : Global) (rest : List RegistryCallback) (s : State)
      → Wp
          (wayland_registry_global os registry m)
          (λ _ t. Asks (global m ∷ rest) rest s t)
          (λ c t. ⊥)
          s
  unfolding wayland_registry_global
  global-Asks m rest s = Wp-branch _ _ _ (seat_bound m rest s) (λ none_.
      Wp-when _ _ (notifier_bound m rest s none_) (λ other. (
        passed_over seat_request m (first_of wl_seat rest) (strcmp_equal m.interface wl_seat)
            (is_null s.wayland.wayland_seat) _ (seat_requests s.trace) _ none_ refl refl,
        passed_over notifier_request m (first_of ext_idle_notifier_v1 rest)
            (strcmp_equal m.interface ext_idle_notifier_v1)
            (is_null s.wayland.wayland_idle_notifier) _ (notifier_requests s.trace) _ other refl
            refl,
      )))

  -- What is asked for in the end.
  pub callbacks-Asks :
      (cs : List RegistryCallback) (s : State)
      → Wp (registry_callbacks os registry cs) (λ _ t. Asks cs [] s t) (λ c t. ⊥) s
  unfolding registry_callbacks registry_callback
  callbacks-Asks [] s = Wp-pure tt (refl, refl)
  callbacks-Asks (global_remove name ∷ rest) s =
      Wp-bind {Q = λ _ t. Asks (global_remove name ∷ rest) rest s t} (Wp-pure tt (refl, refl))
        (λ _ t h. Wp-mono (callbacks-Asks rest t) (λ _ u k. (k.0 ∙ h.0, k.1 ∙ h.1)) (λ c u k. k))
        (λ c t h. h)
  callbacks-Asks (global m ∷ rest) s =
      Wp-bind (global-Asks m rest s)
        (λ _ t h. Wp-mono (callbacks-Asks rest t) (λ _ u k. (k.0 ∙ h.0, k.1 ∙ h.1)) (λ c u k. k))
        (λ c t h. h)
