-- ===== src/Wayland/Objects.antt =====
-- The objects of the Wayland library that are alive, by the calls made so far, and what the library
-- allows to be done with them.
use runwhenidle.Prelude.{ℕ, ◌≡◌, Option, none, some, List, [], ◌∷◌}
use runwhenidle.System.{Kind, WaylandCall, created, destroyed, not_created, used, Wayland}

-- One place for each kind.
pub record Objects : Type 0 where
  pub a_display : Option ℕ
  pub a_registry : Option ℕ
  pub a_seat : Option ℕ
  pub a_notifier : Option ℕ
  pub a_notification : Option ℕ

abbrev pub nothing : Objects
nothing = record {
  a_display = none;
  a_registry = none;
  a_seat = none;
  a_notifier = none;
  a_notification = none;
}

abbrev pub get : Kind → Objects → Option ℕ
get Kind.display o = o.a_display
get Kind.registry o = o.a_registry
get Kind.seat o = o.a_seat
get Kind.notifier o = o.a_notifier
get Kind.notification o = o.a_notification

abbrev pub put : Kind → Option ℕ → Objects → Objects
put Kind.display p o = record o { a_display = p }
put Kind.registry p o = record o { a_registry = p }
put Kind.seat p o = record o { a_seat = p }
put Kind.notifier p o = record o { a_notifier = p }
put Kind.notification p o = record o { a_notification = p }

abbrev pub effect : WaylandCall → Objects → Objects
effect (created kind address) o = put kind (some address) o
effect (destroyed kind address) o = put kind none o
effect (not_created kind) o = o
effect (used kind address) o = o

-- The objects that live when these calls have been made.
abbrev pub alive : List WaylandCall → Objects
alive [] = nothing
alive (c ∷ cs) = effect c (alive cs)

-- The display is disconnected when the objects that it has given are gone.
abbrev pub IsLast : Kind → Objects → Type 0
IsLast Kind.display o =
    (o.a_registry ≡ none) × (o.a_seat ≡ none) × (o.a_notifier ≡ none) × (o.a_notification ≡ none)
IsLast _ o = Unit

-- An object is created only where there is none of its kind, so that none is lost; and what is used or
-- destroyed is the one that lives.
abbrev pub IsAllowed : WaylandCall → Objects → Type 0
IsAllowed (created kind address) o = get kind o ≡ none
IsAllowed (not_created kind) o = get kind o ≡ none
IsAllowed (destroyed kind address) o = (get kind o ≡ some address) × IsLast kind o
IsAllowed (used kind address) o = get kind o ≡ some address

abbrev pub IsOrderly : List WaylandCall → Type 0
IsOrderly [] = Unit
IsOrderly (c ∷ cs) = IsAllowed c (alive cs) × IsOrderly cs

-- What the variables of wayland.c point to.
abbrev pub pointers : Wayland → Objects
pointers w = record {
  a_display = w.wayland_display;
  a_registry = w.wayland_registry;
  a_seat = w.wayland_seat;
  a_notifier = w.wayland_idle_notifier;
  a_notification = w.wayland_idle_notification;
}
