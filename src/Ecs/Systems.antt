-- ===== src/Ecs/Systems.antt =====
-- The systems of hECS (system_awake.go, system_start.go, system_update.go, system_destroy.go) and what the runtime of
-- hECS/runtime.go does with them. A component is a number, and `Kinds` says which interfaces it implements. The
-- methods that the systems call run in the thread pool; a phase ends when all that it has started have returned, so
-- what they do to the systems is taken as steps between the phases. Custom systems are a parameter.
pub mod Counting
pub mod Refinement
pub mod Order
use happy.Base.{
  ℕ, ◌+◌, Bool, true, false, String, Option, none, some, List, [], ◌∷◌, ◌++◌, map, ◌==◌, nat_eq,
  string_eq, if◌then◌else◌,
}

-- Which of IAwake, IStart, IUpdate and IDestroy a component implements.
pub record Kinds : Type 0 where
  pub awakes : ℕ → Bool
  pub starts : ℕ → Bool
  pub updates : ℕ → Bool
  pub destroys : ℕ → Bool

-- The state of the systems for awake, start and destroy.
pub record Queue : Type 0 where
  pub components : List ℕ
  pub temp : List ℕ

pub record Updater : Type 0 where
  pub components : List ℕ
  pub push : List ℕ
  pub pop : List ℕ

-- The interface `ISystem` of a custom system.
pub record System (S : Type 0) : Type 0 where
  pub name : S → String
  pub filter : ℕ → S → S
  pub independent_filter : ℕ → ℕ → S → S
  pub update_frame : S → S

-- The systems of a runtime.
pub record Systems (S : Type 0) : Type 0 where
  pub awake : Queue
  pub start : Queue
  pub update : Updater
  pub destroy : Queue
  pub custom : List S

-- What a system calls.
pub data Call : Type 0 where
  awoken : ℕ → Call
  started : ℕ → Call
  updated : ℕ → Call
  destroyed : ℕ → Call

abbrev pub empty_queue : Queue
empty_queue = record { components = []; temp = [] }

unfoldable pub new_systems : {S : Type 0} → Systems S
new_systems = record {
  awake = empty_queue;
  start = empty_queue;
  update = record { components = []; push = []; pop = [] };
  destroy = empty_queue;
  custom = [];
}

-- `Filter` of a queue: the component is pushed if it implements the interface.
abbrev pub push_back : Bool → ℕ → Queue → Queue
push_back implements c q =
    if implements then record q { components = q.components ++ c ∷ [] } else q

-- `UpdateFrame` of a queue: the lists are swapped, and the loop takes each component of `temp` from its front.
abbrev pub swap : Queue → Queue
swap q = record { components = q.temp; temp = q.components }

abbrev pub drain : Queue → Queue
drain q = record q { temp = [] }

-- `container/list`: an element that is removed has no next, so the loop ends at the first match.
unfoldable pub remove_first : List ℕ → ℕ → List ℕ
remove_first [] p = []
remove_first (c ∷ cs) p = let rest = remove_first cs p in if c == p then cs else c ∷ rest

unfoldable pub remove_each : List ℕ → List ℕ → List ℕ
remove_each cs [] = cs
remove_each cs (p ∷ ps) = remove_each (remove_first cs p) ps

-- `UpdateFrame` of the update system, up to the calls.
unfoldable pub refresh : Updater → Updater
unfolding remove_each
refresh u = record { components = remove_each (u.components ++ u.push) u.pop; push = []; pop = [] }

-- `IndependentFilter` of the update system: 0 adds, 1 removes.
unfoldable pub update_filter : Bool → ℕ → ℕ → Updater → Updater
update_filter implements op c u =
    if implements
    then if op == 0
      then record u { push = u.push ++ c ∷ [] }
      else if op == 1
      then record u { pop = u.pop ++ c ∷ [] }
      else u
    else u

-- The calls on the systems, and the phases of `UpdateFrame` of the runtime.
pub data Event : Type 0 where
  filters : ℕ → Event
  retires : ℕ → Event
  awakens : Event
  starts_up : Event
  refreshes : Event
  tears_down : Event
  runs_custom : Event

-- `UpdateFrame`, with the events that fall between the phases.
abbrev pub frame : List Event → List Event → List Event → List Event
frame after_awake after_start after_update =
    awakens
    ∷ (after_awake
        ++ (starts_up
            ∷ (after_start ++ (refreshes ∷ (after_update ++ (tears_down ∷ runs_custom ∷ []))))))

module _ {S : Type 0} (api : System S) where
  -- `RegisterSystem`: a name that a custom system has already is passed over.
  unfoldable pub has_name : String → List S → Bool
  has_name n [] = false
  has_name n (s ∷ ss) = if api.name s == n then true else has_name n ss

  unfoldable pub register_system : S → Systems S → Systems S
  unfolding has_name
  register_system s r =
      if has_name (api.name s) r.custom then r else record r { custom = r.custom ++ s ∷ [] }

  -- The operation of `SystemOperate` on the custom system of a name.
  unfoldable pub operate_named : String → ℕ → ℕ → List S → List S
  operate_named n op c [] = []
  operate_named n op c (s ∷ ss) =
      let rest = operate_named n op c ss in
      if api.name s == n then api.independent_filter op c s ∷ rest else s ∷ rest

  module _ (kinds : Kinds) where
    open kinds use {awakes, starts, updates, destroys}

    -- `SystemFilter`; `Filter` of the destroy system does nothing.
    unfoldable pub system_filter : ℕ → Systems S → Systems S
    unfolding update_filter
    system_filter c r = record {
      awake = push_back (awakes c) c r.awake;
      start = push_back (starts c) c r.start;
      update = update_filter (updates c) 0 c r.update;
      destroy = r.destroy;
      custom = map (api.filter c) r.custom;
    }

    -- `SystemOperate`; the Boolean is false for "system not found".
    unfoldable pub system_operate : String → ℕ → ℕ → Systems S → Systems S × Bool
    unfolding update_filter has_name operate_named
    system_operate n op c r =
        if n == "awake"
        then (record r { awake = push_back (awakes c) c r.awake }, true)
        else if n == "start"
        then (record r { start = push_back (starts c) c r.start }, true)
        else if n == "update"
        then (record r { update = update_filter (updates c) op c r.update }, true)
        else if n == "destroy"
        then (record r { destroy = push_back (destroys c) c r.destroy }, true)
        else if has_name n r.custom
        then (record r { custom = operate_named n op c r.custom }, true)
        else (r, false)

    -- What `RemoveComponent` and `_destroy` of an object do with a component of it.
    unfoldable pub retire : ℕ → Systems S → Systems S
    unfolding system_operate
    retire c r = (system_operate "destroy" 0 c (system_operate "update" 1 c r).0).0

    unfoldable pub step : Event → Systems S → Systems S × List Call
    unfolding system_filter retire refresh
    step (filters c) r = (system_filter c r, [])
    step (retires c) r = (retire c r, [])
    step awakens r = (record r { awake = drain (swap r.awake) }, map awoken (swap r.awake).temp)
    step starts_up r = (record r { start = drain (swap r.start) }, map started (swap r.start).temp)
    step refreshes r =
        (record r { update = refresh r.update }, map updated (refresh r.update).components)
    step tears_down r =
        (record r { destroy = drain (swap r.destroy) }, map destroyed (swap r.destroy).temp)
    step runs_custom r = (record r { custom = map api.update_frame r.custom }, [])

    unfoldable pub run : List Event → Systems S → Systems S × List Call
    unfolding step
    run [] r = (r, [])
    run (e ∷ es) r =
        let (r', calls) = step e r in let (r'', later) = run es r' in (r'', calls ++ later)
